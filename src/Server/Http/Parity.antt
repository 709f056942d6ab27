-- ===== src/Server/Http/Parity.antt =====
-- The two servers against each other: StdioServer.Serve on a line, and handleMessage of HTTPServer
-- on a body with the same document.
use mcp_module.Common.{
  ℕ, Option, none, some, List, [], ◌∷◌, map, ◌≡◌, ◌>>=◌, nat_eq, if◌then◌else◌, ◌≢◌,
}
use mcp_module.Json.{Runtime, Value, absent}
use mcp_module.I18n.{Translator}
use mcp_module.Protocol.{Request, jsonrpc_version, code_invalid_request}
use mcp_module.Protocol.Codec.{decode_request}
use mcp_module.Server.Dispatch.{handle_request}
use mcp_module.Server.Serve.{Input, malformed, document, line, on_line, serve, Served}
use mcp_module.Server.Http.{Syntax, HttpServer}
use mcp_module.Server.Http.Message.{
  Handled, responded, aborted, written, write_error, handle_document,
}

-- A line with that document, or with no JSON.
abbrev pub input_of : Option Value → Input
input_of none = malformed
input_of (some v) = document v

-- The document in a response of status 200.
abbrev pub answer_of : Handled → List (List ℕ)
answer_of (responded r) = if nat_eq r.status 200 then r.body ∷ [] else []
answer_of aborted = []

module _ {W : Type 0} (go : Runtime) (text : Syntax) (translator : Translator)
    (s : HttpServer W) where
  abbrev Same : Served W → HttpServer W × W × Handled → Type 0
  Same stdio http = (map text.render stdio.written ≡ answer_of http.2) × (stdio.world ≡ http.1)

  -- How the two servers treat a document, or a text that is no JSON.
  pub data Compares (w : W) (o : Option Value) : Type 0 where
    alike :
        ((req : Request) → (o >>= decode_request go) ≡ some req → req.jsonrpc ≡ jsonrpc_version)
        → map text.render (serve go translator s.tables (line (input_of o) ∷ []) w).written
          ≡ answer_of (handle_document go text translator s w o).2
        → (serve go translator s.tables (line (input_of o) ∷ []) w).world
          ≡ (handle_document go text translator s w o).1
        → Compares w o
    other_version :
        {req : Request}
        → (o >>= decode_request go) ≡ some req
        → req.jsonrpc ≢ jsonrpc_version
        → on_line go translator s.tables (input_of o) w
          ≡ handle_request go translator req s.tables w
        → handle_document go text translator s w o ≡ (
          s,
          w,
          responded
              (write_error text req.id code_invalid_request "invalid JSON-RPC version" absent),
        )
        → Compares w o
