-- ===== src/Server/Serve/Answers.antt =====
-- What StdioServer.Serve writes for its input, and how it ends.
use Prim.Native.String
use mcp_module.Common.{String, none, some, List, [], ◌∷◌, ◌++◌, ◌≡◌, ◌≢◌}
use mcp_module.Json.{Value, Runtime}
use mcp_module.Protocol.{Request, Response}
use mcp_module.Protocol.Codec.{decode_request}
use mcp_module.Server.Tables.{Tables}
use mcp_module.Server.Dispatch.{Reaction, reply, silent, panicked}
use mcp_module.Server.Replies.{Answers}
use mcp_module.Server.Serve.{
  Input, blank, malformed, document, Round, cancelled, scan_failed, line, Ending, returned, crashed,
  parse_failure, write_response,
}

-- What is written for a line: nothing for an empty one and for the notification, an error without an
-- id for one that is no request, and a response that answers the request otherwise.
pub data LineOutput (go : Runtime) : Input → List Value → Type 0 where
  skipped : LineOutput go blank []
  no_json : LineOutput go malformed (write_response (parse_failure go none))
  no_request :
      {v : Value}
      → decode_request go v ≡ none
      → LineOutput go (document v) (write_response (parse_failure go (some v)))
  notified :
      {v : Value} {req : Request}
      → decode_request go v ≡ some req
      → req.method ≡ "notifications/initialized"
      → LineOutput go (document v) []
  answered :
      {v : Value} {req : Request} {r : Response}
      → decode_request go v ≡ some req
      → req.method ≢ "notifications/initialized"
      → Answers req.id r
      → LineOutput go (document v) (write_response r)

-- A run over the rounds: what is written, line by line, and the ending.
pub data Serves (go : Runtime) : List Round → List Value → Ending → Type 0 where
  at_end : Serves go [] [] (returned none)
  stopped : {m : String} {rs : List Round} → Serves go (cancelled m ∷ rs) [] (returned (some m))
  broken :
      {m : String} {rs : List Round}
      → Serves go (scan_failed m ∷ rs) [] (returned (some (String.◌++◌ "scanner error: " m)))
  next :
      {l : Input} {rs : List Round} {vs ws : List Value} {e : Ending}
      → LineOutput go l vs
      → Serves go rs ws e
      → Serves go (line l ∷ rs) (vs ++ ws) e
  crash :
      {v : Value} {req : Request} {rs : List Round}
      → decode_request go v ≡ some req
      → req.method ≡ "resources/read"
      → Serves go (line (document v) ∷ rs) [] crashed

-- What a line may lead to, before it is written.
abbrev Leads : Runtime → Input → Reaction → Type 0
Leads go l (reply r) = LineOutput go l (write_response r)
Leads go l silent = LineOutput go l []
Leads go l panicked = (rs : List Round) → Serves go (line l ∷ rs) [] crashed
