-- ===== src/Server/Serve.antt =====
-- pkg/server/stdio_server.go: StdioServer.Serve and writeResponse. The input is the list of what the
-- rounds of the loop find; that its end is reached is the end of the file.
pub mod Answers
pub mod Lasting
use Prim.Native.String
use mcp_module.Common.{String, Option, none, some, List, [], ◌∷◌, ◌++◌}
use mcp_module.Json.{Value, absent, string, Runtime}
use mcp_module.I18n.{Translator}
use mcp_module.Protocol.{Request, Response, new_error_response, code_parse_error}
use mcp_module.Protocol.Codec.{encode_response, decode_request}
use mcp_module.Server.Tables.{Tables}
use mcp_module.Server.Dispatch.{Reaction, reply, silent, panicked, handle_request}

-- A line of the input: no byte, no JSON, or a document.
pub data Input : Type 0 where
  blank malformed : Input
  document : Value → Input

-- What a round finds: the context is done, with its error; the scanner fails; or a line.
pub data Round : Type 0 where
  cancelled scan_failed : String → Round
  line : Input → Round

-- How Serve ends: it returns nil or an error, or the dispatch panics.
pub data Ending : Type 0 where
  returned : Option String → Ending
  crashed : Ending

-- The documents that are written, one per line.
pub record Served (W : Type 0) : Type 0 where
  pub world : W
  pub written : List Value
  pub ending : Ending

-- The answer to a line that json.Unmarshal refuses; the document is given where there is one.
unfoldable pub parse_failure : Runtime → Option Value → Response
parse_failure go v =
    new_error_response absent code_parse_error "invalid JSON" (string (go.unmarshal_error v))

abbrev pub one_line : Option Value → List Value
one_line none = []
one_line (some v) = v ∷ []

-- A response that cannot be marshalled is dropped.
unfoldable pub write_response : Response → List Value
write_response r = one_line (encode_response r)

module _ {W : Type 0} (go : Runtime) (translator : Translator) (s : Tables W) where
  unfoldable pub on_request : Value → Option Request → W → W × Reaction
  on_request v none w = (w, reply (parse_failure go (some v)))
  on_request v (some req) w = handle_request go translator req s w

  unfoldable pub on_line : Input → W → W × Reaction
  unfolding on_request
  on_line blank w = (w, silent)
  on_line malformed w = (w, reply (parse_failure go none))
  on_line (document v) w = on_request v (decode_request go v) w

  -- What becomes of a reaction, given the world after it and what the later rounds give: they are
  -- reached unless it is a panic.
  unfoldable pub finish : Reaction → W → Served W → Served W
  finish panicked w later = record { world = w; written = []; ending = crashed }
  finish silent w later = later
  finish (reply r) w later = record later { written = write_response r ++ later.written }

  unfoldable pub serve : List Round → W → Served W
  serve [] w = record { world = w; written = []; ending = returned none }
  serve (cancelled m ∷ _) w = record { world = w; written = []; ending = returned (some m) }
  serve (scan_failed m ∷ _) w = record {
    world = w;
    written = [];
    ending = returned (some (String.◌++◌ "scanner error: " m));
  }
  serve (line l ∷ rest) w = let (w', reaction) = on_line l w in finish reaction w' (serve rest w')
