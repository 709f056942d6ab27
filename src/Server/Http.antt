-- ===== src/Server/Http.antt =====
-- pkg/server/http_server.go: HTTPServer. A connection of an SSE client is a record of what has been
-- written to it; the text of a JSON document is encoding/json's, and comes with the parameter Syntax.
pub mod Message
pub mod Sse
pub mod Connections
pub mod Replies
pub mod Parity
pub mod Delivery
use mcp_module.Common.{
  ℕ, ◌+◌, ◌*◌, ◌-◌, ◌^◌, ◌%◌, String, Option, none, some, List, [], ◌∷◌, ◌++◌, Dict, length, codes,
  ltb, if◌then◌else◌,
}
use mcp_module.Common.Int.{ℤ, pos, negsuc}
use mcp_module.Json.{Value, str, int, object}
use mcp_module.Server.Tables.{Tables, new_tables}

-- How encoding/json writes a document, and reads one; `none` is a syntax error.
pub record Syntax : Type 0 where
  pub render : Value → List ℕ
  pub parse : List ℕ → Option Value

-- Durations are numbers of nanoseconds.
pub record HttpServerConfig : Type 0 where
  pub address : String
  pub read_timeout : ℕ
  pub write_timeout : ℕ
  pub max_request_size : ℤ
  pub heartbeat_interval : ℕ

unfoldable pub default_http_server_config : HttpServerConfig
default_http_server_config = record {
  address = ":8080";
  read_timeout = 30 * 1_000_000_000;
  write_timeout = 60 * 1_000_000_000;
  max_request_size = pos (10 * 1024 * 1024);
  heartbeat_interval = 30 * 1_000_000_000;
}

-- sseClient: its id, and the bytes that have been written to its writer.
pub record SseClient : Type 0 where
  pub id : String
  pub stream : List ℕ

-- `active_conns` is an int64, by its bits.
pub record HttpServer (W : Type 0) : Type 0 where
  pub tables : Tables W
  pub config : HttpServerConfig
  pub clients : Dict SseClient
  pub active_conns : ℕ

abbrev pub add_one : ℕ → ℕ
add_one bits = (bits + 1) % 2 ^ 64

abbrev pub sub_one : ℕ → ℕ
sub_one bits = (bits + (2 ^ 64 - 1)) % 2 ^ 64

-- The integer that the bits of an int64 stand for.
unfoldable pub signed : ℕ → ℤ
signed bits = if ltb bits (2 ^ 63) then pos bits else negsuc (2 ^ 64 - 1 - bits)

-- NewHTTPServer; its routes are the functions below.
unfoldable pub new_http_server : {W : Type 0} → String → String → HttpServerConfig → HttpServer W
new_http_server name version config = record {
  tables = new_tables name version;
  config = config;
  clients = [];
  active_conns = 0;
}

-- What a handler writes: the status, the content type that it sets, and the body.
pub record HttpResponse : Type 0 where
  pub status : ℕ
  pub content_type : Option String
  pub body : List ℕ

-- http.Error.
unfoldable pub http_error : String → ℕ → HttpResponse
http_error message status = record {
  status = status;
  content_type = some "text/plain; charset=utf-8";
  body = codes message ++ b'\n' ∷ [];
}

unfoldable pub json_response : List ℕ → HttpResponse
json_response body = record { status = 200; content_type = some "application/json"; body = body }

-- The document of handleHealth; encoding/json sorts the keys of a map.
unfoldable pub health_of : {W : Type 0} → HttpServer W → Value
unfolding signed
health_of s = object (
    ("active_connections", int (signed s.active_conns))
    ∷ ("prompts", int (pos (length s.tables.prompts)))
    ∷ ("resources", int (pos (length s.tables.resources)))
    ∷ ("server", str s.tables.info.name)
    ∷ ("status", str "healthy")
    ∷ ("tools", int (pos (length s.tables.tools)))
    ∷ ("version", str s.tables.info.version)
    ∷ [])

-- handleHealth: json.Encoder ends the document with a newline.
unfoldable pub handle_health : {W : Type 0} → Syntax → HttpServer W → HttpResponse
unfolding json_response health_of
handle_health text s = json_response (text.render (health_of s) ++ b'\n' ∷ [])
