-- ===== src/Tests/Exchanges.antt =====
-- A request of an HTTP client that a server answers over its stream.
use mathlib.Core.List.{filter_map}
use mcp_module.Range.{range}
use mcp_module.Common.{
  traverse, keys, Bool, false, ℕ, none, some, List, [], ◌∷◌, codes, nat_eq, lookup, insert,
  if◌then◌else◌, ◌==◌, refl, arith, ◌≡◌,
}
use mcp_module.Common.Int.{pos}
use mcp_module.Json.{
  Value, obj, member, end, int, str, object, members, items, fields, marshal, part,
}
use mcp_module.I18n.{noop_translator}
use mcp_module.Protocol.{Response, new_response}
use mcp_module.Protocol.Codec.{encode_request, encode_response, encode_pointer}
use mcp_module.Server.Tables.{new_tables}
use mcp_module.Server.Dispatch.{
  list_field, respond, handle_request, dispatch, method_of, handle_list_tools,
}
use mcp_module.Server.Http.{
  Syntax, SseClient, HttpServer, default_http_server_config, new_http_server,
}
use mcp_module.Server.Http.Message.{append_text, message_frame, handle_message}
use mcp_module.Server.Http.Sse.{connect, prologue}
use mcp_module.Client.Config.{http}
use mcp_module.Client.Remote.{wire_id}
use mcp_module.Client.Sse.{read_events, scan_lines}
use mcp_module.Client.Sse.Events.{HttpClient, handle_events}
use mcp_module.Client.Sse.Exchanges.{http_exchange}
use mcp_module.Client.Transport.{Connection, new_connection, register, take, answered}
use mcp_module.Client.Transport.Steps.{Step}
use mcp_module.Tests.Sample.{go}

abbrev request : Value
request = object (("jsonrpc", str "2.0") ∷ ("id", int (pos 1)) ∷ ("method", str "tools/list") ∷ [])

abbrev response : Value
response =
    object (("jsonrpc", str "2.0") ∷ ("id", int (pos 1)) ∷ ("result", list_field "tools" []) ∷ [])

-- Two documents can be written: a request as "q", a response as "a".
unfoldable render : Value → List ℕ
render (obj (member _ _ (member _ _ (member k _ end)))) =
    if k == "method" then codes "q" else codes "a"
render _ = []

unfoldable is_q : List ℕ → Bool
is_q [] = false
is_q (c ∷ _) = nat_eq c b'q'

abbrev text : Syntax
text = record { render = render; parse = λ line. some (if is_q line then request else response) }

abbrev server : HttpServer ℕ
server = connect "a" (codes "localhost") (new_http_server "demo" "1.0.0" default_http_server_config)

abbrev listener : SseClient
listener = record { id = "a"; stream = prologue "a" (codes "localhost") }

abbrev client : HttpClient
client = record { endpoint = codes "http://localhost/message"; connection = new_connection }

abbrev answer : Response
answer = respond go (wire_id 1) (some (list_field "tools" []))

http_exchange_example :
    (lookup "a"
        (handle_message go text noop_translator server 0 "POST"
          (some (text.render request))).0.clients
      ≡ some (append_text (message_frame (text.render response)) listener))
    × (d : Connection) × (handle_events go text
          (read_events (scan_lines [] (message_frame (text.render response))) [] [])
          (record client { connection = register new_connection })
        ≡ record client { connection = d })
    × Step go http d (take 1 answer d)
    × ((take 1 answer d).caller 1 ≡ answered answer)
unfolding new_connection lookup connect insert new_http_server encode_request marshal part is_q
    render members default_http_server_config handle_request dispatch method_of handle_list_tools
    respond new_response encode_response encode_pointer new_tables traverse range filter_map keys
    list_field items fields
http_exchange_example =
    http_exchange go text noop_translator server 0 "a" listener client "tools/list" none request
      response (record { nearest_same = refl; in_range = refl }) refl refl refl refl refl refl refl
      tt refl refl (omega arith, omega arith)
