-- ===== src/Client/Sse/Events.antt =====
-- pkg/client/http_client.go: handleSSEEvent, with the client's goroutine running alone.
use mcp_module.Common.{
  ℕ, Bool, true, false, ◌||◌, ◌&&◌, Option, none, some, List, [], ◌∷◌, codes, nat_eq, if◌then◌else◌,
  ◌>>=◌,
}
use mcp_module.Json.{Runtime}
use mcp_module.Protocol.{Response}
use mcp_module.Protocol.Codec.{decode_response}
use mcp_module.Server.Http.{Syntax}
use mcp_module.Client.Sse.{SseEvent}
use mcp_module.Client.Transport.{
  Reader, reading, ended, holding, crashed, Connection, on_response, deliver,
}

-- HTTPClient: the address for its messages, and its pending requests with their reader.
pub record HttpClient : Type 0 where
  pub endpoint : List ℕ
  pub connection : Connection

unfoldable pub same_text : List ℕ → List ℕ → Bool
same_text [] [] = true
same_text [] (_ ∷ _) = false
same_text (_ ∷ _) [] = false
same_text (a ∷ xs) (b ∷ ys) = nat_eq a b && same_text xs ys

-- What an event says: a new address, a response, or nothing.
pub data Seen : Type 0 where
  moved : List ℕ → Seen
  brought : Response → Seen
  skipped : Seen

unfoldable pub seen_response : Option Response → Seen
seen_response none = skipped
seen_response (some r) = brought r

unfoldable pub seen : Runtime → Syntax → SseEvent → Seen
unfolding same_text seen_response
seen go text e =
    if same_text e.event_type (codes "endpoint")
    then moved e.payload
    else if same_text e.event_type (codes "message") || same_text e.event_type []
    then seen_response (text.parse e.payload >>= decode_response go)
    else skipped

-- The send, where the lookup has found a channel.
unfoldable pub send_held : Reader → Connection → Connection
send_held reading c = c
send_held ended c = c
send_held (holding n r) c = deliver n r c
send_held (crashed _) c = c

unfoldable pub handle_seen : Runtime → Seen → HttpClient → HttpClient
unfolding send_held
handle_seen go (moved address) c = record c { endpoint = address }
handle_seen go (brought r) c =
    let d = on_response go r c.connection in record c { connection = send_held d.reader d }
handle_seen go skipped c = c

unfoldable pub handle_sse_event : Runtime → Syntax → SseEvent → HttpClient → HttpClient
unfolding handle_seen seen
handle_sse_event go text e c = handle_seen go (seen go text e) c

abbrev pub is_reading : Reader → Bool
is_reading reading = true
is_reading ended = false
is_reading (holding _ _) = false
is_reading (crashed _) = false

-- The events in turn, as long as the reader has not panicked.
unfoldable pub handle_events : Runtime → Syntax → List SseEvent → HttpClient → HttpClient
unfolding handle_sse_event
handle_events go text [] c = c
handle_events go text (e ∷ es) c =
    let rest = handle_events go text es (handle_sse_event go text e c) in
    if is_reading c.connection.reader then rest else c
