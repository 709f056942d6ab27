-- ===== src/Client/Sse/Exchanges.antt =====
-- A request of the HTTP client and its response, by way of the HTTP server's handler and stream.
use mcp_module.Common.{
  if◌then◌else◌, ◌==◌, eq_refl, lookup-map_values, ℕ, ◌+◌, String, true, false, Option, some, List,
  [], ◌∷◌, codes, lookup, arith, refl, sym, ap, ◌∙◌, ◌≡◌, ◌>>=◌, subst,
}
use mcp_module.Common.Int.{pos}
use mcp_module.Json.{Value, int64, Runtime}
use mcp_module.I18n.{Translator}
use mcp_module.Protocol.{Request, Response, jsonrpc_version}
use mcp_module.Protocol.Codec.{encode_request, decode_request, encode_response, decode_response}
use mcp_module.Protocol.Codec.Messages.{Survives, PointerSurvives, decode-encode_response}
use mathlib.Core.List.{append-nil}
use mcp_module.Client.Config.{http}
use mcp_module.Client.Exchange.{IsExact}
use mcp_module.Client.Remote.{wire_id, arrived, wire_id-Survives, request_arrives}
use mcp_module.Server.Dispatch.{reply, handle_request}
use mcp_module.Server.Http.{Syntax, SseClient, HttpServer}
use mcp_module.Server.Http.Message.{
  message_frame, append_text, written, send_all, read_body, is_too_large, handle_message,
}
use mcp_module.Server.Http.Delivery.{reply_to, reply_line}
use mcp_module.Server.Http.Delivery.Streams.{handle_message-clients}
use mcp_module.Client.Sse.{SseEvent, read_events, scan_lines}
use mcp_module.Client.Sse.Streams.{IsShort, frame_read}
use mcp_module.Client.Sse.Events.{
  HttpClient, brought, seen, same_text, seen_response, handle_seen, handle_sse_event, handle_events,
  is_reading,
}
use mcp_module.Client.Transport.{Connection, reading, answered, register, take}
use mcp_module.Client.Transport.Steps.{Step}
use mcp_module.Client.Transport.Waking.{take-caller}
use mcp_module.Client.Sse.Returns.{filled, handled, returns}

module _ {W : Type 0} (go : Runtime) (text : Syntax) (translator : Translator) (s : HttpServer W)
    (w : W) where
  decoded_reply :
      (req : Request) {w' : W} {r : Response} {u : Value}
      → req.jsonrpc ≡ jsonrpc_version
      → handle_request go translator req s.tables w ≡ (w', reply r)
      → encode_response r ≡ some u
      → reply_to go text translator s w req ≡ some (text.render u)
  unfolding reply_to written
  decoded_reply req v h e =
      let current : (req.jsonrpc == jsonrpc_version) ≡ true =
        ap (λ x. x == jsonrpc_version) v ∙ eq_refl jsonrpc_version in
      rw current (rw h (rw (e, written) refl))

  posted_reply :
      (v : Value) (req : Request) {line : List ℕ}
      → is_too_large s.config.max_request_size (text.render v) ≡ false
      → text.parse (text.render v) ≡ some v
      → decode_request go v ≡ some req
      → reply_to go text translator s w req ≡ some line
      → reply_line go text translator s w "POST" (some (text.render v)) ≡ some line
  unfolding reply_line read_body
  posted_reply v req small parses decodes replies = rw small (rw parses (rw decodes replies))

  told :
      (id : String) (client : SseClient) (body : Option (List ℕ)) (line : List ℕ)
      → lookup id s.clients ≡ some client
      → reply_line go text translator s w "POST" body ≡ some line
      → lookup id (handle_message go text translator s w "POST" body).0.clients
        ≡ some (append_text (message_frame line) client)
  unfolding send_all
  told id client body line found line_is =
      ap (lookup id) (handle_message-clients go text translator s w "POST" body)
      ∙ rw line_is (lookup-map_values (append_text (message_frame line)) id s.clients client found)

module _ (go : Runtime) (text : Syntax) (r : Response) {u : Value} where
  -- The text of a response is read as one event, which brings that response.
  message_seen :
      encode_response r ≡ some u
      → Survives go r.id
      → PointerSurvives go r.error
      → text.parse (text.render u) ≡ some u
      → seen go text (record { event_type = codes "message"; payload = text.render u }) ≡ brought r
  unfolding seen same_text seen_response
  message_seen e k q parses = rw parses (
      ap seen_response
        (sym (ap (λ o. o >>= decode_response go) e) ∙ decode-encode_response go r k q))

  message_read :
      IsShort (text.render u)
      → read_events (scan_lines [] (message_frame (text.render u))) [] []
        ≡ record { event_type = codes "message"; payload = text.render u } ∷ []
  unfolding scan_lines read_events
  message_read short =
      ap (λ t. read_events (scan_lines [] t) [] [])
        (sym (append-nil (message_frame (text.render u))))
      ∙ frame_read (codes "message") (text.render u) [] (omega arith, omega arith) short []

registered : (c : Connection) → c.reader ≡ reading → (register c).reader ≡ reading
unfolding register
registered c e = e

handle_one :
    (go : Runtime) (text : Syntax) (e : SseEvent) (c : HttpClient)
    → c.connection.reader ≡ reading
    → handle_events go text (e ∷ []) c ≡ handle_seen go (seen go text e) c
unfolding handle_events handle_sse_event
handle_one go text e c h = ap (λ x. if is_reading x then handle_seen go (seen go text e) c else c) h

-- A call of the HTTP client whose request is posted gets its response by the stream: the server adds
-- the response to the client's stream, the client's reader, which reads what has been added, puts it
-- into the channel of the call, and the next step of the call returns it. It holds where the client
-- is connected and its reader reads, the number of the call is exact as a float64, the texts of the
-- two documents are read as they were written, the request is not over the server's limit and the
-- response not too long for a line of 64 KB, and the server gives a response that repeats the id and
-- whose error, if any, survives the wire.
pub http_exchange :
    {W : Type 0} (go : Runtime) (text : Syntax) (translator : Translator) (s : HttpServer W) (w : W)
    (id : String) (client : SseClient) (c : HttpClient) (method : String) (params : Option Value)
    (v u : Value) {w' : W} {r : Response}
    → IsExact go (c.connection.count + 1)
    → c.connection.reader ≡ reading
    → lookup id s.clients ≡ some client
    → encode_request (record {
      jsonrpc = jsonrpc_version;
      id = int64 (pos (c.connection.count + 1));
      method = method;
      params = params;
    })
      ≡ some v
    → text.parse (text.render v) ≡ some v
    → is_too_large s.config.max_request_size (text.render v) ≡ false
    → handle_request go translator (arrived (c.connection.count + 1) method params) s.tables w
      ≡ (w', reply r)
    → r.id ≡ wire_id (c.connection.count + 1)
    → PointerSurvives go r.error
    → encode_response r ≡ some u
    → text.parse (text.render u) ≡ some u
    → IsShort (text.render u)
    → (lookup id (handle_message go text translator s w "POST" (some (text.render v))).0.clients
        ≡ some (append_text (message_frame (text.render u)) client))
      × (d : Connection) × (handle_events go text
            (read_events (scan_lines [] (message_frame (text.render u))) [] [])
            (record c { connection = register c.connection })
          ≡ record c { connection = d })
      × Step go http d (take (c.connection.count + 1) r d)
      × ((take (c.connection.count + 1) r d).caller (c.connection.count + 1) ≡ answered r)
http_exchange go text translator s w id client c method params v u {r = r} exact e found wv pv small
      h i q wu pu short =
    let n = c.connection.count + 1 in
    let arrives : decode_request go v ≡ some (arrived n method params) =
      sym (ap (λ o. o >>= decode_request go) wv) ∙ request_arrives go n exact method params in
    let replies =
      posted_reply go text translator s w v (arrived n method params) small pv arrives
        (decoded_reply go text translator s w (arrived n method params) refl h wu) in
    let survives : Survives go r.id = subst (Survives go) (sym i) (wire_id-Survives go n exact) in
    (
      told go text translator s w id client (some (text.render v)) (text.render u) found replies,
      record (filled go c.connection exact r i) { reader = reading },
      ap (λ es. handle_events go text es (record c { connection = register c.connection }))
            (message_read go text r short)
          ∙ handle_one go text _ (record c { connection = register c.connection })
              (registered c.connection e)
          ∙ ap (λ what. handle_seen go what (record c { connection = register c.connection }))
              (message_seen go text r wu survives q pu)
          ∙ handled go c.connection exact r i c.endpoint,
      returns go c.connection exact r i,
      take-caller n r _,
    )
