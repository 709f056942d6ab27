-- ===== src/Server/Http/Connections.antt =====
-- The SSE clients of an HTTPServer over any course of requests, connections and disconnections. Each
-- event is one step: the handlers share the map of clients under its lock.
use mcp_module.Common.{
  ℕ, ◌^◌, ◌%◌, String, Option, none, some, List, lookup, length, IsDict, insert-IsDict,
  delete-IsDict, map_values-IsDict, length-map_values, length-insert_absent, length-insert_bound,
  length-delete_bound, ◌≡◌, ◌≢◌, refl, arith, Bool-cases, ◌==◌, inl, inr,
}
use mcp_module.Json.{Runtime, Value}
use mcp_module.I18n.{Translator}
use mcp_module.Protocol.{Request, Response, jsonrpc_version}
use mcp_module.Server.Dispatch.{Reaction, reply, silent, panicked, handle_request}
use mcp_module.Protocol.Codec.{decode_request}
use mcp_module.Server.Tables.{Tables}
use mcp_module.Server.Http.{Syntax, SseClient, HttpServerConfig, HttpServer, new_http_server}
use mcp_module.Server.Http.Message.{
  append_text, message_frame, send_all, broadcast_to_sse, written, finish_message, handle_decoded,
  handle_read, handle_document, send_reply, read_body, handle_body, handle_message,
}
use mcp_module.Server.Http.Sse.{connect, beat, beat_at, disconnect}

-- What happens to the server: a message is posted, a client is let in, its heartbeat ticks, or its
-- request ends.
pub data Event : Type 0 where
  posts : (method : String) (body : Option (List ℕ)) → Event
  joins : (id : String) (host : List ℕ) → Event
  ticks leaves : (id : String) → Event

module _ {W : Type 0} (go : Runtime) (text : Syntax) (translator : Translator) where
  unfoldable pub posted : String → Option (List ℕ) → HttpServer W × W → HttpServer W × W
  posted method body (s, w) =
      let (s', w', _) = handle_message go text translator s w method body in (s', w')

  unfoldable pub after_event : Event → HttpServer W × W → HttpServer W × W
  unfolding posted
  after_event (posts method body) c = posted method body c
  after_event (joins id host) (s, w) = (connect id host s, w)
  after_event (ticks id) (s, w) = (beat id s, w)
  after_event (leaves id) (s, w) = (disconnect id s, w)

  -- uuid.New draws an id that is not in use; only a client that is let in ticks and leaves.
  abbrev pub MayHappen : Event → HttpServer W → Type 0
  MayHappen (posts _ _) s = Unit
  MayHappen (joins id _) s = lookup id s.clients ≡ none
  MayHappen (ticks id) s = lookup id s.clients ≢ none
  MayHappen (leaves id) s = lookup id s.clients ≢ none

  -- The states that a new server with some entries may come to.
  pub data Reach : HttpServer W × W → Type 0 where
    created :
        (name version : String) (config : HttpServerConfig) (tables : Tables W) (w : W)
        → Reach (record (new_http_server name version config) { tables = tables }, w)
    happened :
        {c : HttpServer W × W} (e : Event) → Reach c → MayHappen e c.0 → Reach (after_event e c)

-- Each client is connected once, and the counter is their number.
pub record IsCounted {W : Type 0} (s : HttpServer W) : Type 0 where
  pub is_dict : IsDict s.clients
  pub counted : s.active_conns ≡ length s.clients % 2 ^ 64

module _ {W : Type 0} where
  connect-IsCounted :
      (id : String) (host : List ℕ) (s : HttpServer W)
      → lookup id s.clients ≡ none
      → IsCounted s
      → IsCounted (connect id host s)
  unfolding connect
  connect-IsCounted id host s fresh h = record {
    is_dict = insert-IsDict id _ s.clients h.is_dict;
    counted = omega (arith, h.counted, length-insert_absent id _ s.clients fresh);
  }

  beat_at-IsCounted :
      (id : String) (s : HttpServer W) (o : Option SseClient)
      → lookup id s.clients ≡ o
      → IsCounted s
      → IsCounted (beat_at id s o)
  unfolding beat_at
  beat_at-IsCounted id s none e h = h
  beat_at-IsCounted id s (some c) e h = record {
    is_dict = insert-IsDict id _ s.clients h.is_dict;
    counted = omega (arith, h.counted, length-insert_bound id _ s.clients (λ x. cc));
  }

  beat-IsCounted : (id : String) (s : HttpServer W) → IsCounted s → IsCounted (beat id s)
  unfolding beat
  beat-IsCounted id s h = beat_at-IsCounted id s (lookup id s.clients) refl h

  disconnect-IsCounted :
      (id : String) (s : HttpServer W)
      → lookup id s.clients ≢ none
      → IsCounted s
      → IsCounted (disconnect id s)
  unfolding disconnect
  disconnect-IsCounted id s there h = record {
    is_dict = delete-IsDict id s.clients h.is_dict;
    counted = omega (arith, h.counted, length-delete_bound id s.clients h.is_dict there);
  }

  send_all-IsCounted :
      (o : Option (List ℕ)) (s : HttpServer W)
      → IsCounted s
      → IsCounted (record s { clients = send_all o s.clients })
  unfolding send_all
  send_all-IsCounted none s h = h
  send_all-IsCounted (some line) s h = record {
    is_dict = map_values-IsDict _ s.clients h.is_dict;
    counted =
        omega (arith, h.counted, length-map_values (append_text (message_frame line)) s.clients);
  }

-- Of the server, a message changes the streams at most.
module _ {W : Type 0} (go : Runtime) (text : Syntax) (translator : Translator) (s : HttpServer W)
    (h : IsCounted s) where
  send_reply-IsCounted :
      (w : W) (r : Response) (o : Option (List ℕ))
      → IsCounted (send_reply go text translator s w r o).0
  unfolding send_reply broadcast_to_sse
  send_reply-IsCounted w r none = h
  send_reply-IsCounted w r (some line) = send_all-IsCounted (written text r) s h

  finish_message-IsCounted :
      (x : W × Reaction) → IsCounted (finish_message go text translator s x).0
  unfolding finish_message
  finish_message-IsCounted (w, panicked) = h
  finish_message-IsCounted (w, silent) = h
  finish_message-IsCounted (w, reply r) = send_reply-IsCounted w r (written text r)

  handle_decoded-IsCounted :
      (w : W) (req : Request) → IsCounted (handle_decoded go text translator s w req).0
  unfolding handle_decoded
  handle_decoded-IsCounted w req = elim (Bool-cases (req.jsonrpc == jsonrpc_version)) [
    | inl same ↦ rw same (finish_message-IsCounted (handle_request go translator req s.tables w))
    | inr other ↦ rw other h
  ]

  handle_read-IsCounted :
      (w : W) (v : Value) (o : Option Request)
      → IsCounted (handle_read go text translator s w v o).0
  unfolding handle_read
  handle_read-IsCounted w v none = h
  handle_read-IsCounted w v (some req) = handle_decoded-IsCounted w req

  handle_document-IsCounted :
      (w : W) (o : Option Value) → IsCounted (handle_document go text translator s w o).0
  unfolding handle_document
  handle_document-IsCounted w none = h
  handle_document-IsCounted w (some v) = handle_read-IsCounted w v (decode_request go v)

  handle_body-IsCounted :
      (w : W) (o : Option (List ℕ)) → IsCounted (handle_body go text translator s w o).0
  unfolding handle_body
  handle_body-IsCounted w none = h
  handle_body-IsCounted w (some body) = handle_document-IsCounted w (text.parse body)

  handle_message-IsCounted :
      (w : W) (method : String) (body : Option (List ℕ))
      → IsCounted (handle_message go text translator s w method body).0
  unfolding handle_message
  handle_message-IsCounted w method body = elim (Bool-cases (method == "POST")) [
    | inl post ↦ rw post (handle_body-IsCounted w (read_body s.config.max_request_size body))
    | inr other ↦ rw other h
  ]

module _ {W : Type 0} (go : Runtime) (text : Syntax) (translator : Translator) where
  after_event-IsCounted :
      (e : Event) (c : HttpServer W × W)
      → MayHappen go text translator e c.0
      → IsCounted c.0
      → IsCounted (after_event go text translator e c).0
  unfolding after_event posted
  after_event-IsCounted (posts method body) (s, w) _ h =
      handle_message-IsCounted go text translator s h w method body
  after_event-IsCounted (joins id host) (s, w) fresh h = connect-IsCounted id host s fresh h
  after_event-IsCounted (ticks id) (s, w) there h = beat-IsCounted id s h
  after_event-IsCounted (leaves id) (s, w) there h = disconnect-IsCounted id s there h

  -- In every state that the server may come to, by messages, connections, heartbeats and
  -- disconnections in any order, each client is in the map once, and the counter of active
  -- connections is the number of clients modulo 2^64.
  pub Reach-IsCounted : {c : HttpServer W × W} → Reach go text translator c → IsCounted c.0
  unfolding new_http_server
  Reach-IsCounted (created name version config tables w) = record {
    is_dict = tt;
    counted = omega arith;
  }
  Reach-IsCounted (happened {c} e r may) = after_event-IsCounted e c may (Reach-IsCounted r)
