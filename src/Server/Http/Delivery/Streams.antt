-- ===== src/Server/Http/Delivery/Streams.antt =====
-- The stream of an SSE client grows by the pieces that a course of events adds.
use mcp_module.Common.{
  ℕ, String, false, Option, none, some, List, ◌++◌, Dict, lookup, lookup-insert, lookup-delete,
  lookup-map_values, ◌≡◌, ◌≢◌, refl, sym, ap, subst, ◌∙◌, eq_iff, eq_refl, ◌==◌, ◌>>=◌, Bool-cases,
  Option-cases, inl, inr,
}
use mathlib.Core.List.{append-nil, append_assoc}
use mcp_module.Json.{Runtime, Value}
use mcp_module.I18n.{Translator}
use mcp_module.Protocol.{Request, Response, jsonrpc_version}
use mcp_module.Protocol.Codec.{decode_request}
use mcp_module.Server.Dispatch.{Reaction, reply, silent, panicked, handle_request}
use mcp_module.Server.Http.{Syntax, SseClient, HttpServer}
use mcp_module.Server.Http.Message.{
  append_text, message_frame, written, send_all, broadcast_to_sse, send_reply, finish_message,
  handle_decoded, handle_read, handle_document, handle_body, handle_message, read_body,
}
use mcp_module.Server.Http.Sse.{connect, beat, beat_at, disconnect, heartbeat}
use mcp_module.Server.Http.Connections.{
  Event, posts, joins, ticks, leaves, posted, after_event, MayHappen,
}
use mcp_module.Server.Http.Delivery.{
  Piece, texts_of, texts_of-append, messages, reply_of, reply_to, reply_line, piece_for, Course,
  stay, then_event,
}

abbrev sent : {W : Type 0} → Option (List ℕ) → HttpServer W → Dict SseClient
sent o s = send_all o s.clients

module _ {W : Type 0} (go : Runtime) (text : Syntax) (translator : Translator) (s : HttpServer W)
    (w : W) where
  send_reply-clients :
      (w' : W) (r : Response)
      → (send_reply go text translator s w' r (written text r)).0.clients ≡ sent (written text r) s
  unfolding send_reply broadcast_to_sse send_all
  send_reply-clients w' r = elim (Option-cases (written text r)) [
    | inl failed ↦ rw (failed, send_reply) refl
    | inr (line, e) ↦ rw (e, send_reply) (rw e refl)
  ]

  finish_message-clients :
      (x : W × Reaction)
      → (finish_message go text translator s x).0.clients ≡ sent (reply_of x.1 >>= written text) s
  unfolding finish_message send_all
  finish_message-clients (w', panicked) = refl
  finish_message-clients (w', silent) = refl
  finish_message-clients (w', reply r) = send_reply-clients w' r

  handle_decoded-clients :
      (req : Request)
      → (handle_decoded go text translator s w req).0.clients
        ≡ sent (reply_to go text translator s w req) s
  unfolding handle_decoded reply_to send_all
  handle_decoded-clients req = elim (Bool-cases (req.jsonrpc == jsonrpc_version)) [
    | inl same ↦ rw same (finish_message-clients (handle_request go translator req s.tables w))
    | inr other ↦ rw other refl
  ]

  handle_read-clients :
      (v : Value) (o : Option Request)
      → (handle_read go text translator s w v o).0.clients
        ≡ sent (o >>= reply_to go text translator s w) s
  unfolding handle_read send_all
  handle_read-clients v none = refl
  handle_read-clients v (some req) = handle_decoded-clients req

  handle_document-clients :
      (o : Option Value)
      → (handle_document go text translator s w o).0.clients
        ≡ sent (o >>= λ v. decode_request go v >>= reply_to go text translator s w) s
  unfolding handle_document send_all
  handle_document-clients none = refl
  handle_document-clients (some v) = handle_read-clients v (decode_request go v)

  handle_body-clients :
      (o : Option (List ℕ))
      → (handle_body go text translator s w o).0.clients
        ≡ sent
            (o >>= λ bytes.
              text.parse bytes >>= λ v. decode_request go v >>= reply_to go text translator s w)
            s
  unfolding handle_body send_all
  handle_body-clients none = refl
  handle_body-clients (some bytes) = handle_document-clients (text.parse bytes)

  pub handle_message-clients :
      (method : String) (body : Option (List ℕ))
      → (handle_message go text translator s w method body).0.clients
        ≡ sent (reply_line go text translator s w method body) s
  unfolding handle_message reply_line send_all
  handle_message-clients method body = elim (Bool-cases (method == "POST")) [
    | inl post ↦ rw post (handle_body-clients (read_body s.config.max_request_size body))
    | inr other ↦ rw other refl
  ]

-- The client `id` is connected, and this is its stream.
abbrev pub Holds : {W : Type 0} → String → HttpServer W × W → List ℕ → Type 0
Holds id c stream =
    (client : SseClient) × (lookup id c.0.clients ≡ some client) × (client.stream ≡ stream)

module _ (id : String) (m : Dict SseClient) (client : SseClient)
    (found : lookup id m ≡ some client) where
  sent-Holds :
      (o : Option (List ℕ))
      → (client' : SseClient) × (lookup id (send_all o m) ≡ some client')
        × (client'.stream ≡ client.stream ++ texts_of (messages o))
  unfolding send_all
  sent-Holds none = (client, found, sym (append-nil client.stream))
  sent-Holds (some line) = (
    append_text (message_frame line) client,
    lookup-map_values (append_text (message_frame line)) id m client found,
    ap (λ t. client.stream ++ t) (sym (append-nil (message_frame line))),
  )

module _ {W : Type 0} (id : String) (s : HttpServer W) (client : SseClient)
    (found : lookup id s.clients ≡ some client) where
  connect-found :
      (j : String) (host : List ℕ)
      → lookup j s.clients ≡ none
      → lookup id (connect j host s).clients ≡ some client
  unfolding connect
  connect-found j host fresh = elim (Bool-cases (j == id)) [
    | inl same ↦
        let e : j ≡ id = (eq_iff j id).0 same in
        let both : lookup id s.clients ≡ none = subst (λ k. lookup k s.clients ≡ none) e fresh in cc
    | inr other ↦ lookup-insert j id _ s.clients ∙ rw other found
  ]

  beat_self : lookup id (beat id s).clients ≡ some (append_text heartbeat client)
  unfolding beat beat_at
  beat_self = rw (found, beat_at) (lookup-insert id id _ s.clients ∙ rw (eq_refl id) refl)

  beat_at-other :
      (j : String) (o : Option SseClient)
      → (j == id) ≡ false
      → lookup id (beat_at j s o).clients ≡ some client
  unfolding beat_at
  beat_at-other j none other = found
  beat_at-other j (some c) other = lookup-insert j id _ s.clients ∙ rw other found

  disconnect-found :
      (j : String) → (j == id) ≡ false → lookup id (disconnect j s).clients ≡ some client
  unfolding disconnect
  disconnect-found j other = lookup-delete j id s.clients ∙ rw other found

leaves_other : {id j : String} → leaves j ≢ leaves id → (j == id) ≡ false
leaves_other {id} {j} stays = elim (Bool-cases (j == id)) [
  | inl same ↦ absurd (stays (ap leaves ((eq_iff j id).0 same)))
  | inr other ↦ other
]

module _ {W : Type 0} (go : Runtime) (text : Syntax) (translator : Translator) (id : String) where
  ticks-Holds :
      (j : String) (s : HttpServer W) (w : W) (stream : List ℕ)
      → Holds id (s, w) stream
      → Holds id
          (beat j s, w)
          (stream ++ texts_of (piece_for go text translator id (ticks j) (s, w)))
  unfolding piece_for beat
  ticks-Holds j s w stream (client, found, e) = elim (Bool-cases (j == id)) [
    | inl same ↦ rw same (
        rw ((eq_iff j id).0 same) (
          append_text heartbeat client,
          beat_self id s client found,
          ap (λ t. t ++ heartbeat) e ∙ ap (λ t. stream ++ t) (sym (append-nil heartbeat)),
        ))
    | inr other ↦ rw other (
      client,
      beat_at-other id s client found j (lookup j s.clients) other,
      e ∙ sym (append-nil stream),
    )
  ]

  after_event-Holds :
      (e : Event) (c : HttpServer W × W) (stream : List ℕ)
      → MayHappen go text translator e c.0
      → e ≢ leaves id
      → Holds id c stream
      → Holds id
          (after_event go text translator e c)
          (stream ++ texts_of (piece_for go text translator id e c))
  unfolding after_event posted piece_for
  after_event-Holds (posts method body) (s, w) stream _ _ (client, found, e) =
      let (client', found', e') =
        sent-Holds id s.clients client found (reply_line go text translator s w method body) in
      (
        client',
        ap (lookup id) (handle_message-clients go text translator s w method body) ∙ found',
        e' ∙ ap (λ t. t ++ texts_of (messages (reply_line go text translator s w method body))) e,
      )
  after_event-Holds (joins j host) (s, w) stream fresh _ (client, found, e) =
      (client, connect-found id s client found j host fresh, e ∙ sym (append-nil stream))
  after_event-Holds (ticks j) (s, w) stream _ _ h = ticks-Holds j s w stream h
  after_event-Holds (leaves j) (s, w) stream _ stays (client, found, e) = (
    client,
    disconnect-found id s client found j (leaves_other stays),
    e ∙ sym (append-nil stream),
  )

  -- While a client is connected, its stream grows by the document of every response that is given to
  -- a posted request, and by its own heartbeats, in their order, and by nothing else.
  pub Course-Holds :
      {c c' : HttpServer W × W} {ps : List Piece} (stream : List ℕ)
      → Course go text translator id c ps c'
      → Holds id c stream
      → Holds id c' (stream ++ texts_of ps)
  Course-Holds stream stay (client, found, e) = (client, found, e ∙ sym (append-nil stream))
  Course-Holds {c} {c'} stream (then_event {ps} e may stays course) h =
      let mine = piece_for go text translator id e c in
      let (client, found, same) =
        Course-Holds (stream ++ texts_of mine) course (after_event-Holds e c stream may stays h) in
      (
        client,
        found,
        same
            ∙ append_assoc stream (texts_of mine) (texts_of ps)
            ∙ ap (λ t. stream ++ t) (sym (texts_of-append mine ps)),
      )
