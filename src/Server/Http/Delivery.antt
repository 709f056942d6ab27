-- ===== src/Server/Http/Delivery.antt =====
-- What any course of events at the server adds to the stream of one SSE client.
pub mod Streams
use mcp_module.Common.{
  ℕ, String, Bool, true, false, Option, none, some, List, [], ◌∷◌, ◌++◌, Dict, lookup, insert,
  lookup-insert, lookup-delete, lookup-map_values, ◌≡◌, ◌≢◌, refl, sym, ap, ◌∙◌, arith, eq_iff,
  eq_refl, ◌==◌, if◌then◌else◌, ◌>>=◌, Bool-cases, Option-cases, inl, inr,
}
use mathlib.Core.List.{append-nil, append_assoc}
use mcp_module.Json.{Runtime, Value}
use mcp_module.I18n.{Translator}
use mcp_module.Protocol.{Request, Response, jsonrpc_version}
use mcp_module.Protocol.Codec.{decode_request}
use mcp_module.Server.Dispatch.{Reaction, reply, silent, panicked, handle_request}
use mcp_module.Server.Http.{Syntax, SseClient, HttpServer}
use mcp_module.Server.Http.Message.{
  append_text, message_frame, written, send_all, broadcast_to_sse, send_reply, finish_message,
  handle_decoded, handle_read, handle_document, handle_body, handle_message, read_body,
}
use mcp_module.Server.Http.Sse.{connect, beat, beat_at, disconnect, heartbeat}
use mcp_module.Server.Http.Connections.{
  Event, posts, joins, ticks, leaves, posted, after_event, MayHappen,
}

-- A piece of a stream: the document of a response, or a heartbeat.
pub data Piece : Type 0 where
  message : List ℕ → Piece
  ping : Piece

abbrev pub text_of : Piece → List ℕ
text_of (message line) = message_frame line
text_of ping = heartbeat

abbrev pub texts_of : List Piece → List ℕ
texts_of [] = []
texts_of (p ∷ ps) = text_of p ++ texts_of ps

pub texts_of-append : (ps qs : List Piece) → texts_of (ps ++ qs) ≡ texts_of ps ++ texts_of qs
texts_of-append [] qs = refl
texts_of-append (p ∷ ps) qs = simp (texts_of-append ps qs, append_assoc)

abbrev pub messages : Option (List ℕ) → List Piece
messages none = []
messages (some line) = message line ∷ []

abbrev pub reply_of : Reaction → Option Response
reply_of (reply r) = some r
reply_of silent = none
reply_of panicked = none

module _ {W : Type 0} (go : Runtime) (text : Syntax) (translator : Translator) where
  -- The document with which a request is answered.
  unfoldable pub reply_to : HttpServer W → W → Request → Option (List ℕ)
  reply_to s w req =
      if req.jsonrpc == jsonrpc_version
      then (reply_of (handle_request go translator req s.tables w).1 >>= written text)
      else none

  -- The document with which a message is answered, if it is a request and has an answer.
  unfoldable pub reply_line : HttpServer W → W → String → Option (List ℕ) → Option (List ℕ)
  unfolding reply_to
  reply_line s w method body =
      if method == "POST"
      then (do
        bytes ← read_body s.config.max_request_size body
        v ← text.parse bytes
        req ← decode_request go v
        reply_to s w req)
      else none

  -- What an event adds to the stream of the client `id`.
  unfoldable pub piece_for : String → Event → HttpServer W × W → List Piece
  unfolding reply_line
  piece_for id (posts method body) (s, w) = messages (reply_line s w method body)
  piece_for id (joins _ _) c = []
  piece_for id (ticks j) c = if j == id then ping ∷ [] else []
  piece_for id (leaves _) c = []

  -- A course of events, in which `id` does not leave, with what it adds to that client's stream.
  pub data Course (id : String) : HttpServer W × W → List Piece → HttpServer W × W → Type 0 where
    stay : {c : HttpServer W × W} → Course id c [] c
    then_event :
        {c c' : HttpServer W × W} {ps : List Piece} (e : Event)
        → MayHappen go text translator e c.0
        → e ≢ leaves id
        → Course id (after_event go text translator e c) ps c'
        → Course id c (piece_for id e c ++ ps) c'
