-- ===== src/Server/Http/Message.antt =====
-- pkg/server/http_server.go: handleMessage, writeError and broadcastToSSE.
use mcp_module.Common.{
  ℕ, String, Bool, Option, none, some, List, [], ◌∷◌, ◌++◌, map_values, Dict, length, codes, ltb,
  if◌then◌else◌, ◌==◌,
}
use mcp_module.Common.Int.{ℤ, pos, negsuc}
use mcp_module.Json.{Value, Any, absent, string, Runtime}
use mcp_module.I18n.{Translator}
use mcp_module.Protocol.{
  Request, Response, jsonrpc_version, new_error_response, code_parse_error, code_invalid_request,
}
use mcp_module.Protocol.Codec.{encode_response, decode_request}
use mcp_module.Server.Dispatch.{Reaction, reply, silent, panicked, handle_request}
use mcp_module.Server.Http.{Syntax, SseClient, HttpServer, HttpResponse, http_error, json_response}

-- The text of an event in a stream: its type, and data of one line.
abbrev pub frame : List ℕ → List ℕ → List ℕ
frame event_type line =
    codes "event: " ++ (event_type ++ b'\n' ∷ (codes "data: " ++ (line ++ b'\n' ∷ b'\n' ∷ [])))

abbrev pub message_frame : List ℕ → List ℕ
message_frame = frame (codes "message")

abbrev pub append_text : List ℕ → SseClient → SseClient
append_text text c = record c { stream = c.stream ++ text }

-- What a handler leaves: a response, or a panic, after which net/http drops the connection.
pub data Handled : Type 0 where
  responded : HttpResponse → Handled
  aborted : Handled

-- `len(data) > limit`, as http.MaxBytesReader has it for a body; a negative limit counts as 0.
abbrev pub is_too_large : ℤ → List ℕ → Bool
is_too_large (pos limit) body = ltb limit (length body)
is_too_large (negsuc _) body = ltb 0 (length body)

-- io.ReadAll of the request's body: `none` is an error of the connection or of the limit.
unfoldable pub read_body : ℤ → Option (List ℕ) → Option (List ℕ)
read_body limit none = none
read_body limit (some body) = if is_too_large limit body then none else some body

unfoldable pub respond_json : Option (List ℕ) → HttpResponse
respond_json none = http_error "internal error" 500
respond_json (some body) = json_response body

-- Every client gets the event. The order of `range` over the clients does not show, and a failed
-- write is the connection's end.
unfoldable pub send_all : Option (List ℕ) → Dict SseClient → Dict SseClient
send_all none clients = clients
send_all (some line) clients = map_values (append_text (message_frame line)) clients

module _ (text : Syntax) where
  -- json.Marshal of a response, as what is written; `none` is its error.
  unfoldable pub written : Response → Option (List ℕ)
  written r = elim (encode_response r) [ none ↦ none | some v ↦ some (text.render v) ]

  unfoldable pub write_error : Any → ℤ → String → Any → HttpResponse
  unfolding respond_json written
  write_error id code message payload =
      respond_json (written (new_error_response id code message payload))

  unfoldable pub invalid_json : Runtime → Option Value → HttpResponse
  unfolding write_error
  invalid_json go v =
      write_error absent code_parse_error "invalid JSON" (string (go.unmarshal_error v))

  unfoldable pub broadcast_to_sse : {W : Type 0} → Response → HttpServer W → HttpServer W
  unfolding send_all written
  broadcast_to_sse r s = record s { clients = send_all (written r) s.clients }

module _ {W : Type 0} (go : Runtime) (text : Syntax) (translator : Translator) where
  -- The reply is written, where it could be marshalled, and then broadcast.
  unfoldable pub send_reply :
      HttpServer W → W → Response → Option (List ℕ) → HttpServer W × W × Handled
  unfolding respond_json
  send_reply s w r none = (s, w, responded (respond_json none))
  send_reply s w r (some line) =
      (broadcast_to_sse text r s, w, responded (respond_json (some line)))

  -- After handleRequest.
  unfoldable pub finish_message : HttpServer W → W × Reaction → HttpServer W × W × Handled
  unfolding written send_reply
  finish_message s (w, panicked) = (s, w, aborted)
  finish_message s (w, silent) =
      (s, w, responded (record { status = 204; content_type = none; body = [] }))
  finish_message s (w, reply r) = send_reply s w r (written text r)

  unfoldable pub handle_decoded : HttpServer W → W → Request → HttpServer W × W × Handled
  unfolding write_error finish_message
  handle_decoded s w req =
      if req.jsonrpc == jsonrpc_version
      then finish_message s (handle_request go translator req s.tables w)
      else (
        s,
        w,
        responded (write_error text req.id code_invalid_request "invalid JSON-RPC version" absent),
      )

  unfoldable pub handle_read :
      HttpServer W → W → Value → Option Request → HttpServer W × W × Handled
  unfolding handle_decoded invalid_json
  handle_read s w v none = (s, w, responded (invalid_json text go (some v)))
  handle_read s w v (some req) = handle_decoded s w req

  unfoldable pub handle_document : HttpServer W → W → Option Value → HttpServer W × W × Handled
  unfolding handle_read invalid_json
  handle_document s w none = (s, w, responded (invalid_json text go none))
  handle_document s w (some v) = handle_read s w v (decode_request go v)

  unfoldable pub handle_body : HttpServer W → W → Option (List ℕ) → HttpServer W × W × Handled
  unfolding handle_document write_error
  handle_body s w none = (
    s,
    w,
    responded (write_error text absent code_parse_error "failed to read request body" absent),
  )
  handle_body s w (some body) = handle_document s w (text.parse body)

  -- The method, and the body as the connection gives it.
  unfoldable pub handle_message :
      HttpServer W → W → String → Option (List ℕ) → HttpServer W × W × Handled
  unfolding handle_body read_body
  handle_message s w method body =
      if method == "POST"
      then handle_body s w (read_body s.config.max_request_size body)
      else (s, w, responded (http_error "Method not allowed" 405))
