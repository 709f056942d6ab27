-- ===== src/Server/Http/Replies.antt =====
-- What handleMessage of pkg/server/http_server.go leaves, on every path.
use mcp_module.Common.{
  ℕ, String, true, false, Option, none, some, List, [], Bool-cases, inl, inr, ◌≡◌, ◌≢◌, refl, arith,
  eq_iff, ap, ◌∙◌, map_values, ◌==◌,
}
use mcp_module.Common.Int.{ℤ}
use mcp_module.Json.{Runtime, Value, Any, absent}
use mcp_module.I18n.{Translator}
use mcp_module.Protocol.{Request, Response, jsonrpc_version, is_error, new_error_response}
use mcp_module.Protocol.Codec.{decode_request}
use mcp_module.Server.Dispatch.{Reaction, reply, silent, panicked, handle_request, method_of}
use mcp_module.Server.Replies.{
  Answers, Fits, handle_request-Fits, method_of-initialized_iff, method_of-read_resource,
  reply-method,
}
use mcp_module.Server.Http.{Syntax, HttpServer, http_error, json_response}
use mcp_module.Server.Http.Message.{
  Handled, responded, aborted, append_text, message_frame, written, send_all, broadcast_to_sse,
  respond_json, write_error, invalid_json, send_reply, finish_message, handle_decoded, handle_read,
  handle_document, handle_body, handle_message, read_body,
}

-- The frame of a document is at the end of every client's stream.
abbrev pub sent_to_all : {W : Type 0} → List ℕ → HttpServer W → HttpServer W
sent_to_all line s = record s { clients = map_values (append_text (message_frame line)) s.clients }

module _ {W : Type 0} (go : Runtime) (text : Syntax) (translator : Translator) where
  -- A body that is read whole, is JSON, and is a request of JSON-RPC 2.0.
  pub record IsRequest (s : HttpServer W) (body : Option (List ℕ)) (req : Request) : Type 0 where
    pub bytes : List ℕ
    pub document : Value
    pub read : read_body s.config.max_request_size body ≡ some bytes
    pub parses : text.parse bytes ≡ some document
    pub decodes : decode_request go document ≡ some req
    pub version : req.jsonrpc ≡ jsonrpc_version

  -- What a message may lead to.
  pub data Leaves (s : HttpServer W) (w : W) (method : String) (body : Option (List ℕ))
      : HttpServer W × W × Handled → Type 0 where
    wrong_method :
        method ≢ "POST"
        → Leaves s w method body (s, w, responded (http_error "Method not allowed" 405))
    no_request :
        {id : Any} {e : Response}
        → method ≡ "POST"
        → ((req : Request) → ¬ IsRequest s body req)
        → Answers id e
        → is_error e ≡ true
        → Leaves s w method body (s, w, responded (respond_json (written text e)))
    notified :
        {req : Request} {w' : W}
        → method ≡ "POST"
        → IsRequest s body req
        → req.method ≡ "notifications/initialized"
        → handle_request go translator req s.tables w ≡ (w', silent)
        → Leaves s w method body
            (s, w', responded (record { status = 204; content_type = none; body = [] }))
    crashed :
        {req : Request} {w' : W}
        → method ≡ "POST"
        → IsRequest s body req
        → req.method ≡ "resources/read"
        → handle_request go translator req s.tables w ≡ (w', panicked)
        → Leaves s w method body (s, w', aborted)
    unwritable :
        {req : Request} {r : Response} {w' : W}
        → method ≡ "POST"
        → IsRequest s body req
        → req.method ≢ "notifications/initialized"
        → handle_request go translator req s.tables w ≡ (w', reply r)
        → written text r ≡ none
        → Leaves s w method body (s, w', responded (http_error "internal error" 500))
    replied :
        {req : Request} {r : Response} {w' : W} {line : List ℕ}
        → method ≡ "POST"
        → IsRequest s body req
        → req.method ≢ "notifications/initialized"
        → handle_request go translator req s.tables w ≡ (w', reply r)
        → Answers req.id r
        → written text r ≡ some line
        → Leaves s w method body (sent_to_all line s, w', responded (json_response line))

module _ (id : Any) (code : ℤ) (message : String) (payload : Any) where
  error-Answers : Answers id (new_error_response id code message payload)
  unfolding new_error_response
  error-Answers = ground arith

  error-is_error : is_error (new_error_response id code message payload) ≡ true
  unfolding new_error_response is_error
  error-is_error = refl

not_version :
    (req req' : Request)
    → (req.jsonrpc == jsonrpc_version) ≡ false
    → req ≡ req'
    → req'.jsonrpc ≢ jsonrpc_version
not_version req req' other same e =
    let wrong : (req.jsonrpc == jsonrpc_version) ≡ true =
      (eq_iff req.jsonrpc jsonrpc_version).1 (ap (λ (r : Request). r.jsonrpc) same ∙ e) in
    cc

not_post : {method : String} → (method == "POST") ≡ false → method ≢ "POST"
not_post {method} other e = let wrong : (method == "POST") ≡ true = (eq_iff method "POST").1 e in cc

-- A body is one request at most.
decoded_same :
    {W : Type 0} {go : Runtime} {text : Syntax} {translator : Translator} {s : HttpServer W}
    {body : Option (List ℕ)} {bytes : List ℕ} {v : Value} {req req' : Request}
    → read_body s.config.max_request_size body ≡ some bytes
    → text.parse bytes ≡ some v
    → decode_request go v ≡ some req
    → IsRequest go text translator s body req'
    → req ≡ req'
decoded_same {go} {text} {bytes} {v} read parses decodes is =
    let same_bytes : is.bytes ≡ bytes = cc is.read in
    let same_document : is.document ≡ v = cc (is.parses, ap text.parse same_bytes) in
    cc (is.decodes, ap (decode_request go) same_document)

module _ {W : Type 0} (go : Runtime) (text : Syntax) (translator : Translator) (s : HttpServer W)
    (w : W) (method : String) (body : Option (List ℕ)) (post : method ≡ "POST") where
  error-Leaves :
      (id : Any) (code : ℤ) (message : String) (payload : Any)
      → ((req : Request) → ¬ IsRequest go text translator s body req)
      → Leaves go text translator s w method body
          (s, w, responded (write_error text id code message payload))
  unfolding write_error
  error-Leaves id code message payload lacking =
      no_request post lacking (error-Answers id code message payload)
        (error-is_error id code message payload)

  module _ (req : Request) (is : IsRequest go text translator s body req) where
    answers_one :
        {w' : W} {r : Response}
        → handle_request go translator req s.tables w ≡ (w', reply r)
        → req.method ≢ "notifications/initialized"
    answers_one h = reply-method go translator req s.tables w (ap (λ (x : W × Reaction). x.1) h)

    send_reply-Leaves :
        (w' : W) (r : Response) (o : Option (List ℕ))
        → handle_request go translator req s.tables w ≡ (w', reply r)
        → Answers req.id r
        → written text r ≡ o
        → Leaves go text translator s w method body (send_reply go text translator s w' r o)
    unfolding send_reply broadcast_to_sse respond_json send_all
    send_reply-Leaves w' r none h a e = unwritable post is (answers_one h) h e
    send_reply-Leaves w' r (some line) h a e = rw e (replied post is (answers_one h) h a e)

    finish_message-Leaves :
        (x : W × Reaction)
        → handle_request go translator req s.tables w ≡ x
        → Fits (method_of req.method) req.id x.1
        → Leaves go text translator s w method body (finish_message go text translator s x)
    unfolding finish_message
    finish_message-Leaves (w', panicked) h fits =
        crashed post is (method_of-read_resource req.method fits) h
    finish_message-Leaves (w', silent) h fits =
        notified post is ((method_of-initialized_iff req.method).0 fits) h
    finish_message-Leaves (w', reply r) h fits = send_reply-Leaves w' r (written text r) h fits refl

  abbrev Result : HttpServer W × W × Handled → Type 0
  Result = Leaves go text translator s w method body

  abbrev NoRequest : Type 0
  NoRequest = (req : Request) → ¬ IsRequest go text translator s body req

  module _ (bytes : List ℕ) (read : read_body s.config.max_request_size body ≡ some bytes) where
    module _ (v : Value) (parses : text.parse bytes ≡ some v) where
      handle_decoded-Leaves :
          (req : Request)
          → decode_request go v ≡ some req
          → Result (handle_decoded go text translator s w req)
      unfolding handle_decoded
      handle_decoded-Leaves req decodes = elim (Bool-cases (req.jsonrpc == jsonrpc_version)) [
        | inl same ↦
            let is : IsRequest go text translator s body req = record {
              bytes = bytes;
              document = v;
              read = read;
              parses = parses;
              decodes = decodes;
              version = (eq_iff req.jsonrpc jsonrpc_version).0 same;
            } in
            rw same (
              finish_message-Leaves req is (handle_request go translator req s.tables w) refl
                (handle_request-Fits go translator req s.tables w))
        | inr other ↦
            let lacking : NoRequest = λ req' is.
              not_version req req' other (decoded_same read parses decodes is) is.version in
            rw other (error-Leaves req.id _ _ _ lacking)
      ]

      handle_read-Leaves :
          (o : Option Request)
          → decode_request go v ≡ o
          → Result (handle_read go text translator s w v o)
      unfolding handle_read invalid_json
      handle_read-Leaves (some req) decodes = handle_decoded-Leaves req decodes
      handle_read-Leaves none fails = error-Leaves absent _ _ _ (λ req is.
          let same_bytes : is.bytes ≡ bytes = cc (is.read, read) in
          let same_document : is.document ≡ v = cc (is.parses, ap text.parse same_bytes) in
          cc (is.decodes, ap (decode_request go) same_document))

    handle_document-Leaves :
        (o : Option Value)
        → text.parse bytes ≡ o
        → Result (handle_document go text translator s w o)
    unfolding handle_document invalid_json
    handle_document-Leaves (some v) parses = handle_read-Leaves v parses (decode_request go v) refl
    handle_document-Leaves none fails = error-Leaves absent _ _ _ (λ req is.
        let same_bytes : is.bytes ≡ bytes = cc (is.read, read) in
        cc (is.parses, ap text.parse same_bytes))

  handle_body-Leaves :
      (o : Option (List ℕ))
      → read_body s.config.max_request_size body ≡ o
      → Result (handle_body go text translator s w o)
  unfolding handle_body
  handle_body-Leaves (some bytes) read = handle_document-Leaves bytes read (text.parse bytes) refl
  handle_body-Leaves none fails = error-Leaves absent _ _ _ (λ req is. cc (is.read))

module _ {W : Type 0} (go : Runtime) (text : Syntax) (translator : Translator) (s : HttpServer W)
    (w : W) (method : String) (body : Option (List ℕ)) where
  -- handleMessage answers another method than POST with the status 405; a body that cannot be read,
  -- is no JSON, no request or not of version 2.0 with an error response; the notification with the
  -- status 204; and every other request with a response that repeats its id and holds either a
  -- result or an error, which is broadcast to every SSE client (the status is 500, and nothing is
  -- sent, where it cannot be marshalled). Handlers run for a request alone; only resources/read
  -- panics; the server's tables and counter stay, and so do the clients but for that broadcast.
  pub handle_message-Leaves :
      Leaves go text translator s w method body (handle_message go text translator s w method body)
  unfolding handle_message
  handle_message-Leaves = elim (Bool-cases (method == "POST")) [
    | inl post ↦ rw post (
        handle_body-Leaves go text translator s w method body ((eq_iff method "POST").0 post)
          (read_body s.config.max_request_size body) refl)
    | inr other ↦ rw other (wrong_method (λ e. not_post other e))
  ]
