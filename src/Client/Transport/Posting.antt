-- ===== src/Client/Transport/Posting.antt =====
-- pkg/client/http_client.go and pkg/server/http_server.go: the POST of sendRequest, as handleMessage
-- answers it.
use mcp_module.Common.{ℕ, Option, none, some, List, ◌≡◌, ◌⊎◌, inl, inr, refl, true, subst}
use mcp_module.Json.{Runtime}
use mcp_module.I18n.{Translator}
use mcp_module.Server.Http.{Syntax, HttpServer, HttpResponse, http_error, json_response}
use mcp_module.Server.Http.Message.{
  Handled, responded, aborted, respond_json, written, handle_message,
}
use mcp_module.Server.Http.Replies.{
  Leaves, wrong_method, no_request, notified, crashed, unwritable, replied, handle_message-Leaves,
}
use mcp_module.Client.Transport.{Connection}
use mcp_module.Client.Transport.Calls.{status, is_accepted, post_error, awaiting, after_sending}

-- The client takes the response as accepted, or it is that of a response that cannot be marshalled.
abbrev pub Accepts : HttpResponse → Type 0
Accepts h = (is_accepted h.status ≡ true) ⊎ (h ≡ http_error "internal error" 500)

abbrev AcceptsHandled : Handled → Type 0
AcceptsHandled (responded h) = Accepts h
AcceptsHandled aborted = Unit

respond_json-Accepts : (o : Option (List ℕ)) → Accepts (respond_json o)
unfolding respond_json json_response is_accepted
respond_json-Accepts none = inr refl
respond_json-Accepts (some line) = inl refl

module _ {W : Type 0} (go : Runtime) (text : Syntax) (translator : Translator) (s : HttpServer W)
    (w : W) (body : Option (List ℕ)) where
  Leaves-Accepts :
      {x : HttpServer W × W × Handled}
      → Leaves go text translator s w "POST" body x
      → AcceptsHandled x.2
  unfolding is_accepted json_response
  Leaves-Accepts (wrong_method other) = absurd (other refl)
  Leaves-Accepts (no_request {e} _ _ _ _) = respond_json-Accepts (written text e)
  Leaves-Accepts (notified _ _ _ _) = inl refl
  Leaves-Accepts (crashed _ _ _ _) = tt
  Leaves-Accepts (unwritable _ _ _ _ _) = inr refl
  Leaves-Accepts (replied _ _ _ _ _ _) = inl refl

  -- Where the server of this module answers the POST of a call, whatever its body is, the client goes
  -- on to wait for its response on the stream, unless the answer is the status 500 of a response that
  -- cannot be marshalled.
  pub handled-awaits :
      (c : Connection) (n : ℕ) {h : HttpResponse}
      → (handle_message go text translator s w "POST" body).2 ≡ responded h
      → (after_sending n (post_error (status h.status)) c ≡ (c, awaiting n))
        ⊎ (h ≡ http_error "internal error" 500)
  unfolding post_error after_sending
  handled-awaits c n {h} e =
      let accepts : Accepts h =
        subst AcceptsHandled e
          (Leaves-Accepts (handle_message-Leaves go text translator s w "POST" body)) in
      elim accepts [ inl good ↦ inl (rw good refl) | inr bad ↦ inr bad ]
