-- ===== src/Runner/Passing/Rest.antt =====
-- Sections 1, 2, 6 and 7 of the runner.
use mcp_module.Common.{
  traverse, Option-cases, inl, inr, subst, false, some, List, [], ◌∷◌, ◌++◌, map, codes, length,
  insert, lookup, ◌≡◌, refl, ap, ◌∙◌, eq_refl, arith, All,
}
use mcp_module.Common.Int.{pos}
use mcp_module.Json.{
  Value, str, object, native_int, part, members, Runtime, string_of, dict_of, entry_of, fields,
  marshal,
}
use mcp_module.Server.Tables.{capabilities}
use mcp_module.Json.Text.{
  Digits, IsPlain, contains-render, Mentions, itself, in_object, this, later,
}
use mcp_module.Protocol.{
  Request, jsonrpc_version, new_request, is_error, new_error_response, new_response,
  new_notification, is_notification, error_text,
}
use mcp_module.Protocol.Codec.Handshake.{encode_initialize_params, encode_client_info}
use mcp_module.Protocol.Codec.HandshakeLaws.{decode-encode_initialize_result}
use mcp_module.I18n.{noop_translator}
use mcp_module.Server.Dispatch.{respond}
use mcp_module.Client.Operations.{to_params}
use mcp_module.Client.Remote.Handshake.{handshake, initialize_handled}
use mcp_module.Protocol.Codec.{encode_request}
use mcp_module.Client.Remote.{none_not_some}
use mcp_module.Runner.{FixtureInput, pass, require, expect}
use mcp_module.Runner.Answers.{KeepsSmall, arrives, run-with}
use mcp_module.Runner.Protocol.{below, check_params, check_round_trip, check_envelopes, section1}
use mcp_module.Runner.Handshake.{noop_server, check_handshake, section2}
use mcp_module.Runner.Seam.{section7}
use mcp_module.Runner.Passing.{for_inputs-map}

-- The value is plain and has as many characters as are expected.
abbrev pub IsSendable : FixtureInput → Type 0
IsSendable i =
    IsPlain i.tool_arg_value
    × (below (length (codes i.tool_arg_value)) i.expected_min_runes ≡ false)

some-same : {v w : Value} → some v ≡ some w → v ≡ w
some-same e = cc

module _ (go : Runtime) (small : KeepsSmall go) (digits : Digits) (i : FixtureInput)
    (h : IsSendable i) where
  abbrev params : Value
  params = object ((i.tool_arg_key, str i.tool_arg_value) ∷ [])

  abbrev sent : Request
  sent = record {
    jsonrpc = jsonrpc_version;
    id = native_int (pos 1);
    method = "tools/call";
    params = some params;
  }

  check_params-pass :
      check_params i ((i.tool_arg_key, i.tool_arg_value) ∷ []) ≡ pass "[Section1][NewRequest]" ∷ []
  unfolding check_params lookup
  check_params-pass =
      rw (eq_refl i.tool_arg_key) (rw (eq_refl i.tool_arg_value, require) (rw (h.1, require) refl))

  params_read :
      dict_of (λ v. string_of (some v)) (some params)
      ≡ some ((i.tool_arg_key, i.tool_arg_value) ∷ [])
  unfolding dict_of entry_of traverse string_of fields members
  params_read = refl

  blob-Mentions : {blob : Value} → encode_request sent ≡ some blob → Mentions i.tool_arg_value blob
  unfolding encode_request marshal members part
  blob-Mentions e =
      subst (Mentions i.tool_arg_value) (some-same e)
        (in_object (later (later (later (this (in_object (this itself)))))))

  check_round_trip-pass : check_round_trip i go digits ≡ pass "[Section1][NewRequest]" ∷ []
  unfolding check_round_trip new_request
  check_round_trip-pass = elim (Option-cases (encode_request sent)) [
    | inl missing ↦ absurd (
        none_not_some (rw missing at (arrives go small 1 (omega arith) "tools/call" (some params))))
    | inr (blob, e) ↦
        let decoded = rw e at (arrives go small 1 (omega arith) "tools/call" (some params)) in
        rw (e, expect)
          (rw (contains-render digits i.tool_arg_value blob h.0 (blob-Mentions e), require)
            (rw (decoded, expect) (rw (params_read, expect) check_params-pass)))
  ]

-- The envelopes.
envelopes_pass :
    (go : Runtime)
    → check_envelopes go
      ≡ pass "[Section1][NewErrorResponse]"
        ∷ pass "[Section1][NewResponse]"
        ∷ pass "[Section1][NewNotification]"
        ∷ []
unfolding check_envelopes is_error new_error_response new_response new_notification new_request
    is_notification
envelopes_pass go = refl

handshake_pass :
    check_handshake (handshake noop_server)
    ≡ pass "[Section2][initialize]"
      ∷ pass "[Section2][Capabilities]"
      ∷ pass "[Section2][ServerInfo()/Capabilities()]"
      ∷ []
unfolding check_handshake noop_server capabilities insert
handshake_pass = refl

pub section2_pass :
    (go : Runtime)
    → KeepsSmall go
    → section2 go
      ≡ pass "[Section2][initialize]"
        ∷ pass "[Section2][Capabilities]"
        ∷ pass "[Section2][ServerInfo()/Capabilities()]"
        ∷ []
unfolding section2 to_params encode_initialize_params marshal respond new_response is_error
    encode_client_info
section2_pass go small =
    rw
      (run-with go small noop_server tt 1 (omega arith) "initialize" _ _
        (initialize_handled go noop_translator noop_server tt 1 _))
      (rw (decode-encode_initialize_result (handshake noop_server), expect) handshake_pass)

pub section7_pass :
    (go : Runtime)
    → section7 go
      ≡ pass "[Section7][i18n-seam]"
        ∷ pass "[Section7][SetTranslator(nil)]"
        ∷ pass "[Section7][server.SetTranslator(nil)]"
        ∷ []
unfolding section7 error_text
section7_pass go = refl

-- The first section passes once for each input, and for the three envelopes.
pub section1-pass :
    (go : Runtime) (digits : Digits)
    → KeepsSmall go
    → (inputs : List FixtureInput) → All IsSendable inputs
    → section1 go digits inputs
      ≡ map (λ _. pass "[Section1][NewRequest]") inputs
        ++ pass "[Section1][NewErrorResponse]"
          ∷ pass "[Section1][NewResponse]"
          ∷ pass "[Section1][NewNotification]"
          ∷ []
unfolding section1
section1-pass go digits small inputs hs =
    ap (λ vs. vs ++ check_envelopes go)
      (for_inputs-map (λ i. check_round_trip i go digits) (pass "[Section1][NewRequest]") IsSendable
        (λ i h. check_round_trip-pass go small digits i h) inputs hs)
    ∙ ap (λ vs. map (λ _. pass "[Section1][NewRequest]") inputs ++ vs) (envelopes_pass go)
