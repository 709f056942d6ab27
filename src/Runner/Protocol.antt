-- ===== src/Runner/Protocol.antt =====
-- challenges/runner/main.go: section1ProtocolRoundTrips.
use mcp_module.Common.{
  ℕ, String, Bool, false, not, Option, none, some, List, [], ◌∷◌, ◌++◌, Dict, lookup, codes, length,
  contains, ltb, ◌==◌, ◌>>=◌,
}
use mcp_module.Common.Int.{ℤ, pos, negsuc, int_eq}
use mcp_module.Json.{Value, str, int, object, native_int, dict, Runtime, string_of, dict_of}
use mcp_module.Json.Text.{Digits, render}
use mcp_module.Protocol.{
  RpcError, jsonrpc_version, marshalled, no_params, new_request, new_response, new_notification,
  new_error_response, is_error, is_notification, code_method_not_found,
}
use mcp_module.Protocol.Codec.{encode_request, decode_request}
use mcp_module.Runner.{FixtureInput, Verdict, pass, require, expect, of_result, for_inputs}

abbrev pub or_blank : Option String → String
or_blank none = ""
or_blank (some s) = s

-- `m[k]` of a map[string]string.
abbrev pub text_at : String → Dict String → String
text_at k m = or_blank (lookup k m)

-- `n < min`, of an int that may be negative.
abbrev pub below : ℕ → ℤ → Bool
below n (pos m) = ltb n m
below n (negsuc _) = false

module _ (i : FixtureInput) where
  -- The last checks, on the params as they come back.
  unfoldable pub check_params : Dict String → List Verdict
  unfolding require
  check_params params =
      require (text_at i.tool_arg_key params == i.tool_arg_value) "[Section1][params-round-trip]" (
        require (not (below (length (codes (text_at i.tool_arg_key params))) i.expected_min_runes))
          "[Section1][rune-count]" (pass "[Section1][NewRequest]" ∷ []))

  unfoldable pub check_document : Runtime → Digits → Value → List Verdict
  unfolding require expect check_params
  check_document go digits blob =
      require (contains (codes i.tool_arg_value) (render digits blob)) "[Section1][NewRequest]" (
        expect (decode_request go blob) "[Section1][unmarshal]" λ got.
          expect (do v ← got.params; dict_of (λ v. string_of (some v)) (some v))
            "[Section1][params-unmarshal]" check_params)

  -- An iteration of the loop.
  unfoldable pub check_round_trip : Runtime → Digits → List Verdict
  unfolding require expect check_document
  check_round_trip go digits =
      expect
        (of_result (
          new_request go (native_int (pos 1)) "tools/call"
            (marshalled (object ((i.tool_arg_key, str i.tool_arg_value) ∷ [])))))
        "[Section1][NewRequest]"
        λ req.
          require (req.jsonrpc == jsonrpc_version) "[Section1][JSONRPCVersion]"
            (expect (encode_request req) "[Section1][marshal]" (check_document go digits))

abbrev pub has_code : ℤ → Option RpcError → Bool
has_code z none = false
has_code z (some e) = int_eq e.code z

-- The envelopes after the loop.
unfoldable pub check_notification : Runtime → List Verdict
unfolding require expect
check_notification go =
    expect (of_result (new_notification go "notifications/initialized" no_params))
      "[Section1][NewNotification]"
      λ notif.
        require (is_notification notif) "[Section1][NewNotification]"
          (pass "[Section1][NewNotification]" ∷ [])

unfoldable pub check_response : Runtime → List Verdict
unfolding require expect check_notification
check_response go =
    expect
      (of_result
        (new_response go (native_int (pos 100)) (some (object (("x", int (pos 42)) ∷ [])))))
      "[Section1][NewResponse]"
      λ resp.
        require (not (is_error resp)) "[Section1][NewResponse]"
          (pass "[Section1][NewResponse]" ∷ check_notification go)

unfoldable pub check_envelopes : Runtime → List Verdict
unfolding require check_response
check_envelopes go =
    let resp =
      new_error_response (native_int (pos 99)) code_method_not_found "test message"
        (dict (("k", str "v") ∷ [])) in
    require (is_error resp) "[Section1][NewErrorResponse]" (
      require (has_code code_method_not_found resp.error) "[Section1][NewErrorResponse]"
        (pass "[Section1][NewErrorResponse]" ∷ check_response go))

unfoldable pub section1 : Runtime → Digits → List FixtureInput → List Verdict
unfolding for_inputs check_round_trip check_envelopes
section1 go digits inputs =
    for_inputs (λ i. check_round_trip i go digits) inputs ++ check_envelopes go
