-- ===== src/Runner/Seam.antt =====
-- challenges/runner/main.go: capturingTranslator and section7I18nSeamForRPCError.
use mcp_module.Common.{String, Bool, false, not, ◌||◌, none, some, List, [], ◌∷◌, length, leb, ◌==◌}
use mcp_module.Json.{int, absent, dict, Runtime}
use mcp_module.Common.Int.{pos}
use mcp_module.I18n.{Translator, set_translator}
use mcp_module.Protocol.{
  error_text, code_method_not_found, code_invalid_request, code_internal_error,
}
use mcp_module.Runner.{Verdict, pass, require}

-- capturingTranslator returns the id that it is given. It also keeps it: since `Error` makes one call
-- and returns its result, the ids that it has kept are the texts of the errors.
unfoldable pub capturing_translator : Translator
capturing_translator = record { t = λ msg_id _. msg_id; t_plural = λ msg_id _ _. msg_id }

-- The loop over the calls, for one id.
abbrev pub is_observed : String → List String → Bool
is_observed msg_id [] = false
is_observed msg_id (call ∷ calls) = (call == msg_id) || is_observed msg_id calls

abbrev pub is_text_empty : String → Bool
is_text_empty s = s == ""

-- After SetTranslator(nil), in pkg/protocol and in pkg/server.
unfoldable pub check_demoted : Runtime → List Verdict
unfolding require set_translator
check_demoted go =
    require
      (not (
        is_text_empty (
          error_text go (set_translator none)
            (record { code = code_internal_error; message = "oops"; payload = absent }))))
      "[Section7][SetTranslator(nil)]"
      (pass "[Section7][SetTranslator(nil)]" ∷ pass "[Section7][server.SetTranslator(nil)]" ∷ [])

unfoldable pub check_calls : Runtime → List String → List Verdict
unfolding require check_demoted
check_calls go calls = require (leb 2 (length calls)) "[Section7][capturing-translator]" (
    require (is_observed "mcp_module_rpc_error_no_data" calls) "[Section7][i18n-seam]" (
      require (is_observed "mcp_module_rpc_error_with_data" calls) "[Section7][i18n-seam]"
        (pass "[Section7][i18n-seam]" ∷ check_demoted go)))

unfoldable pub section7 : Runtime → List Verdict
unfolding require check_calls capturing_translator set_translator
section7 go =
    let translator = set_translator (some capturing_translator) in
    let msg1 =
      error_text go translator
        (record { code = code_method_not_found; message = "method not found"; payload = absent }) in
    let msg2 = error_text go translator (record {
      code = code_invalid_request;
      message = "bad";
      payload = dict (("x", int (pos 1)) ∷ []);
    }) in
    require (not (is_text_empty msg1)) "[Section7][RPCError.Error][no-data]" (
      require (not (is_text_empty msg2)) "[Section7][RPCError.Error][with-data]"
        (check_calls go (msg1 ∷ msg2 ∷ [])))
