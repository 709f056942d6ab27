-- ===== src/Runner/Passing/Prompts.antt =====
-- Section 5 of the runner.
use mcp_module.Common.{
  some, List, [], ◌∷◌, map, insert, lookup, ◌≡◌, refl, ap, ◌∙◌, eq_refl, arith, All,
}
use mcp_module.Json.{Runtime}
use mcp_module.Json.Text.{Digits, IsPlain}
use mcp_module.I18n.{noop_translator}
use mcp_module.Range.{VisitsAll, range-single}
use mcp_module.Protocol.{no_params, marshalled, ok, new_response, is_error}
use mcp_module.Protocol.Content.{Prompt}
use mcp_module.Protocol.Codec.Catalog.{encode_prompt, encode_message}
use mcp_module.Server.Dispatch.{reply, respond, answer_prompt, list_field}
use mcp_module.Client.Operations.{prompt_params}
use mcp_module.Client.Remote.{wire_id}
use mcp_module.Client.Remote.Lists.{prompts_handled}
use mcp_module.Client.Remote.Reads.{prompt_handled}
use mcp_module.Runner.{FixtureInput, pass, require, run_one_rpc, must_request, result_text}
use mcp_module.Runner.Answers.{KeepsSmall, replied, run-bare, run-with}
use mcp_module.Runner.Shown.{prompt_shown, message_shown}
use mcp_module.Runner.Prompts.{
  prompt_messages, prompt_handler, prompt_server, get_document, check_prompt, section5,
}
use mcp_module.Runner.Passing.{for_inputs-map}

-- The prompt's name and its text are plain.
abbrev pub IsGettable : FixtureInput → Type 0
IsGettable i = IsPlain i.prompt_name × IsPlain i.prompt_text

module _ (go : Runtime) (small : KeepsSmall go) (i : FixtureInput) where
  abbrev prompt : Prompt
  prompt = record { name = i.prompt_name; description = i.prompt_description; arguments = [] }

  list_rpc :
      VisitsAll go
      → run_one_rpc go (prompt_server i) "" (must_request go 30 "prompts/list" no_params)
        ≡ replied ""
            (respond go (wire_id 30) (some (list_field "prompts" (encode_prompt prompt ∷ []))))
  unfolding prompt_server insert
  list_rpc visits = run-bare go small (prompt_server i) "" 30 (omega arith) "prompts/list" _ (
      prompts_handled go noop_translator (prompt_server i) "" 30
      ∙ ap
          (λ es. (
            "",
            reply (
                respond go (wire_id 30)
                  (some (list_field "prompts" (map encode_prompt (map (λ e. e.prompt) es))))),
          ))
          (range-single go i.prompt_name _ visits))

  prompt_found :
      lookup i.prompt_name (prompt_server i).prompts
      ≡ some (record { prompt = prompt; handler = prompt_handler i })
  unfolding prompt_server insert lookup
  prompt_found = rw (eq_refl i.prompt_name) refl

  handler_answers :
      prompt_handler i "" ((i.prompt_arg_key, i.prompt_arg_value) ∷ [])
      ≡ (i.prompt_arg_value, ok (prompt_messages i))
  unfolding prompt_handler lookup
  handler_answers = rw (eq_refl i.prompt_arg_key) refl

  get_rpc :
      run_one_rpc go
        (prompt_server i)
        ""
        (must_request go 31 "prompts/get" (marshalled (get_document i)))
      ≡ replied i.prompt_arg_value (
          respond go
            (wire_id 31)
            (some (list_field "messages" (map encode_message (prompt_messages i)))))
  unfolding answer_prompt prompt_params
  get_rpc =
      run-with go small (prompt_server i) "" 31 (omega arith) "prompts/get" _ (get_document i) (
        prompt_handled go noop_translator (prompt_server i) "" (wire_id 31) i.prompt_name
          ((i.prompt_arg_key, i.prompt_arg_value) ∷ []) (ok (prompt_messages i)) prompt_found
          handler_answers)

  module _ (digits : Digits) (h : IsGettable i) where
    check_prompt-pass :
        VisitsAll go → check_prompt i go digits ≡ pass "[Section5][prompts/get]" ∷ []
    unfolding check_prompt result_text respond new_response is_error
    check_prompt-pass visits = rw (list_rpc visits) (
        rw (prompt_shown digits i.prompt_name i.prompt_description h.0, require)
          (rw get_rpc (
            rw (eq_refl i.prompt_arg_value, require)
              (rw (message_shown digits i.prompt_text h.1, require) refl))))

-- The fifth section passes once for each input.
pub section5-pass :
    (go : Runtime) (digits : Digits)
    → KeepsSmall go
    → VisitsAll go
    → (inputs : List FixtureInput) → All IsGettable inputs
    → section5 go digits inputs ≡ map (λ _. pass "[Section5][prompts/get]") inputs
unfolding section5
section5-pass go digits small visits =
    for_inputs-map (λ i. check_prompt i go digits) (pass "[Section5][prompts/get]") IsGettable
      (λ i h. check_prompt-pass go small i digits h visits)
