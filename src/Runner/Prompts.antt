-- ===== src/Runner/Prompts.antt =====
-- challenges/runner/main.go: section5RegisterPromptAndGet. The world of the handler is `capturedArg`.
use mcp_module.Common.{String, List, [], ◌∷◌, Dict, codes, contains, ◌==◌}
use mcp_module.Json.{Value, str, object, Runtime}
use mcp_module.Json.Text.{Digits}
use mcp_module.Protocol.{no_params, marshalled, Result, ok}
use mcp_module.Protocol.Content.{PromptMessage, new_text_content}
use mcp_module.Server.Tables.{Tables, new_tables, register_prompt}
use mcp_module.Runner.{
  FixtureInput, Verdict, pass, require, Rpc, must_request, run_one_rpc, require_answer, result_text,
  for_inputs,
}
use mcp_module.Runner.Protocol.{text_at}

module _ (i : FixtureInput) where
  abbrev pub prompt_messages : List PromptMessage
  prompt_messages = record { role = "user"; content = new_text_content i.prompt_text } ∷ []

  unfoldable pub prompt_handler : String → Dict String → String × Result (List PromptMessage)
  prompt_handler captured args = (text_at i.prompt_arg_key args, ok prompt_messages)

  unfoldable pub prompt_server : Tables String
  unfolding prompt_handler register_prompt new_tables
  prompt_server =
      register_prompt
        (record { name = i.prompt_name; description = i.prompt_description; arguments = [] })
        prompt_handler (new_tables "round-267-mcp-prm" "0.267.0")

  abbrev pub get_document : Value
  get_document = object (
      ("arguments", object ((i.prompt_arg_key, str i.prompt_arg_value) ∷ []))
      ∷ ("name", str i.prompt_name)
      ∷ [])

  module _ (go : Runtime) (digits : Digits) where
    unfoldable pub check_get : Rpc String → List Verdict
    unfolding require require_answer result_text
    check_get rpc = require_answer rpc "[Section5][prompts/get]" λ result.
        require (rpc.world == i.prompt_arg_value) "[Section5][prompts/get-handler-arg]" (
          require (contains (codes i.prompt_text) (result_text digits result))
            "[Section5][prompts/get-body]" (pass "[Section5][prompts/get]" ∷ []))

    -- An iteration of the loop: prompts/list first, and then prompts/get.
    unfoldable pub check_prompt : List Verdict
    unfolding require require_answer result_text prompt_server run_one_rpc check_get
    check_prompt =
        let listed =
          run_one_rpc go prompt_server "" (must_request go 30 "prompts/list" no_params) in
        require_answer listed "[Section5][prompts/list]" λ result.
          require (contains (codes i.prompt_name) (result_text digits result))
            "[Section5][prompts/list]"
            (check_get (
              run_one_rpc go prompt_server listed.world
                (must_request go 31 "prompts/get" (marshalled get_document))))

unfoldable pub section5 : Runtime → Digits → List FixtureInput → List Verdict
unfolding for_inputs check_prompt
section5 go digits inputs = for_inputs (λ i. check_prompt i go digits) inputs
