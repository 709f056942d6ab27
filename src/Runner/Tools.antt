-- ===== src/Runner/Tools.antt =====
-- challenges/runner/main.go: section3RegisterToolAndCall. The world of the handler is `capturedArg`.
use Prim.Native.String
use mcp_module.Common.{
  String, false, Option, some, List, [], ◌∷◌, Dict, lookup, codes, contains, ◌==◌,
}
use mcp_module.Json.{Value, Any, string, str, object, Runtime}
use mcp_module.Json.Text.{Digits}
use mcp_module.Protocol.{no_params, marshalled, Result, ok}
use mcp_module.Protocol.Content.{ToolResult, new_text_content}
use mcp_module.Server.Tables.{Tables, new_tables, register_tool}
use mcp_module.Runner.{
  FixtureInput, Verdict, pass, require, Rpc, must_request, run_one_rpc, require_answer, result_text,
  for_inputs,
}

-- `if v, ok := args[key].(string); ok { capturedArg = v }`.
unfoldable pub capture : String → Option Any → String
capture captured (some (string v)) = v
capture captured _ = captured

-- The handler answers with what it has captured.
unfoldable pub echo_handler : String → String → Dict Any → String × Result (Option ToolResult)
unfolding capture
echo_handler key captured args =
    let captured' = capture captured (lookup key args) in
    (
      captured',
      ok (
          some (record {
            content = new_text_content (String.◌++◌ "ECHO:" captured') ∷ [];
            is_error = false;
          })),
    )

module _ (i : FixtureInput) where
  unfoldable pub tool_server : Tables String
  unfolding echo_handler register_tool new_tables
  tool_server =
      register_tool
        (record { name = i.tool_name; description = i.tool_description; input_schema = [] })
        (echo_handler i.tool_arg_key) (new_tables "round-267-mcp-call" "0.267.0")

  abbrev pub call_document : Value
  call_document = object (
      ("arguments", object ((i.tool_arg_key, str i.tool_arg_value) ∷ []))
      ∷ ("name", str i.tool_name)
      ∷ [])

  module _ (go : Runtime) (digits : Digits) where
    unfoldable pub check_call : Rpc String → List Verdict
    unfolding require require_answer result_text
    check_call rpc = require_answer rpc "[Section3][tools/call]" λ result.
        require (rpc.world == i.tool_arg_value) "[Section3][handler-capture]" (
          require
            (contains (codes (String.◌++◌ "ECHO:" i.tool_arg_value)) (result_text digits result))
            "[Section3][result-payload]" (pass "[Section3][tools/call]" ∷ []))

    -- An iteration of the loop: tools/list first, and then tools/call.
    unfoldable pub check_tool : List Verdict
    unfolding require require_answer result_text tool_server run_one_rpc check_call
    check_tool =
        let listed = run_one_rpc go tool_server "" (must_request go 10 "tools/list" no_params) in
        require_answer listed "[Section3][tools/list]" λ result.
          require (contains (codes i.tool_name) (result_text digits result))
            "[Section3][tools/list]"
            (check_call (
              run_one_rpc go tool_server listed.world
                (must_request go 11 "tools/call" (marshalled call_document))))

unfoldable pub section3 : Runtime → Digits → List FixtureInput → List Verdict
unfolding for_inputs check_tool
section3 go digits inputs = for_inputs (λ i. check_tool i go digits) inputs
