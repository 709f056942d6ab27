-- ===== src/Runner/Passing/Tools.antt =====
-- Section 3 of the runner.
use Prim.Native.String
use mcp_module.Common.{
  false, some, List, [], ◌∷◌, map, insert, lookup, traverse, ◌≡◌, refl, ap, ◌∙◌, eq_refl, arith,
  All,
}
use mcp_module.Json.{
  Value, str, object, string, Runtime, unmarshal, entry_of, dict_of, fields, members,
}
use mcp_module.Json.Text.{Digits, IsPlain}
use mcp_module.I18n.{noop_translator}
use mcp_module.Range.{VisitsAll, range-single}
use mcp_module.Protocol.{no_params, ok, new_response, is_error}
use mcp_module.Protocol.Content.{Tool, ToolResult, new_text_content}
use mcp_module.Protocol.Codec.{encode_tool, encode_result, decode_any_map}
use mcp_module.Server.Dispatch.{
  reply, handle_request, respond, dispatch, method_of, handle_call_tool, call_tool_with, run_tool,
  answer_tool, encode_result_pointer, list_field,
}
use mcp_module.Client.Remote.{wire_id, arrived}
use mcp_module.Client.Remote.Lists.{tools_handled}
use mcp_module.Client.Remote.Tools.{read_call_params_lem}
use mcp_module.Runner.{FixtureInput, pass, require, run_one_rpc, must_request, result_text}
use mcp_module.Runner.Answers.{KeepsSmall, replied, run-bare, run-with}
use mcp_module.Runner.Shown.{tool_shown, echo_shown}
use mcp_module.Runner.Tools.{
  capture, echo_handler, tool_server, call_document, check_call, check_tool, section3,
}
use mcp_module.Runner.Passing.{for_inputs-map}

-- The tool's name and the echo of the value are plain.
abbrev pub IsCallable : FixtureInput → Type 0
IsCallable i = IsPlain i.tool_name × IsPlain (String.◌++◌ "ECHO:" i.tool_arg_value)

module _ (go : Runtime) (small : KeepsSmall go) (i : FixtureInput) where
  abbrev tool : Tool
  tool = record { name = i.tool_name; description = i.tool_description; input_schema = [] }

  abbrev echoed : ToolResult
  echoed = record {
    content = new_text_content (String.◌++◌ "ECHO:" i.tool_arg_value) ∷ [];
    is_error = false;
  }

  list_rpc :
      (visits : VisitsAll go) {v : Value}
      → encode_tool tool ≡ some v
      → run_one_rpc go (tool_server i) "" (must_request go 10 "tools/list" no_params)
        ≡ replied "" (respond go (wire_id 10) (some (list_field "tools" (v ∷ []))))
  unfolding tool_server insert traverse
  list_rpc visits {v} e = run-bare go small (tool_server i) "" 10 (omega arith) "tools/list" _ (
      tools_handled go noop_translator (tool_server i) "" 10 (
        ap (λ es. traverse encode_tool (map (λ x. x.tool) es))
          (range-single go i.tool_name _ visits)
        ∙ rw e refl))

  arguments_read :
      decode_any_map go (some (object ((i.tool_arg_key, str i.tool_arg_value) ∷ [])))
      ≡ some ((i.tool_arg_key, string i.tool_arg_value) ∷ [])
  unfolding decode_any_map dict_of entry_of traverse fields members unmarshal
  arguments_read = refl

  tool_found :
      lookup i.tool_name (tool_server i).tools
      ≡ some (record { tool = tool; handler = echo_handler i.tool_arg_key })
  unfolding tool_server insert lookup
  tool_found = rw (eq_refl i.tool_name) refl

  handler_echoes :
      echo_handler i.tool_arg_key "" ((i.tool_arg_key, string i.tool_arg_value) ∷ [])
      ≡ (i.tool_arg_value, ok (some echoed))
  unfolding echo_handler lookup capture
  handler_echoes = rw (eq_refl i.tool_arg_key) refl

  call_handled :
      handle_request go noop_translator
        (arrived 11 "tools/call" (some (call_document i)))
        (tool_server i)
        ""
      ≡ (i.tool_arg_value, reply (respond go (wire_id 11) (some (encode_result echoed))))
  unfolding handle_request method_of dispatch handle_call_tool answer_tool encode_result_pointer
  call_handled =
      rw
        (
          read_call_params_lem go i.tool_name ((i.tool_arg_key, str i.tool_arg_value) ∷ [])
              arguments_read,
          call_tool_with,
        )
        (rw (tool_found, run_tool) (rw handler_echoes refl))

  module _ (digits : Digits) (h : IsCallable i) where
    check_call-pass :
        check_call i go digits
          (replied i.tool_arg_value (respond go (wire_id 11) (some (encode_result echoed))))
        ≡ pass "[Section3][tools/call]" ∷ []
    unfolding check_call result_text respond new_response is_error
    check_call-pass =
        rw (eq_refl i.tool_arg_value, require)
          (rw (echo_shown digits (String.◌++◌ "ECHO:" i.tool_arg_value) h.1, require) refl)

    check_tool-pass : VisitsAll go → check_tool i go digits ≡ pass "[Section3][tools/call]" ∷ []
    unfolding check_tool result_text respond new_response is_error
    check_tool-pass visits =
        let (v, written, found) = tool_shown digits i.tool_name i.tool_description h.0 in
        rw (list_rpc visits written) (
          rw (found, require)
            (rw
              (run-with go small (tool_server i) "" 11 (omega arith) "tools/call" _
                (call_document i) call_handled)
              check_call-pass))

-- The third section passes once for each input.
pub section3-pass :
    (go : Runtime) (digits : Digits)
    → KeepsSmall go
    → VisitsAll go
    → (inputs : List FixtureInput) → All IsCallable inputs
    → section3 go digits inputs ≡ map (λ _. pass "[Section3][tools/call]") inputs
unfolding section3
section3-pass go digits small visits =
    for_inputs-map (λ i. check_tool i go digits) (pass "[Section3][tools/call]") IsCallable
      (λ i h. check_tool-pass go small i digits h visits)
