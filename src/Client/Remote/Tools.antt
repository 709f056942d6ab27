-- ===== src/Client/Remote/Tools.antt =====
-- pkg/client CallTool against pkg/server handleCallTool.
use Prim.Native.Nat.{◌+◌}
use mcp_module.Common.{String, Option, some, [], ◌∷◌, Dict, lookup, ◌≡◌, refl}
use mcp_module.Json.{
  Value, Any, absent, Runtime, str, object, struct_of, fields, members, find_field, string_of,
  marshal, unmarshal, null,
}
use mcp_module.I18n.{Translator}
use mcp_module.Protocol.{
  Result, ok, failed, jsonrpc_version, new_response, new_error_response, code_internal_error,
}
use mcp_module.Protocol.Content.{ToolResult}
use mcp_module.Protocol.Codec.{decode_any_map}
use mcp_module.Protocol.Codec.Messages.{Survives, MapSurvives, any_map_kept, decode-encode_result}
use mcp_module.Server.Tables.{Tables, ToolEntry}
use mcp_module.Server.Dispatch.{
  handle_request, respond, dispatch, method_of, handle_call_tool, call_tool_with, run_tool,
  read_call_params, answer_tool, encode_result_pointer,
}
use mcp_module.Client.Results.{rpc, received, refused, parse_result}
use mcp_module.Client.Operations.{call_tool, then_parse, to_params, call_params}
use mcp_module.Client.Exchange.{IsExact, Joined, exchange}
use mcp_module.Client.Remote.{wire_id, after, exchange-reply}

pub read_call_params_lem :
    (go : Runtime) (name : String) (fs : Dict Value) {args : Dict Any}
    → decode_any_map go (some (object fs)) ≡ some args
    → read_call_params go (some (object (("arguments", object fs) ∷ ("name", str name) ∷ [])))
      ≡ some (name, args)
unfolding read_call_params struct_of fields members find_field string_of
read_call_params_lem go name fs h = rw h

-- An error without data that names its code is read back.
absent-Survives : (go : Runtime) → Survives go absent
unfolding marshal unmarshal
absent-Survives go = record { written = null; writes = refl; reads = refl }

module _ {W : Type 0} (go : Runtime) (translator : Translator) (s : Tables W) (c : Joined W)
    (exact : IsExact go (c.next_id + 1)) where
  -- CallTool returns what the handler of the registered tool returned for the same arguments, and
  -- its error as an internal error of the server.
  module _ (name : String) (args : Dict Any) {entry : ToolEntry W} {w' : W}
      (args_survive : MapSurvives go args) (found : lookup name s.tools ≡ some entry) where
    call_tool_arrives :
        {r : Result (Option ToolResult)} (id : Any)
        → entry.handler c.world args ≡ (w', r)
        → (v : Value) × (call_params name args ≡ some v)
          × (handle_request go translator
                (record {
                  jsonrpc = jsonrpc_version;
                  id = id;
                  method = "tools/call";
                  params = some v;
                })
                s
                c.world
              ≡ (w', answer_tool go id r))
    unfolding handle_request method_of dispatch handle_call_tool call_params
    call_tool_arrives {r} id h =
        let (fs, written, read) = any_map_kept go args args_survive in
        (
          object (("arguments", object fs) ∷ ("name", str name) ∷ []),
          rw written refl,
          rw (read_call_params_lem go name fs read, call_tool_with)
              (rw (found, run_tool) (rw h refl)),
        )

    -- CallTool returns the result that the handler registered under the name gives for these
    -- arguments, where they survive the wire and the request's id is below 2^63 and exact as a float64.
    pub call_tool-ok :
        (result : ToolResult)
        → entry.handler c.world args ≡ (w', ok (some result))
        → call_tool go (exchange go translator s) name args c ≡ (after c w', received result)
    unfolding call_tool to_params answer_tool encode_result_pointer respond new_response then_parse
        parse_result
    call_tool-ok result h =
        let (v, written, handled) = call_tool_arrives (wire_id (c.next_id + 1)) h in
        rw written (
          rw (exchange-reply go translator s c exact "tools/call" v handled refl tt)
            (rw (decode-encode_result result) refl))

    -- The error of the handler reaches the caller as an internal error of the server with the
    -- same message, under the same conditions.
    pub call_tool-failed :
        (message : String)
        → entry.handler c.world args ≡ (w', failed message)
        → call_tool go (exchange go translator s) name args c ≡ (
          after c w',
          refused
              (rpc (record { code = code_internal_error; message = message; payload = absent })),
        )
    unfolding call_tool to_params answer_tool new_error_response then_parse parse_result
    call_tool-failed message h =
        let (v, written, handled) = call_tool_arrives (wire_id (c.next_id + 1)) h in
        rw written (
          rw
            (exchange-reply go translator s c exact "tools/call" v handled refl
              (record { code_fits = refl; payload_survives = absent-Survives go }))
            refl)
