-- ===== src/Server/Dispatch.antt =====
-- pkg/server/server.go: handleRequest and the handler of each method.
use mcp_module.Common.{
  String, Option, none, some, List, [], ◌∷◌, map, Dict, lookup, if◌then◌else◌, ◌==◌, traverse,
  ◌>>=◌,
}
use mcp_module.Json.{
  Value, null, arr, items, object, Any, absent, string, Runtime, struct_of, find_field, string_of,
  dict_of,
}
use mcp_module.I18n.{Translator}
use mcp_module.Range.{range}
use mcp_module.Protocol.{
  Result, ok, failed, Request, Response, new_response, new_error_response, mcp_protocol_version,
  code_method_not_found, code_invalid_params, code_internal_error,
}
use mcp_module.Protocol.Content.{ToolResult, ResourceContent, PromptMessage}
use mcp_module.Protocol.Codec.{decode_any_map, encode_tool, encode_result}
use mcp_module.Protocol.Codec.Catalog.{
  encode_resource, encode_content, encode_prompt, encode_message,
}
use mcp_module.Protocol.Codec.Handshake.{encode_initialize_result}
use mcp_module.Server.Tables.{ToolEntry, ResourceEntry, PromptEntry, Tables, capabilities}

-- What dispatch does: a response, no response (nil), or a panic in the server's own code.
pub data Reaction : Type 0 where
  reply : Response → Reaction
  silent : Reaction
  panicked : Reaction

-- The methods that handleRequest knows, and its comparison of `req.Method` with their names.
pub data Method : Type 0 where
  initialize list_tools call_tool list_resources read_resource list_prompts get_prompt : Method
  initialized other : Method

unfoldable pub method_of : String → Method
method_of m =
    if m == "initialize"
    then Method.initialize
    else if m == "tools/list"
    then Method.list_tools
    else if m == "tools/call"
    then Method.call_tool
    else if m == "resources/list"
    then Method.list_resources
    else if m == "resources/read"
    then Method.read_resource
    else if m == "prompts/list"
    then Method.list_prompts
    else if m == "prompts/get"
    then Method.get_prompt
    else if m == "notifications/initialized"
    then Method.initialized
    else Method.other

-- `resp, err := NewResponse(id, result)`, with the error answered as an internal error.
unfoldable pub respond : Runtime → Any → Option Value → Response
respond go id result = elim (new_response go id result) [
  | ok response ↦ response
  | failed message ↦ new_error_response id code_internal_error message absent
]

-- The parameters of tools/call, resources/read and prompts/get. Without params there is no JSON to
-- read, which is an error.
unfoldable pub read_call_params : Runtime → Option Value → Option (String × Dict Any)
read_call_params go none = none
read_call_params go (some v) = do
  fs ← struct_of v
  name ← string_of (find_field "name" fs)
  arguments ← decode_any_map go (find_field "arguments" fs)
  some (name, arguments)

unfoldable pub read_uri_params : Option Value → Option String
read_uri_params none = none
read_uri_params (some v) = do fs ← struct_of v; string_of (find_field "uri" fs)

unfoldable pub read_prompt_params : Option Value → Option (String × Dict String)
read_prompt_params none = none
read_prompt_params (some v) = do
  fs ← struct_of v
  name ← string_of (find_field "name" fs)
  arguments ← dict_of (λ v. string_of (some v)) (find_field "arguments" fs)
  some (name, arguments)

unfoldable pub invalid_params : Runtime → Request → Response
invalid_params go req =
    new_error_response req.id code_invalid_params "invalid parameters"
      (string (go.unmarshal_error req.params))

-- A name that no table binds.
unfoldable pub unknown : Translator → Request → String → String → String → Response
unknown translator req msg_id key name =
    new_error_response req.id code_invalid_params (translator.t msg_id ((key, string name) ∷ []))
      absent

unfoldable pub list_field : String → List Value → Value
list_field name vs = object ((name, arr (items vs)) ∷ [])

-- json.Marshal of a pointer to a ToolResult.
unfoldable pub encode_result_pointer : Option ToolResult → Value
encode_result_pointer none = null
encode_result_pointer (some r) = encode_result r

-- After the handler has run: its error, or its result.
unfoldable pub answer_tool : Runtime → Any → Result (Option ToolResult) → Reaction
answer_tool go id (failed message) =
    reply (new_error_response id code_internal_error message absent)
answer_tool go id (ok result) = reply (respond go id (some (encode_result_pointer result)))

-- A nil *ResourceContent is dereferenced.
unfoldable pub answer_resource : Runtime → Any → Result (Option ResourceContent) → Reaction
answer_resource go id (failed message) =
    reply (new_error_response id code_internal_error message absent)
answer_resource go id (ok none) = panicked
answer_resource go id (ok (some content)) =
    reply (respond go id (some (list_field "contents" (encode_content content ∷ []))))

unfoldable pub answer_prompt : Runtime → Any → Result (List PromptMessage) → Reaction
answer_prompt go id (failed message) =
    reply (new_error_response id code_internal_error message absent)
answer_prompt go id (ok messages) =
    reply (respond go id (some (list_field "messages" (map encode_message messages))))

unfoldable pub method_not_found : Translator → Request → Response
method_not_found translator req =
    new_error_response req.id code_method_not_found
      (translator.t "mcp_module_method_not_found" (("method", string req.method) ∷ [])) absent

module _ {W : Type 0} (go : Runtime) where
  unfoldable pub handle_initialize : Request → Tables W → Response
  handle_initialize req s = respond go req.id (
      some (
        encode_initialize_result (record {
          protocol_version = mcp_protocol_version;
          capabilities = capabilities s;
          server_info = s.info;
        })))

  unfoldable pub handle_list_tools : Request → Tables W → Response
  handle_list_tools req s = respond go req.id do
    vs ← traverse encode_tool (map (λ e. e.tool) (range go s.tools))
    some (list_field "tools" vs)

  unfoldable pub handle_list_resources : Request → Tables W → Response
  handle_list_resources req s = respond go req.id (
      some (
        list_field "resources"
          (map encode_resource (map (λ e. e.resource) (range go s.resources)))))

  unfoldable pub handle_list_prompts : Request → Tables W → Response
  handle_list_prompts req s =
      respond go req.id
        (some (list_field "prompts" (map encode_prompt (map (λ e. e.prompt) (range go s.prompts)))))

module _ {W : Type 0} (go : Runtime) (translator : Translator) where
  -- What is done with the entry that the table binds to the name, if any.
  unfoldable pub run_tool : Request → W → String → Dict Any → Option (ToolEntry W) → W × Reaction
  run_tool req w name arguments none =
      (w, reply (unknown translator req "mcp_module_unknown_tool" "name" name))
  run_tool req w name arguments (some entry) =
      let (w', result) = entry.handler w arguments in (w', answer_tool go req.id result)

  unfoldable pub call_tool_with : Request → Tables W → W → Option (String × Dict Any) → W × Reaction
  call_tool_with req s w none = (w, reply (invalid_params go req))
  call_tool_with req s w (some (name, arguments)) =
      run_tool req w name arguments (lookup name s.tools)

  unfoldable pub handle_call_tool : Request → Tables W → W → W × Reaction
  unfolding call_tool_with run_tool
  handle_call_tool req s w = call_tool_with req s w (read_call_params go req.params)

  unfoldable pub run_resource : Request → W → String → Option (ResourceEntry W) → W × Reaction
  run_resource req w uri none =
      (w, reply (unknown translator req "mcp_module_unknown_resource" "uri" uri))
  run_resource req w uri (some entry) =
      let (w', result) = entry.handler w uri in (w', answer_resource go req.id result)

  unfoldable pub read_resource_with : Request → Tables W → W → Option String → W × Reaction
  read_resource_with req s w none = (w, reply (invalid_params go req))
  read_resource_with req s w (some uri) = run_resource req w uri (lookup uri s.resources)

  unfoldable pub handle_read_resource : Request → Tables W → W → W × Reaction
  unfolding read_resource_with run_resource
  handle_read_resource req s w = read_resource_with req s w (read_uri_params req.params)

  unfoldable pub run_prompt :
      Request → W → String → Dict String → Option (PromptEntry W) → W × Reaction
  run_prompt req w name arguments none =
      (w, reply (unknown translator req "mcp_module_unknown_prompt" "name" name))
  run_prompt req w name arguments (some entry) =
      let (w', result) = entry.handler w arguments in (w', answer_prompt go req.id result)

  unfoldable pub get_prompt_with :
      Request → Tables W → W → Option (String × Dict String) → W × Reaction
  get_prompt_with req s w none = (w, reply (invalid_params go req))
  get_prompt_with req s w (some (name, arguments)) =
      run_prompt req w name arguments (lookup name s.prompts)

  unfoldable pub handle_get_prompt : Request → Tables W → W → W × Reaction
  unfolding get_prompt_with run_prompt
  handle_get_prompt req s w = get_prompt_with req s w (read_prompt_params req.params)

  -- The cases of the switch in handleRequest.
  unfoldable pub dispatch : Method → Request → Tables W → W → W × Reaction
  dispatch Method.initialize req s w = (w, reply (handle_initialize go req s))
  dispatch Method.list_tools req s w = (w, reply (handle_list_tools go req s))
  dispatch Method.call_tool req s w = handle_call_tool req s w
  dispatch Method.list_resources req s w = (w, reply (handle_list_resources go req s))
  dispatch Method.read_resource req s w = handle_read_resource req s w
  dispatch Method.list_prompts req s w = (w, reply (handle_list_prompts go req s))
  dispatch Method.get_prompt req s w = handle_get_prompt req s w
  dispatch Method.initialized req s w = (w, silent)
  dispatch Method.other req s w = (w, reply (method_not_found translator req))

  unfoldable pub handle_request : Request → Tables W → W → W × Reaction
  handle_request req s w = dispatch (method_of req.method) req s w
