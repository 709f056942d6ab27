-- ===== src/Server/Replies.antt =====
-- Which replies the dispatch of pkg/server/server.go gives.
use mcp_module.Common.{
  String, Option, none, some, List, Dict, lookup, ◌≡◌, ◌≢◌, ◌↔◌, refl, arith, eq_iff, subst,
}
use mcp_module.Json.{Any, Runtime, Value}
use mcp_module.I18n.{Translator}
use mcp_module.Protocol.{
  Result, ok, failed, Request, Response, new_response, new_error_response, jsonrpc_version, is_some,
}
use mcp_module.Protocol.Content.{ToolResult, ResourceContent, PromptMessage}
use mcp_module.Server.Tables.{Tables, ToolEntry, ResourceEntry, PromptEntry}
use mcp_module.Server.Dispatch.{
  Reaction, reply, silent, panicked, respond, answer_tool, answer_resource, answer_prompt,
  handle_initialize, handle_list_tools, handle_list_resources, handle_list_prompts,
  handle_call_tool, handle_read_resource, handle_get_prompt, method_not_found, invalid_params,
  unknown, handle_request, read_call_params, read_uri_params, read_prompt_params, Method,
  initialize, list_tools, call_tool, list_resources, read_resource, list_prompts, get_prompt,
  initialized, other, method_of, dispatch, run_tool, call_tool_with, run_resource,
  read_resource_with, run_prompt, get_prompt_with,
}

-- A response of JSON-RPC 2.0 to a request with that id: it repeats the id, and holds either a
-- result or an error.
pub record Answers (id : Any) (r : Response) : Type 0 where
  pub version : r.jsonrpc ≡ jsonrpc_version
  pub same_id : r.id ≡ id
  pub one_of : is_some r.result ≢ is_some r.error

-- What a method may lead to: a response that answers the id; no response, for the notification
-- alone; a panic, for resources/read alone.
abbrev pub Fits : Method → Any → Reaction → Type 0
Fits m id (reply r) = Answers id r
Fits m id silent = m ≡ initialized
Fits m id panicked = m ≡ read_resource

module _ (go : Runtime) (id : Any) where
  respond-Answers : (o : Option Value) → Answers id (respond go id o)
  unfolding respond new_response new_error_response
  respond-Answers none = ground arith
  respond-Answers (some v) = ground arith

  answer_tool-Fits : (r : Result (Option ToolResult)) → Fits call_tool id (answer_tool go id r)
  unfolding answer_tool new_error_response
  answer_tool-Fits (ok r) = respond-Answers _
  answer_tool-Fits (failed m) = ground arith

  answer_resource-Fits :
      (r : Result (Option ResourceContent)) → Fits read_resource id (answer_resource go id r)
  unfolding answer_resource new_error_response
  answer_resource-Fits (ok none) = refl
  answer_resource-Fits (ok (some c)) = respond-Answers _
  answer_resource-Fits (failed m) = ground arith

  answer_prompt-Fits :
      (r : Result (List PromptMessage)) → Fits get_prompt id (answer_prompt go id r)
  unfolding answer_prompt new_error_response
  answer_prompt-Fits (ok ms) = respond-Answers _
  answer_prompt-Fits (failed m) = ground arith

module _ {W : Type 0} (go : Runtime) (translator : Translator) (req : Request) (s : Tables W)
    (w : W) where
  run_tool-Fits :
      (name : String) (arguments : Dict Any) (o : Option (ToolEntry W))
      → Fits call_tool req.id (run_tool go translator req w name arguments o).1
  unfolding run_tool unknown new_error_response
  run_tool-Fits name arguments none = ground arith
  run_tool-Fits name arguments (some e) = answer_tool-Fits go req.id (e.handler w arguments).1

  call_tool_with-Fits :
      (o : Option (String × Dict Any))
      → Fits call_tool req.id (call_tool_with go translator req s w o).1
  unfolding call_tool_with invalid_params new_error_response
  call_tool_with-Fits none = ground arith
  call_tool_with-Fits (some (name, arguments)) = run_tool-Fits name arguments (lookup name s.tools)

  run_resource-Fits :
      (uri : String) (o : Option (ResourceEntry W))
      → Fits read_resource req.id (run_resource go translator req w uri o).1
  unfolding run_resource unknown new_error_response
  run_resource-Fits uri none = ground arith
  run_resource-Fits uri (some e) = answer_resource-Fits go req.id (e.handler w uri).1

  read_resource_with-Fits :
      (o : Option String) → Fits read_resource req.id (read_resource_with go translator req s w o).1
  unfolding read_resource_with invalid_params new_error_response
  read_resource_with-Fits none = ground arith
  read_resource_with-Fits (some uri) = run_resource-Fits uri (lookup uri s.resources)

  run_prompt-Fits :
      (name : String) (arguments : Dict String) (o : Option (PromptEntry W))
      → Fits get_prompt req.id (run_prompt go translator req w name arguments o).1
  unfolding run_prompt unknown new_error_response
  run_prompt-Fits name arguments none = ground arith
  run_prompt-Fits name arguments (some e) = answer_prompt-Fits go req.id (e.handler w arguments).1

  get_prompt_with-Fits :
      (o : Option (String × Dict String))
      → Fits get_prompt req.id (get_prompt_with go translator req s w o).1
  unfolding get_prompt_with invalid_params new_error_response
  get_prompt_with-Fits none = ground arith
  get_prompt_with-Fits (some (name, arguments)) =
      run_prompt-Fits name arguments (lookup name s.prompts)

  dispatch-Fits : (m : Method) → Fits m req.id (dispatch go translator m req s w).1
  unfolding dispatch handle_call_tool handle_read_resource handle_get_prompt handle_initialize
      handle_list_tools handle_list_resources handle_list_prompts method_not_found
      new_error_response
  dispatch-Fits initialize = respond-Answers go req.id _
  dispatch-Fits list_tools = respond-Answers go req.id _
  dispatch-Fits call_tool = call_tool_with-Fits (read_call_params go req.params)
  dispatch-Fits list_resources = respond-Answers go req.id _
  dispatch-Fits read_resource = read_resource_with-Fits (read_uri_params req.params)
  dispatch-Fits list_prompts = respond-Answers go req.id _
  dispatch-Fits get_prompt = get_prompt_with-Fits (read_prompt_params req.params)
  dispatch-Fits initialized = refl
  dispatch-Fits other = ground arith

pub handle_request-Fits :
    {W : Type 0} (go : Runtime) (translator : Translator) (req : Request) (s : Tables W) (w : W)
    → Fits (method_of req.method) req.id (handle_request go translator req s w).1
unfolding handle_request
handle_request-Fits go translator req s w =
    dispatch-Fits go translator req s w (method_of req.method)

-- A name is read as the notification only if it is the notification's.
pub method_of-initialized_iff :
    (m : String) → (method_of m ≡ initialized) ↔ (m ≡ "notifications/initialized")
unfolding method_of
method_of-initialized_iff m =
    (λ h. ground (arith, eq_iff m "notifications/initialized"), λ h. rw h refl)

pub method_of-read_resource : (m : String) → method_of m ≡ read_resource → m ≡ "resources/read"
unfolding method_of
method_of-read_resource m h = ground (arith, eq_iff m "resources/read")

-- handleRequest returns nil, with no response to send, exactly for the method
-- "notifications/initialized".
pub handle_request-silent_iff :
    {W : Type 0} (go : Runtime) (translator : Translator) (req : Request) (s : Tables W) (w : W)
    → ((handle_request go translator req s w).1 ≡ silent)
      ↔ (req.method ≡ "notifications/initialized")
unfolding handle_request dispatch
handle_request-silent_iff go translator req s w = (
  λ h.
      (method_of-initialized_iff req.method).0
        (subst (Fits (method_of req.method) req.id) h (handle_request-Fits go translator req s w)),
  λ h. rw ((method_of-initialized_iff req.method).1 h, dispatch) refl,
)

pub reply-method :
    {W : Type 0} (go : Runtime) (translator : Translator) (req : Request) (s : Tables W) (w : W)
    {r : Response}
    → (handle_request go translator req s w).1 ≡ reply r
    → req.method ≢ "notifications/initialized"
reply-method go translator req s w e m =
    let quiet = (handle_request-silent_iff go translator req s w).1 m in cc
