-- ===== src/Client/Operations.antt =====
-- pkg/client/stdio_client.go and http_client.go: the operations of the interface Client, the same
-- in both clients but for the notification at the end of StdioClient.Initialize. They use
-- sendRequest, which here is a function of the client's state, the method and the params.
use Prim.Native.String
use mcp_module.Common.{String, Option, none, some, List, [], ◌∷◌, map, Dict, ◌>>=◌}
use mcp_module.Json.{Value, null, str, object, Any, dict, Runtime}
use mcp_module.Protocol.{
  Result, ok, failed, Request, new_notification, Params, no_params, unmarshalable, marshalled,
  Response, mcp_protocol_version,
}
use mcp_module.Protocol.Content.{
  Tool, ToolResult, Resource, ResourceContent, Prompt, PromptMessage, InitializeResult, ClientInfo,
}
use mcp_module.Protocol.Codec.{encode_any_map, decode_result, encode_request}
use mcp_module.Protocol.Codec.Handshake.{encode_initialize_params, decode_initialize_result}
use mcp_module.Client.Results.{
  local, wrapped, Outcome, received, refused, parse_result, list_tools_result,
  list_resources_result, read_resource_result, list_prompts_result, get_prompt_result,
}

abbrev pub Send : Type 0 → Type 0
Send S = S → String → Params → S × Outcome Response

unfoldable pub to_params : Option Value → Params
to_params none = unmarshalable
to_params (some v) = marshalled v

-- `if err != nil { return nil, err }`, and then the response is parsed.
unfoldable pub then_parse {ℓ} :
    {A : Type ℓ} → Runtime → (Value → Option A) → Outcome Response → Outcome A
then_parse go read (refused e) = refused e
then_parse go read (received resp) = parse_result go read resp

-- The first of the contents.
unfoldable pub first_content : String → Outcome (List ResourceContent) → Outcome ResourceContent
first_content uri (refused e) = refused e
first_content uri (received []) =
    refused (local (String.◌++◌ "no content returned for resource: " uri))
first_content uri (received (c ∷ _)) = received c

-- The params that an operation sends: a map with its arguments.
unfoldable pub call_params : String → Dict Any → Option Value
call_params name args = do
  fs ← encode_any_map args
  some (object (("arguments", object fs) ∷ ("name", str name) ∷ []))

unfoldable pub uri_params : String → Value
uri_params uri = object (("uri", str uri) ∷ [])

unfoldable pub prompt_params : String → Dict String → Value
prompt_params name args =
    object (("arguments", object (map (λ e. (e.0, str e.1)) args)) ∷ ("name", str name) ∷ [])

unfoldable pub initialize_params : ClientInfo → Option Value
initialize_params info =
    encode_initialize_params (record {
      protocol_version = mcp_protocol_version;
      capabilities = dict [];
      client_info = info;
    })

unfoldable pub wrap_failure {ℓ} : {A : Type ℓ} → String → Outcome A → Outcome A
wrap_failure prefix (refused e) = refused (wrapped prefix e)
wrap_failure prefix (received a) = received a

-- What Initialize makes of the response.
unfoldable pub initialize_outcome : Runtime → Outcome Response → Outcome InitializeResult
unfolding wrap_failure
initialize_outcome go (refused e) = refused (wrapped "initialize failed: " e)
initialize_outcome go (received resp) =
    wrap_failure "failed to parse initialize result: "
      (parse_result go decode_initialize_result resp)

-- The notification at the end of StdioClient.Initialize, as it is written; the errors are dropped, so
-- that a nil request is written as null, and a blank line where json.Marshal fails.
unfoldable pub notification_line : Result Request → Option Value
notification_line (failed _) = some null
notification_line (ok req) = encode_request req

unfoldable pub initialized_line : Runtime → Option Value
unfolding notification_line
initialized_line go =
    notification_line (new_notification go "notifications/initialized" (marshalled (object [])))

-- A notification follows only where Initialize returns a result.
unfoldable pub then_notify {ℓ} :
    {A S : Type ℓ} → (S → Option Value → S) → Option Value → S × Outcome A → S × Outcome A
then_notify note line (c, refused e) = (c, refused e)
then_notify note line (c, received a) = (note c line, received a)

module _ {S : Type 0} (go : Runtime) (send : Send S) where
  unfoldable pub initialize : ClientInfo → S → S × Outcome InitializeResult
  initialize info c =
      let (c', o) = send c "initialize" (to_params (initialize_params info)) in
      (c', initialize_outcome go o)

  -- StdioClient.Initialize; `note` writes a line to the server.
  unfoldable pub stdio_initialize :
      (S → Option Value → S) → ClientInfo → S → S × Outcome InitializeResult
  unfolding then_notify initialized_line
  stdio_initialize note info c = then_notify note (initialized_line go) (initialize info c)

  unfoldable pub list_tools : S → S × Outcome (List Tool)
  list_tools c =
      let (c', o) = send c "tools/list" no_params in (c', then_parse go (list_tools_result go) o)

  unfoldable pub call_tool : String → Dict Any → S → S × Outcome ToolResult
  call_tool name args c =
      let (c', o) = send c "tools/call" (to_params (call_params name args)) in
      (c', then_parse go decode_result o)

  unfoldable pub list_resources : S → S × Outcome (List Resource)
  list_resources c =
      let (c', o) = send c "resources/list" no_params in (c', then_parse go list_resources_result o)

  unfoldable pub read_resource : String → S → S × Outcome ResourceContent
  read_resource uri c =
      let (c', o) = send c "resources/read" (marshalled (uri_params uri)) in
      (c', first_content uri (then_parse go read_resource_result o))

  unfoldable pub list_prompts : S → S × Outcome (List Prompt)
  list_prompts c =
      let (c', o) = send c "prompts/list" no_params in (c', then_parse go list_prompts_result o)

  unfoldable pub get_prompt : String → Dict String → S → S × Outcome (List PromptMessage)
  get_prompt name args c =
      let (c', o) = send c "prompts/get" (marshalled (prompt_params name args)) in
      (c', then_parse go get_prompt_result o)
