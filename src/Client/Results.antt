-- ===== src/Client/Results.antt =====
-- pkg/client/client.go: parseResult, and the result types of the operations.
use mcp_module.Common.{String, Option, none, some, List, ◌>>=◌}
use mcp_module.Json.{Value, Runtime, struct_of, list_of, find_field}
use mcp_module.Protocol.{RpcError, Response}
use mcp_module.Protocol.Content.{Tool, Resource, ResourceContent, Prompt, PromptMessage}
use mcp_module.Protocol.Codec.{decode_tool}
use mcp_module.Protocol.Codec.Catalog.{
  decode_resource, decode_content, decode_prompt, decode_message,
}

-- The error that an operation returns: the server's own, one of the client's, one of these behind a
-- prefix (fmt.Errorf with %w), or that of the context where no response has come in time.
pub data Failure : Type 0 where
  rpc : RpcError → Failure
  local : String → Failure
  wrapped : (prefix : String) → Failure → Failure
  unanswered : Failure

pub data Outcome {ℓ} (A : Type ℓ) : Type ℓ where
  received : A → Outcome A
  refused : Failure → Outcome A

unfoldable pub read_target {ℓ} : {A : Type ℓ} → Runtime → Value → Option A → Outcome A
read_target go v none = refused (local (go.unmarshal_error (some v)))
read_target go v (some a) = received a

unfoldable pub read_result {ℓ} :
    {A : Type ℓ} → Runtime → (Value → Option A) → Option Value → Outcome A
unfolding read_target
read_result go read none = refused (local "response has no result")
read_result go read (some v) = read_target go v (read v)

-- The function argument says how json.Unmarshal fills the target.
unfoldable pub parse_result {ℓ} : {A : Type ℓ} → Runtime → (Value → Option A) → Response → Outcome A
unfolding read_result
parse_result go read resp = elim resp.error [
  | some e ↦ refused (rpc e)
  | none ↦ read_result go read resp.result
]

unfoldable pub list_result {ℓ} :
    {A : Type ℓ} → String → (Value → Option A) → Value → Option (List A)
list_result name read v = do fs ← struct_of v; list_of read (find_field name fs)

-- listToolsResult, listResourcesResult, readResourceResult, listPromptsResult, getPromptResult.
unfoldable pub list_tools_result : Runtime → Value → Option (List Tool)
unfolding list_result
list_tools_result go = list_result "tools" (decode_tool go)

unfoldable pub list_resources_result : Value → Option (List Resource)
unfolding list_result
list_resources_result = list_result "resources" decode_resource

unfoldable pub read_resource_result : Value → Option (List ResourceContent)
unfolding list_result
read_resource_result = list_result "contents" decode_content

unfoldable pub list_prompts_result : Value → Option (List Prompt)
unfolding list_result
list_prompts_result = list_result "prompts" decode_prompt

unfoldable pub get_prompt_result : Value → Option (List PromptMessage)
unfolding list_result
get_prompt_result = list_result "messages" decode_message
