-- ===== src/Protocol.antt =====
-- pkg/protocol/protocol.go: JSON-RPC messages, their constructors, and the identifiers of requests.
pub mod Content
pub mod Codec
pub mod Ids
use Prim.Native.String
use mcp_module.Common.{String, Bool, true, false, Option, none, some, [], ◌∷◌}
use mcp_module.Common.Int.{ℤ, negsuc}
use mcp_module.Json.{Value, Any, absent, native_int, string, Runtime, is_absent}
use mcp_module.I18n.{Translator}

-- The pair (value, error) that a fallible Go function returns.
pub data Result {ℓ} (A : Type ℓ) : Type ℓ where
  ok : A → Result A
  failed : String → Result A

abbrev pub jsonrpc_version : String
jsonrpc_version = "2.0"

abbrev pub mcp_protocol_version : String
mcp_protocol_version = "2024-11-05"

pub record Request : Type 0 where
  pub jsonrpc : String
  pub id : Any
  pub method : String
  pub params : Option Value

pub record RpcError : Type 0 where
  pub code : ℤ
  pub message : String
  pub payload : Any

pub record Response : Type 0 where
  pub jsonrpc : String
  pub id : Any
  pub result : Option Value
  pub error : Option RpcError

-- Standard JSON-RPC 2.0 error codes, and the module's own.
abbrev pub code_parse_error : ℤ
code_parse_error = negsuc 32699

abbrev pub code_invalid_request : ℤ
code_invalid_request = negsuc 32599

abbrev pub code_method_not_found : ℤ
code_method_not_found = negsuc 32600

abbrev pub code_invalid_params : ℤ
code_invalid_params = negsuc 32601

abbrev pub code_internal_error : ℤ
code_internal_error = negsuc 32602

-- What a caller hands over for `params interface{}`: nil, or what json.Marshal makes of it.
pub data Params : Type 0 where
  no_params unmarshalable : Params
  marshalled : Value → Params

unfoldable pub new_request : Runtime → Any → String → Params → Result Request
new_request go id method no_params =
    ok (record { jsonrpc = jsonrpc_version; id = id; method = method; params = none })
new_request go id method unmarshalable =
    failed (String.◌++◌ "failed to marshal params: " go.marshal_error)
new_request go id method (marshalled v) =
    ok (record { jsonrpc = jsonrpc_version; id = id; method = method; params = some v })

unfoldable pub new_notification : Runtime → String → Params → Result Request
new_notification go method params = new_request go absent method params

unfoldable pub is_notification : Request → Bool
is_notification r = is_absent r.id

-- The second argument is what json.Marshal makes of the result.
unfoldable pub new_response : Runtime → Any → Option Value → Result Response
new_response go id none = failed (String.◌++◌ "failed to marshal result: " go.marshal_error)
new_response go id (some v) =
    ok (record { jsonrpc = jsonrpc_version; id = id; result = some v; error = none })

unfoldable pub new_error_response : Any → ℤ → String → Any → Response
new_error_response id code message payload = record {
  jsonrpc = jsonrpc_version;
  id = id;
  result = none;
  error = some (record { code = code; message = message; payload = payload });
}

abbrev pub is_some {ℓ} : {A : Type ℓ} → Option A → Bool
is_some none = false
is_some (some _) = true

-- Response.IsError.
unfoldable pub is_error : Response → Bool
is_error r = is_some r.error

-- RPCError.Error, through the package's translator.
unfoldable pub error_text : Runtime → Translator → RpcError → String
error_text go translator e = elim (is_absent e.payload) [
  | false ↦ translator.t "mcp_module_rpc_error_with_data" (
      ("code", native_int e.code)
      ∷ ("message", string e.message)
      ∷ ("data", string (go.format e.payload))
      ∷ [])
  | true ↦
      translator.t "mcp_module_rpc_error_no_data"
        (("code", native_int e.code) ∷ ("message", string e.message) ∷ [])
]
