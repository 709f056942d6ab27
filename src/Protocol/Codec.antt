-- ===== src/Protocol/Codec.antt =====
-- The JSON form of the types of pkg/protocol/protocol.go, by their struct tags.
pub mod Messages
pub mod Catalog
pub mod CatalogLaws
pub mod Handshake
pub mod HandshakeLaws
use mcp_module.Common.{
  String, Bool, true, false, not, Option, none, some, List, [], ◌∷◌, map, Dict, if◌then◌else◌, ◌==◌,
  traverse, ◌>>=◌,
}
use mcp_module.Json.{
  Value, null, bool, int, str, arr, items, Any, Runtime, marshal, unmarshal, find_field, part,
  object, struct_of, string_of, bool_of, int_of, any_of, list_of, dict_of, is_empty, is_absent,
}
use mcp_module.Protocol.{Request, RpcError, Response}
use mcp_module.Protocol.Content.{
  Tool, ContentBlock, ToolResult, Resource, ResourceContent, PromptArgument, Prompt, PromptMessage,
}

-- A string field, and a string field under `omitempty`.
abbrev pub text_part : String → String → Dict Value → Dict Value
text_part name s rest = part false name (str s) rest

abbrev pub text_part? : String → String → Dict Value → Dict Value
text_part? name s rest = part (s == "") name (str s) rest

abbrev pub raw_part? : String → Option Value → Dict Value → Dict Value
raw_part? name none rest = part true name null rest
raw_part? name (some v) rest = part false name v rest

abbrev pub read_text : String → Dict Value → Option String
read_text name fs = string_of (find_field name fs)

unfoldable pub encode_request : Request → Option Value
encode_request r = do
  id ← marshal r.id
  some (
      object (
        text_part "jsonrpc" r.jsonrpc (
          part (is_absent r.id) "id" id
            (text_part "method" r.method (raw_part? "params" r.params [])))))

unfoldable pub decode_request : Runtime → Value → Option Request
decode_request go v = do
  fs ← struct_of v
  jsonrpc ← read_text "jsonrpc" fs
  method ← read_text "method" fs
  some (record {
    jsonrpc = jsonrpc;
    id = any_of go (find_field "id" fs);
    method = method;
    params = find_field "params" fs;
  })

unfoldable pub error_object : RpcError → Value → Value
error_object e payload = object (
    part false "code" (int e.code)
      (text_part "message" e.message (part (is_absent e.payload) "data" payload [])))

unfoldable pub encode_error : RpcError → Option Value
encode_error e = do payload ← marshal e.payload; some (error_object e payload)

unfoldable pub decode_error : Runtime → Value → Option RpcError
decode_error go v = do
  fs ← struct_of v
  code ← int_of (find_field "code" fs)
  message ← read_text "message" fs
  some (record { code = code; message = message; payload = any_of go (find_field "data" fs) })

-- A pointer to a struct: nil is left out, and read back where the member is absent or null.
unfoldable pub encode_pointer {ℓ} :
    {A : Type ℓ} → (A → Option Value) → Option A → Option (Option Value)
encode_pointer write none = some none
encode_pointer write (some a) = do v ← write a; some (some v)

unfoldable pub pointer_of {ℓ} : {A : Type ℓ} → (Value → Option A) → Option Value → Option (Option A)
pointer_of read none = some none
pointer_of read (some null) = some none
pointer_of read (some v) = do a ← read v; some (some a)

abbrev pub map_pointer {ℓ} : {A : Type ℓ} → (A → Value) → Option A → Option Value
map_pointer write none = none
map_pointer write (some a) = some (write a)

unfoldable pub encode_response : Response → Option Value
encode_response r = do
  id ← marshal r.id
  error ← encode_pointer encode_error r.error
  some (
      object (
        text_part "jsonrpc" r.jsonrpc (
          part (is_absent r.id) "id" id
            (raw_part? "result" r.result (raw_part? "error" error [])))))

unfoldable pub decode_response : Runtime → Value → Option Response
decode_response go v = do
  fs ← struct_of v
  jsonrpc ← read_text "jsonrpc" fs
  error ← pointer_of (decode_error go) (find_field "error" fs)
  some (record {
    jsonrpc = jsonrpc;
    id = any_of go (find_field "id" fs);
    result = find_field "result" fs;
    error = error;
  })

unfoldable pub marshal_entry : String × Any → Option (String × Value)
marshal_entry (k, a) = do v ← marshal a; some (k, v)

-- A map[string]interface{} on its way out and in.
unfoldable pub encode_any_map : Dict Any → Option (Dict Value)
encode_any_map m = traverse marshal_entry m

unfoldable pub decode_any_map : Runtime → Option Value → Option (Dict Any)
decode_any_map go o = dict_of (λ v. some (unmarshal go v)) o

unfoldable pub encode_tool : Tool → Option Value
encode_tool t = do
  schema ← encode_any_map t.input_schema
  some (
      object (
        text_part "name" t.name (
          text_part? "description" t.description
            (part (is_empty t.input_schema) "inputSchema" (object schema) []))))

unfoldable pub decode_tool : Runtime → Value → Option Tool
decode_tool go v = do
  fs ← struct_of v
  name ← read_text "name" fs
  description ← read_text "description" fs
  schema ← decode_any_map go (find_field "inputSchema" fs)
  some (record { name = name; description = description; input_schema = schema })

unfoldable pub encode_block : ContentBlock → Value
encode_block b = object (
    text_part "type" b.type
      (text_part? "text" b.text (text_part? "mimeType" b.mime_type (text_part? "data" b.blob []))))

unfoldable pub decode_block : Value → Option ContentBlock
decode_block v = do
  fs ← struct_of v
  type ← read_text "type" fs
  text ← read_text "text" fs
  mime_type ← read_text "mimeType" fs
  blob ← read_text "data" fs
  some (record { type = type; text = text; mime_type = mime_type; blob = blob })

-- A nil slice is an empty one here: Go writes it as null, which reads back as empty too.
unfoldable pub encode_result : ToolResult → Value
encode_result r = object (
    part false "content" (arr (items (map encode_block r.content)))
      (part (not r.is_error) "isError" (bool r.is_error) []))

unfoldable pub decode_result : Value → Option ToolResult
decode_result v = do
  fs ← struct_of v
  content ← list_of decode_block (find_field "content" fs)
  is_error ← bool_of (find_field "isError" fs)
  some (record { content = content; is_error = is_error })
