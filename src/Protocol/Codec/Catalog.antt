-- ===== src/Protocol/Codec/Catalog.antt =====
-- The JSON form of resources and prompts (pkg/protocol/protocol.go), by their struct tags.
use mcp_module.Common.{false, not, Option, none, some, [], map, ◌>>=◌}
use mcp_module.Json.{
  Value, null, bool, arr, items, part, object, struct_of, bool_of, list_of, is_empty, find_field,
}
use mcp_module.Protocol.Content.{
  Resource, ResourceContent, PromptArgument, Prompt, PromptMessage, ContentBlock,
}
use mcp_module.Protocol.Codec.{text_part, text_part?, read_text, encode_block, decode_block}

unfoldable pub encode_resource : Resource → Value
encode_resource r = object (
    text_part "uri" r.uri (
      text_part "name" r.name
        (text_part? "description" r.description (text_part? "mimeType" r.mime_type []))))

unfoldable pub decode_resource : Value → Option Resource
decode_resource v = do
  fs ← struct_of v
  uri ← read_text "uri" fs
  name ← read_text "name" fs
  description ← read_text "description" fs
  mime_type ← read_text "mimeType" fs
  some (record { uri = uri; name = name; description = description; mime_type = mime_type })

unfoldable pub encode_content : ResourceContent → Value
encode_content c = object (
    text_part "uri" c.uri
      (text_part? "mimeType" c.mime_type (text_part? "text" c.text (text_part? "blob" c.blob []))))

unfoldable pub decode_content : Value → Option ResourceContent
decode_content v = do
  fs ← struct_of v
  uri ← read_text "uri" fs
  mime_type ← read_text "mimeType" fs
  text ← read_text "text" fs
  blob ← read_text "blob" fs
  some (record { uri = uri; mime_type = mime_type; text = text; blob = blob })

unfoldable pub encode_argument : PromptArgument → Value
encode_argument a = object (
    text_part "name" a.name (
      text_part? "description" a.description
        (part (not a.required) "required" (bool a.required) [])))

unfoldable pub decode_argument : Value → Option PromptArgument
decode_argument v = do
  fs ← struct_of v
  name ← read_text "name" fs
  description ← read_text "description" fs
  required ← bool_of (find_field "required" fs)
  some (record { name = name; description = description; required = required })

unfoldable pub encode_prompt : Prompt → Value
encode_prompt p = object (
    text_part "name" p.name (
      text_part? "description" p.description (
        part (is_empty p.arguments) "arguments" (arr (items (map encode_argument p.arguments)))
          [])))

unfoldable pub decode_prompt : Value → Option Prompt
decode_prompt v = do
  fs ← struct_of v
  name ← read_text "name" fs
  description ← read_text "description" fs
  arguments ← list_of decode_argument (find_field "arguments" fs)
  some (record { name = name; description = description; arguments = arguments })

-- `Content` is a struct, not a pointer: where it is absent or null its fields are empty.
unfoldable pub block_of : Option Value → Option ContentBlock
block_of none = decode_block null
block_of (some v) = decode_block v

unfoldable pub encode_message : PromptMessage → Value
encode_message m =
    object (text_part "role" m.role (part false "content" (encode_block m.content) []))

unfoldable pub decode_message : Value → Option PromptMessage
decode_message v = do
  fs ← struct_of v
  role ← read_text "role" fs
  content ← block_of (find_field "content" fs)
  some (record { role = role; content = content })
