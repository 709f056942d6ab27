-- ===== src/Protocol/Codec/Handshake.antt =====
-- The JSON form of the messages of the handshake (pkg/protocol/protocol.go), by their struct tags.
use mcp_module.Common.{Bool, true, false, not, Option, none, some, [], ◌>>=◌}
use mcp_module.Json.{Value, null, bool, marshal, part, object, struct_of, bool_of, find_field}
use mcp_module.Protocol.{is_some}
use mcp_module.Protocol.Content.{
  ToolsCapability, ResourcesCapability, PromptsCapability, ServerCapabilities, ServerInfo,
  ClientInfo, InitializeParams, InitializeResult,
}
use mcp_module.Protocol.Codec.{text_part, raw_part?, read_text, pointer_of, map_pointer}

unfoldable pub encode_tools_capability : ToolsCapability → Value
encode_tools_capability c =
    object (part (not c.list_changed) "listChanged" (bool c.list_changed) [])

unfoldable pub decode_tools_capability : Value → Option ToolsCapability
decode_tools_capability v = do
  fs ← struct_of v
  list_changed ← bool_of (find_field "listChanged" fs)
  some (record { list_changed = list_changed })

unfoldable pub encode_resources_capability : ResourcesCapability → Value
encode_resources_capability c = object (
    part (not c.subscribe) "subscribe" (bool c.subscribe)
      (part (not c.list_changed) "listChanged" (bool c.list_changed) []))

unfoldable pub decode_resources_capability : Value → Option ResourcesCapability
decode_resources_capability v = do
  fs ← struct_of v
  subscribe ← bool_of (find_field "subscribe" fs)
  list_changed ← bool_of (find_field "listChanged" fs)
  some (record { subscribe = subscribe; list_changed = list_changed })

unfoldable pub encode_prompts_capability : PromptsCapability → Value
encode_prompts_capability c =
    object (part (not c.list_changed) "listChanged" (bool c.list_changed) [])

unfoldable pub decode_prompts_capability : Value → Option PromptsCapability
decode_prompts_capability v = do
  fs ← struct_of v
  list_changed ← bool_of (find_field "listChanged" fs)
  some (record { list_changed = list_changed })

unfoldable pub decode_logging : Value → Option Bool
decode_logging v = do fs ← struct_of v; some true

unfoldable pub encode_capabilities : ServerCapabilities → Value
encode_capabilities c = object (
    raw_part? "tools" (map_pointer encode_tools_capability c.tools) (
      raw_part? "resources" (map_pointer encode_resources_capability c.resources) (
        raw_part? "prompts" (map_pointer encode_prompts_capability c.prompts)
          (part (not c.logging) "logging" (object []) []))))

unfoldable pub decode_capabilities : Value → Option ServerCapabilities
decode_capabilities v = do
  fs ← struct_of v
  tools ← pointer_of decode_tools_capability (find_field "tools" fs)
  resources ← pointer_of decode_resources_capability (find_field "resources" fs)
  prompts ← pointer_of decode_prompts_capability (find_field "prompts" fs)
  logging ← pointer_of decode_logging (find_field "logging" fs)
  some (record {
    tools = tools;
    resources = resources;
    prompts = prompts;
    logging = is_some logging;
  })

unfoldable pub encode_server_info : ServerInfo → Value
encode_server_info i = object (text_part "name" i.name (text_part "version" i.version []))

unfoldable pub decode_server_info : Value → Option ServerInfo
decode_server_info v = do
  fs ← struct_of v
  name ← read_text "name" fs
  version ← read_text "version" fs
  some (record { name = name; version = version })

unfoldable pub encode_client_info : ClientInfo → Value
encode_client_info i = object (text_part "name" i.name (text_part "version" i.version []))

unfoldable pub encode_initialize_params : InitializeParams → Option Value
encode_initialize_params p = do
  capabilities ← marshal p.capabilities
  some (
      object (
        text_part "protocolVersion" p.protocol_version (
          part false "capabilities" capabilities
            (part false "clientInfo" (encode_client_info p.client_info) []))))

abbrev pub or_null : Option Value → Value
or_null none = null
or_null (some v) = v

unfoldable pub encode_initialize_result : InitializeResult → Value
encode_initialize_result r = object (
    text_part "protocolVersion" r.protocol_version (
      part false "capabilities" (encode_capabilities r.capabilities)
        (part false "serverInfo" (encode_server_info r.server_info) [])))

unfoldable pub decode_initialize_result : Value → Option InitializeResult
decode_initialize_result v = do
  fs ← struct_of v
  protocol_version ← read_text "protocolVersion" fs
  capabilities ← decode_capabilities (or_null (find_field "capabilities" fs))
  server_info ← decode_server_info (or_null (find_field "serverInfo" fs))
  some (record {
    protocol_version = protocol_version;
    capabilities = capabilities;
    server_info = server_info;
  })
