-- ===== src/Protocol/Codec/HandshakeLaws.antt =====
-- Reading back the handshake's messages.
use mcp_module.Common.{
  Option, none, some, ◌≡◌, refl, true, false, [], Bool, not, if◌then◌else◌, ◌≢◌, arith,
}
use mcp_module.Json.{object, null}
use mcp_module.Protocol.Content.{
  ToolsCapability, ResourcesCapability, PromptsCapability, ServerCapabilities, ServerInfo,
  InitializeResult,
}
use mcp_module.Protocol.{is_some}
use mcp_module.Protocol.Codec.{pointer_of}
use mcp_module.Protocol.Codec.Messages.{codec_laws, pointer_of-map_pointer, find_field-raw}
use mcp_module.Protocol.Codec.Handshake.{
  encode_tools_capability, decode_tools_capability, encode_resources_capability,
  decode_resources_capability, encode_prompts_capability, decode_prompts_capability, decode_logging,
  encode_capabilities, decode_capabilities, encode_server_info, decode_server_info,
  encode_initialize_result, decode_initialize_result,
}

decode-encode_tools_capability :
    (c : ToolsCapability) → decode_tools_capability (encode_tools_capability c) ≡ some c
unfolding decode_tools_capability encode_tools_capability
decode-encode_tools_capability c = simp codec_laws

decode-encode_resources_capability :
    (c : ResourcesCapability) → decode_resources_capability (encode_resources_capability c) ≡ some c
unfolding decode_resources_capability encode_resources_capability
decode-encode_resources_capability c = simp codec_laws

decode-encode_prompts_capability :
    (c : PromptsCapability) → decode_prompts_capability (encode_prompts_capability c) ≡ some c
unfolding decode_prompts_capability encode_prompts_capability
decode-encode_prompts_capability c = simp codec_laws

pub decode-encode_server_info :
    (i : ServerInfo) → decode_server_info (encode_server_info i) ≡ some i
unfolding decode_server_info encode_server_info
decode-encode_server_info i = simp codec_laws

decode_logging_lem : decode_logging (object []) ≡ some true
unfolding decode_logging
decode_logging_lem = simp codec_laws

-- A capability is written as an object, so its pointer is not read as nil.
tools-ne-null : (c : ToolsCapability) → encode_tools_capability c ≢ null
unfolding encode_tools_capability
tools-ne-null c = ground arith

resources-ne-null : (c : ResourcesCapability) → encode_resources_capability c ≢ null
unfolding encode_resources_capability
resources-ne-null c = ground arith

prompts-ne-null : (c : PromptsCapability) → encode_prompts_capability c ≢ null
unfolding encode_prompts_capability
prompts-ne-null c = ground arith

pointer_of_logging :
    (b : Bool)
    → (o : Option Bool) × (pointer_of decode_logging (if not b then none else some (object []))
        ≡ some o)
      × (is_some o ≡ b)
unfolding pointer_of
pointer_of_logging true = (some true, rw decode_logging_lem, refl)
pointer_of_logging false = (none, refl, refl)

pub decode-encode_capabilities :
    (c : ServerCapabilities) → decode_capabilities (encode_capabilities c) ≡ some c
unfolding decode_capabilities encode_capabilities
decode-encode_capabilities c =
    let (o, read, same) = pointer_of_logging c.logging in
    simp (
      codec_laws,
      find_field-raw,
      pointer_of-map_pointer decode_tools_capability encode_tools_capability
          decode-encode_tools_capability tools-ne-null c.tools,
      pointer_of-map_pointer decode_resources_capability encode_resources_capability
          decode-encode_resources_capability resources-ne-null c.resources,
      pointer_of-map_pointer decode_prompts_capability encode_prompts_capability
          decode-encode_prompts_capability prompts-ne-null c.prompts,
      read,
      same,
    )

pub decode-encode_initialize_result :
    (r : InitializeResult) → decode_initialize_result (encode_initialize_result r) ≡ some r
unfolding decode_initialize_result encode_initialize_result
decode-encode_initialize_result r =
    simp (codec_laws, decode-encode_capabilities, decode-encode_server_info)
