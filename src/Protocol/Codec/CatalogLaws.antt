-- ===== src/Protocol/Codec/CatalogLaws.antt =====
-- Reading back the resources and prompts that were written.
use mcp_module.Common.{some, ◌≡◌}
use mcp_module.Json.Scalars.{list_of_omitted}
use mcp_module.Protocol.Content.{Resource, ResourceContent, PromptArgument, Prompt, PromptMessage}
use mcp_module.Protocol.Codec.Messages.{codec_laws, decode-encode_block}
use mcp_module.Protocol.Codec.Catalog.{
  encode_resource, decode_resource, encode_content, decode_content, encode_argument,
  decode_argument, encode_prompt, decode_prompt, encode_message, decode_message, block_of,
}

pub decode-encode_resource : (r : Resource) → decode_resource (encode_resource r) ≡ some r
unfolding decode_resource encode_resource
decode-encode_resource r = simp codec_laws

pub decode-encode_content : (c : ResourceContent) → decode_content (encode_content c) ≡ some c
unfolding decode_content encode_content
decode-encode_content c = simp codec_laws

pub decode-encode_argument : (a : PromptArgument) → decode_argument (encode_argument a) ≡ some a
unfolding decode_argument encode_argument
decode-encode_argument a = simp codec_laws

pub decode-encode_prompt : (p : Prompt) → decode_prompt (encode_prompt p) ≡ some p
unfolding decode_prompt encode_prompt
decode-encode_prompt p = simp (codec_laws, list_of_omitted, decode-encode_argument)

pub decode-encode_message : (m : PromptMessage) → decode_message (encode_message m) ≡ some m
unfolding decode_message encode_message block_of
decode-encode_message m = simp (codec_laws, decode-encode_block)
