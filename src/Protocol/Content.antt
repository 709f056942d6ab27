-- ===== src/Protocol/Content.antt =====
-- pkg/protocol/protocol.go: tools, resources, prompts, capabilities and the handshake's messages.
use mcp_module.Common.{String, Bool, Option, List, Dict}
use mcp_module.Json.{Any}

pub record Tool : Type 0 where
  pub name : String
  pub description : String
  pub input_schema : Dict Any

pub record ContentBlock : Type 0 where
  pub type : String
  pub text : String
  pub mime_type : String
  pub blob : String

pub record ToolResult : Type 0 where
  pub content : List ContentBlock
  pub is_error : Bool

unfoldable pub new_text_content : String → ContentBlock
new_text_content text = record { type = "text"; text = text; mime_type = ""; blob = "" }

unfoldable pub new_binary_content : String → String → ContentBlock
new_binary_content mime_type blob = record {
  type = "blob";
  text = "";
  mime_type = mime_type;
  blob = blob;
}

pub record Resource : Type 0 where
  pub uri : String
  pub name : String
  pub description : String
  pub mime_type : String

pub record ResourceContent : Type 0 where
  pub uri : String
  pub mime_type : String
  pub text : String
  pub blob : String

pub record PromptArgument : Type 0 where
  pub name : String
  pub description : String
  pub required : Bool

pub record Prompt : Type 0 where
  pub name : String
  pub description : String
  pub arguments : List PromptArgument

pub record PromptMessage : Type 0 where
  pub role : String
  pub content : ContentBlock

pub record ToolsCapability : Type 0 where
  pub list_changed : Bool

pub record ResourcesCapability : Type 0 where
  pub subscribe : Bool
  pub list_changed : Bool

pub record PromptsCapability : Type 0 where
  pub list_changed : Bool

-- The pointer to LoggingCapability, a struct without fields, is nil or not.
pub record ServerCapabilities : Type 0 where
  pub tools : Option ToolsCapability
  pub resources : Option ResourcesCapability
  pub prompts : Option PromptsCapability
  pub logging : Bool

pub record ServerInfo : Type 0 where
  pub name : String
  pub version : String

pub record ClientInfo : Type 0 where
  pub name : String
  pub version : String

pub record InitializeParams : Type 0 where
  pub protocol_version : String
  pub capabilities : Any
  pub client_info : ClientInfo

pub record InitializeResult : Type 0 where
  pub protocol_version : String
  pub capabilities : ServerCapabilities
  pub server_info : ServerInfo
