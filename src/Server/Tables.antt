-- ===== src/Server/Tables.antt =====
-- pkg/server/server.go, stdio_server.go and http_server.go: the entries that a server keeps, and
-- how they are registered. Both servers hold the same four fields.
use mcp_module.Common.{
  String, Option, none, some, List, [], Dict, insert, if◌then◌else◌, IsDict, All, ◌≡◌,
}
use mcp_module.Json.{Any, is_empty}
use mcp_module.Protocol.{Result}
use mcp_module.Protocol.Content.{
  Tool, ToolResult, Resource, ResourceContent, Prompt, PromptMessage, ServerInfo,
  ServerCapabilities,
}
use mcp_module.Common.{false}

-- A handler returns a pointer, nil or not, and an error, nil or not; without an error the pointer
-- of a ToolResult or ResourceContent may still be nil.
abbrev pub ToolHandler : Type 0 → Type 0
ToolHandler W = W → Dict Any → W × Result (Option ToolResult)

abbrev pub ResourceHandler : Type 0 → Type 0
ResourceHandler W = W → String → W × Result (Option ResourceContent)

abbrev pub PromptHandler : Type 0 → Type 0
PromptHandler W = W → Dict String → W × Result (List PromptMessage)

pub record ToolEntry (W : Type 0) : Type 0 where
  pub tool : Tool
  pub handler : ToolHandler W

pub record ResourceEntry (W : Type 0) : Type 0 where
  pub resource : Resource
  pub handler : ResourceHandler W

pub record PromptEntry (W : Type 0) : Type 0 where
  pub prompt : Prompt
  pub handler : PromptHandler W

pub record Tables (W : Type 0) : Type 0 where
  pub info : ServerInfo
  pub tools : Dict (ToolEntry W)
  pub resources : Dict (ResourceEntry W)
  pub prompts : Dict (PromptEntry W)

module _ {W : Type 0} where
  -- NewStdioServer and NewHTTPServer: no entry yet.
  unfoldable pub new_tables : String → String → Tables W
  new_tables name version = record {
    info = record { name = name; version = version };
    tools = [];
    resources = [];
    prompts = [];
  }

  unfoldable pub register_tool : Tool → ToolHandler W → Tables W → Tables W
  register_tool tool handler s = record s {
    tools = insert tool.name (record { tool = tool; handler = handler }) s.tools;
  }

  unfoldable pub register_resource : Resource → ResourceHandler W → Tables W → Tables W
  register_resource resource handler s = record s {
    resources = insert resource.uri (record { resource = resource; handler = handler }) s.resources;
  }

  unfoldable pub register_prompt : Prompt → PromptHandler W → Tables W → Tables W
  register_prompt prompt handler s = record s {
    prompts = insert prompt.name (record { prompt = prompt; handler = handler }) s.prompts;
  }

  -- Capabilities(), and the same lines of handleInitialize.
  unfoldable pub capabilities : Tables W → ServerCapabilities
  capabilities s = record {
    tools = if is_empty s.tools then none else some (record { list_changed = false });
    resources =
        if is_empty s.resources
        then none
        else some (record { subscribe = false; list_changed = false });
    prompts = if is_empty s.prompts then none else some (record { list_changed = false });
    logging = false;
  }

  -- Each table binds a key once, to an entry that carries that key as its name.
  pub record IsWellFormed (s : Tables W) : Type 0 where
    pub tools_dict : IsDict s.tools
    pub resources_dict : IsDict s.resources
    pub prompts_dict : IsDict s.prompts
    pub tools_named : All (λ e. e.1.tool.name ≡ e.0) s.tools
    pub resources_named : All (λ e. e.1.resource.uri ≡ e.0) s.resources
    pub prompts_named : All (λ e. e.1.prompt.name ≡ e.0) s.prompts
