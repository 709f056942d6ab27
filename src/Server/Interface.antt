-- ===== src/Server/Interface.antt =====
-- pkg/server/server.go, stdio_server.go and http_server.go: the interface Server, less Serve, and the
-- two servers that have it.
pub mod Registered
use mcp_module.Common.{String, Bool, true, false, Option, none, some, if◌then◌else◌, ◌≡◌, refl}
use mcp_module.Json.{is_empty}
use mcp_module.Protocol.Content.{Tool, Resource, Prompt, ServerInfo, ServerCapabilities}
use mcp_module.Server.Tables.{
  ToolHandler, ResourceHandler, PromptHandler, ToolEntry, Tables, register_tool, register_resource,
  register_prompt, capabilities,
}
use mcp_module.Server.Http.{HttpServer}

-- Handlers work on a world `W`; `S` is the server's own type.
pub record Server (W S : Type 0) : Type 0 where
  pub add_tool : Tool → ToolHandler W → S → S
  pub add_resource : Resource → ResourceHandler W → S → S
  pub add_prompt : Prompt → PromptHandler W → S → S
  pub server_info : S → ServerInfo
  pub server_capabilities : S → ServerCapabilities

module _ {W : Type 0} where
  -- HTTPServer's methods, on its own maps.
  unfoldable pub http_register_tool : Tool → ToolHandler W → HttpServer W → HttpServer W
  unfolding register_tool
  http_register_tool tool handler s = record s { tables = register_tool tool handler s.tables }

  unfoldable pub http_register_resource : Resource → ResourceHandler W → HttpServer W → HttpServer W
  unfolding register_resource
  http_register_resource resource handler s = record s {
    tables = register_resource resource handler s.tables;
  }

  unfoldable pub http_register_prompt : Prompt → PromptHandler W → HttpServer W → HttpServer W
  unfolding register_prompt
  http_register_prompt prompt handler s = record s {
    tables = register_prompt prompt handler s.tables;
  }

  abbrev pub stdio_info : Tables W → ServerInfo
  stdio_info s = s.info

  abbrev pub http_info : HttpServer W → ServerInfo
  http_info s = s.tables.info

  -- HTTPServer.Capabilities, which has the lines of StdioServer.Capabilities.
  unfoldable pub http_capabilities : HttpServer W → ServerCapabilities
  unfolding capabilities
  http_capabilities s = capabilities s.tables

  unfoldable pub stdio_server : Server W (Tables W)
  stdio_server = record {
    add_tool = register_tool;
    add_resource = register_resource;
    add_prompt = register_prompt;
    server_info = stdio_info;
    server_capabilities = capabilities;
  }

  unfoldable pub http_server : Server W (HttpServer W)
  http_server = record {
    add_tool = http_register_tool;
    add_resource = http_register_resource;
    add_prompt = http_register_prompt;
    server_info = http_info;
    server_capabilities = http_capabilities;
  }

  -- What an implementation promises: its methods work on the maps that it has.
  pub record Implements {S : Type 0} (server : Server W S) (tables : S → Tables W) : Type 0 where
    pub tool_law :
        (t : Tool) (h : ToolHandler W) (s : S)
        → tables (server.add_tool t h s) ≡ register_tool t h (tables s)
    pub resource_law :
        (r : Resource) (h : ResourceHandler W) (s : S)
        → tables (server.add_resource r h s) ≡ register_resource r h (tables s)
    pub prompt_law :
        (p : Prompt) (h : PromptHandler W) (s : S)
        → tables (server.add_prompt p h s) ≡ register_prompt p h (tables s)
    pub info_law : (s : S) → server.server_info s ≡ (tables s).info
    pub capabilities_law : (s : S) → server.server_capabilities s ≡ capabilities (tables s)

  pub stdio_server-Implements : Implements stdio_server (λ s. s)
  unfolding stdio_server
  stdio_server-Implements = record {
    tool_law = λ t h s. refl;
    resource_law = λ r h s. refl;
    prompt_law = λ p h s. refl;
    info_law = λ s. refl;
    capabilities_law = λ s. refl;
  }

  pub http_server-Implements : Implements http_server (λ s. s.tables)
  unfolding http_server http_register_tool http_register_resource http_register_prompt
      http_capabilities
  http_server-Implements = record {
    tool_law = λ t h s. refl;
    resource_law = λ r h s. refl;
    prompt_law = λ p h s. refl;
    info_law = λ s. refl;
    capabilities_law = λ s. refl;
  }
