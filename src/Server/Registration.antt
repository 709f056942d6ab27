-- ===== src/Server/Registration.antt =====
-- Registration at the tables of a server of pkg/server.
use mcp_module.Common.{String, [], ◌∷◌, Dict, insert, insert-IsDict, All, ◌≡◌, refl, arith, eq_iff}
use mcp_module.Protocol.Content.{Tool, Resource, Prompt}
use mcp_module.Server.Tables.{
  ToolHandler, ResourceHandler, PromptHandler, Tables, new_tables, register_tool, register_resource,
  register_prompt, IsWellFormed,
}

module _ {ℓ} {V : Type ℓ} (name : V → String) where
  abbrev Named : Dict V → Type 0
  Named m = All (λ e. name e.1 ≡ e.0) m

  insert-Named : (v : V) (m : Dict V) → Named m → Named (insert (name v) v m)
  unfolding insert
  insert-Named v [] _ = (refl, tt)
  insert-Named v ((j, w) ∷ m) (h, hs) = ground (arith, eq_iff j (name v), insert-Named v m hs)

-- The servers that are made by NewBase and the registrations.
pub data Built {W : Type 0} : Tables W → Type 0 where
  created : (name version : String) → Built (new_tables name version)
  tool_added :
      (tool : Tool) (handler : ToolHandler W) (s : Tables W)
      → Built s
      → Built (register_tool tool handler s)
  resource_added :
      (resource : Resource) (handler : ResourceHandler W) (s : Tables W)
      → Built s
      → Built (register_resource resource handler s)
  prompt_added :
      (prompt : Prompt) (handler : PromptHandler W) (s : Tables W)
      → Built s
      → Built (register_prompt prompt handler s)

module _ {W : Type 0} where
  pub new_tables-IsWellFormed :
      (name version : String) → IsWellFormed (new_tables {W = W} name version)
  unfolding new_tables
  new_tables-IsWellFormed name version = record {
    tools_dict = tt;
    resources_dict = tt;
    prompts_dict = tt;
    tools_named = tt;
    resources_named = tt;
    prompts_named = tt;
  }

  pub register_tool-IsWellFormed :
      (tool : Tool) (handler : ToolHandler W) (s : Tables W)
      → IsWellFormed s
      → IsWellFormed (register_tool tool handler s)
  unfolding register_tool
  register_tool-IsWellFormed tool handler s h = record {
    tools_dict = insert-IsDict tool.name _ s.tools h.tools_dict;
    resources_dict = h.resources_dict;
    prompts_dict = h.prompts_dict;
    tools_named = insert-Named (λ e. e.tool.name) _ s.tools h.tools_named;
    resources_named = h.resources_named;
    prompts_named = h.prompts_named;
  }

  pub register_resource-IsWellFormed :
      (resource : Resource) (handler : ResourceHandler W) (s : Tables W)
      → IsWellFormed s
      → IsWellFormed (register_resource resource handler s)
  unfolding register_resource
  register_resource-IsWellFormed resource handler s h = record {
    tools_dict = h.tools_dict;
    resources_dict = insert-IsDict resource.uri _ s.resources h.resources_dict;
    prompts_dict = h.prompts_dict;
    tools_named = h.tools_named;
    resources_named = insert-Named (λ e. e.resource.uri) _ s.resources h.resources_named;
    prompts_named = h.prompts_named;
  }

  pub register_prompt-IsWellFormed :
      (prompt : Prompt) (handler : PromptHandler W) (s : Tables W)
      → IsWellFormed s
      → IsWellFormed (register_prompt prompt handler s)
  unfolding register_prompt
  register_prompt-IsWellFormed prompt handler s h = record {
    tools_dict = h.tools_dict;
    resources_dict = h.resources_dict;
    prompts_dict = insert-IsDict prompt.name _ s.prompts h.prompts_dict;
    tools_named = h.tools_named;
    resources_named = h.resources_named;
    prompts_named = insert-Named (λ e. e.prompt.name) _ s.prompts h.prompts_named;
  }

  -- Every server that is made by registrations binds each tool, resource and prompt name once, to the
  -- entry of that name or URI.
  pub Built-IsWellFormed : (s : Tables W) → Built s → IsWellFormed s
  Built-IsWellFormed _ (created name version) = new_tables-IsWellFormed name version
  Built-IsWellFormed _ (tool_added t h s b) =
      register_tool-IsWellFormed t h s (Built-IsWellFormed s b)
  Built-IsWellFormed _ (resource_added r h s b) =
      register_resource-IsWellFormed r h s (Built-IsWellFormed s b)
  Built-IsWellFormed _ (prompt_added p h s b) =
      register_prompt-IsWellFormed p h s (Built-IsWellFormed s b)
