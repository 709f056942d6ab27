-- ===== src/Server/Interface/Registered.antt =====
-- What a server offers after any registrations through the interface Server.
use mathlib.Core.List.{filter_map}
use mcp_module.Common.{
  String, Bool, true, false, not, ◌&&◌, Option, none, some, List, [], ◌∷◌, Dict, lookup, insert,
  lookup-insert, ◌==◌, if◌then◌else◌, ◌≡◌, refl, ap, sym, subst, ◌∙◌, arith,
}
use mcp_module.Json.{is_empty}
use mcp_module.Protocol.{is_some}
use mcp_module.Protocol.Content.{Tool, Resource, Prompt, ServerInfo}
use mcp_module.Server.Tables.{
  ToolHandler, ResourceHandler, PromptHandler, ToolEntry, ResourceEntry, PromptEntry, Tables,
  new_tables, register_tool, register_resource, register_prompt, capabilities,
}
use mcp_module.Server.Interface.{Server, Implements, stdio_server}

and_true : (b : Bool) → (b && true) ≡ b
and_true true = refl
and_true false = refl

some_unless : {V : Type 0} (b : Bool) (v : V) → is_some (if b then none else some v) ≡ not b
some_unless true v = refl
some_unless false v = refl

module _ {V : Type 0} where
  -- The last binding of a name.
  unfoldable pub last_of : String → Dict V → Option V
  last_of name [] = none
  last_of name (e ∷ es) =
      let later = last_of name es in
      if is_some later then later else if e.0 == name then some e.1 else none

  unfoldable insert_all : Dict V → Dict V → Dict V
  insert_all [] m = m
  insert_all (e ∷ es) m = insert_all es (insert e.0 e.1 m)

  lookup-insert_all :
      (name : String) (es m : Dict V)
      → lookup name (insert_all es m)
        ≡ (if is_some (last_of name es) then last_of name es else lookup name m)
  unfolding last_of insert_all
  lookup-insert_all name [] m = refl
  lookup-insert_all name (e ∷ es) m =
      rw (lookup-insert_all name es (insert e.0 e.1 m), lookup-insert e.0 name e.1 m) (ground arith)

  insert_filled : (name : String) (v : V) (m : Dict V) → is_empty (insert name v m) ≡ false
  unfolding insert
  insert_filled name v [] = refl
  insert_filled name v (e ∷ m) = ground arith

  empty-insert_all : (es m : Dict V) → is_empty (insert_all es m) ≡ (is_empty es && is_empty m)
  unfolding insert_all
  empty-insert_all [] m = refl
  empty-insert_all (e ∷ es) m =
      rw (empty-insert_all es (insert e.0 e.1 m), insert_filled e.0 e.1 m) (ground arith)

  or_none : (o : Option V) → (if is_some o then o else none) ≡ o
  or_none none = refl
  or_none (some v) = refl

  module _ (es m : Dict V) (e : m ≡ insert_all es []) where
    found_last : (name : String) → lookup name m ≡ last_of name es
    unfolding lookup
    found_last name =
        ap (lookup name) e ∙ (lookup-insert_all name es [] ∙ or_none (last_of name es))

    empty_with : is_empty m ≡ is_empty es
    empty_with = ap is_empty e ∙ (empty-insert_all es [] ∙ and_true (is_empty es))

-- A call of RegisterTool, RegisterResource or RegisterPrompt.
pub data Registration (W : Type 0) : Type 0 where
  tool : Tool → ToolHandler W → Registration W
  resource : Resource → ResourceHandler W → Registration W
  prompt : Prompt → PromptHandler W → Registration W

module _ {W : Type 0} where
  abbrev tool_of : Registration W → Option (String × ToolEntry W)
  tool_of (tool t h) = some (t.name, record { tool = t; handler = h })
  tool_of (resource _ _) = none
  tool_of (prompt _ _) = none

  abbrev resource_of : Registration W → Option (String × ResourceEntry W)
  resource_of (tool _ _) = none
  resource_of (resource r h) = some (r.uri, record { resource = r; handler = h })
  resource_of (prompt _ _) = none

  abbrev prompt_of : Registration W → Option (String × PromptEntry W)
  prompt_of (tool _ _) = none
  prompt_of (resource _ _) = none
  prompt_of (prompt p h) = some (p.name, record { prompt = p; handler = h })

  module _ {S : Type 0} (server : Server W S) where
    unfoldable pub register_all : List (Registration W) → S → S
    register_all [] s = s
    register_all (tool t h ∷ rs) s = register_all rs (server.add_tool t h s)
    register_all (resource r h ∷ rs) s = register_all rs (server.add_resource r h s)
    register_all (prompt p h ∷ rs) s = register_all rs (server.add_prompt p h s)

  module _ {S : Type 0} (server : Server W S) (tables : S → Tables W)
      (i : Implements server tables) where
    tables-register_all :
        (rs : List (Registration W)) (s : S)
        → tables (register_all server rs s) ≡ register_all stdio_server rs (tables s)
    unfolding register_all stdio_server
    tables-register_all [] s = refl
    tables-register_all (tool t h ∷ rs) s =
        rw (sym (i.tool_law t h s)) (tables-register_all rs (server.add_tool t h s))
    tables-register_all (resource r h ∷ rs) s =
        rw (sym (i.resource_law r h s)) (tables-register_all rs (server.add_resource r h s))
    tables-register_all (prompt p h ∷ rs) s =
        rw (sym (i.prompt_law p h s)) (tables-register_all rs (server.add_prompt p h s))

  -- The tables, from the registrations of each kind.
  record Holds (rs : List (Registration W)) (s s' : Tables W) : Type 0 where
    info : s'.info ≡ s.info
    tools : s'.tools ≡ insert_all (filter_map tool_of rs) s.tools
    resources : s'.resources ≡ insert_all (filter_map resource_of rs) s.resources
    prompts : s'.prompts ≡ insert_all (filter_map prompt_of rs) s.prompts

  register_all-Holds :
      (rs : List (Registration W)) (s : Tables W) → Holds rs s (register_all stdio_server rs s)
  unfolding register_all stdio_server insert_all filter_map register_tool register_resource
      register_prompt
  register_all-Holds [] s = record { info = refl; tools = refl; resources = refl; prompts = refl }
  register_all-Holds (tool t h ∷ rs) s =
      let its = register_all-Holds rs (register_tool t h s) in
      record {
        info = its.info;
        tools = its.tools;
        resources = its.resources;
        prompts = its.prompts;
      }
  register_all-Holds (resource r h ∷ rs) s =
      let its = register_all-Holds rs (register_resource r h s) in
      record {
        info = its.info;
        tools = its.tools;
        resources = its.resources;
        prompts = its.prompts;
      }
  register_all-Holds (prompt p h ∷ rs) s =
      let its = register_all-Holds rs (register_prompt p h s) in
      record {
        info = its.info;
        tools = its.tools;
        resources = its.resources;
        prompts = its.prompts;
      }

  -- What a server offers, as the registrations say it.
  pub record Offers (rs : List (Registration W)) (info : ServerInfo) {S : Type 0}
      (server : Server W S) (view : S → Tables W) (s : S) : Type 0 where
    pub same_info : server.server_info s ≡ info
    pub tools : (name : String) → lookup name (view s).tools ≡ last_of name (filter_map tool_of rs)
    pub resources :
        (uri : String) → lookup uri (view s).resources ≡ last_of uri (filter_map resource_of rs)
    pub prompts :
        (name : String) → lookup name (view s).prompts ≡ last_of name (filter_map prompt_of rs)
    pub has_tools :
        is_some (server.server_capabilities s).tools ≡ not (is_empty (filter_map tool_of rs))
    pub has_resources :
        is_some (server.server_capabilities s).resources
        ≡ not (is_empty (filter_map resource_of rs))
    pub has_prompts :
        is_some (server.server_capabilities s).prompts ≡ not (is_empty (filter_map prompt_of rs))

  module _ (rs : List (Registration W)) (name version : String) {S : Type 0} (server : Server W S)
      (tables : S → Tables W) (i : Implements server tables) (s : S)
      (fresh : tables s ≡ new_tables name version) where
    -- Registrations at a new server of either kind: it has under each name the tool or prompt, and under
    -- each URI the resource, that was registered there last, with its handler, and nothing else; its
    -- capabilities name a kind exactly where one of that kind was registered; its name and version
    -- are those that it was made with.
    pub register_all-Offers :
        Offers rs
          (record { name = name; version = version })
          server
          tables
          (register_all server rs s)
    unfolding capabilities new_tables
    register_all-Offers =
        let s' = register_all server rs s in
        let sim : tables s' ≡ register_all stdio_server rs (new_tables name version) =
          tables-register_all server tables i rs s ∙ ap (register_all stdio_server rs) fresh in
        let its : Holds rs (new_tables name version) (tables s') =
          subst (Holds rs (new_tables name version)) (sym sim)
            (register_all-Holds rs (new_tables name version)) in
        record {
          same_info = i.info_law s' ∙ its.info;
          tools = found_last _ _ its.tools;
          resources = found_last _ _ its.resources;
          prompts = found_last _ _ its.prompts;
          has_tools = rw (i.capabilities_law s', empty_with _ _ its.tools) (some_unless _ _);
          has_resources =
              rw (i.capabilities_law s', empty_with _ _ its.resources) (some_unless _ _);
          has_prompts = rw (i.capabilities_law s', empty_with _ _ its.prompts) (some_unless _ _);
        }
