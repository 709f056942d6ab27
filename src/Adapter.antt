-- ===== src/Adapter.antt =====
-- pkg/adapter/adapter.go: the life cycle of adapters. A process, a container runtime and an HTTP
-- server are the environment's: an operation takes what they answer as arguments.
pub mod Stdio
pub mod Docker
pub mod Http
pub mod Lifecycle
pub mod Idempotence
use Prim.Native.String
use mcp_module.Json.{Any, string, slice, boolean, str}
use mcp_module.Common.{map, Dict, String, Option, none, some, List, [], ◌∷◌}
use mcp_module.Config.{ServerConfig}

pub data State : Type 0 where
  idle starting running stopping stopped error : State

-- `history` is not a field of the source: the states that SetState has set, the last one first, which
-- other goroutines may have seen through State().
pub record BaseAdapter : Type 0 where
  pub adapter_name : String
  pub server_cfg : ServerConfig
  pub state : State
  pub history : List State

-- SetState.
unfoldable pub set_state : State → BaseAdapter → BaseAdapter
set_state s b = record b { state = s; history = s ∷ b.history }

-- BaseAdapter.Config.
unfoldable pub config_map : BaseAdapter → Dict Any
config_map b =
    ("name", string b.adapter_name)
    ∷ ("command", string b.server_cfg.command)
    ∷ ("args", slice (map str b.server_cfg.args))
    ∷ ("transport", string b.server_cfg.transport)
    ∷ ("enabled", boolean b.server_cfg.enabled)
    ∷ []

-- What an operation leaves: the adapter, and the error that it returns (`none` is nil).
pub record Effect (A : Type 0) : Type 0 where
  pub adapter : A
  pub err : Option String

-- The answer of a call that may fail: nil or an error, with what it yields.
pub data Answer (A : Type 0) : Type 0 where
  yields : A → Answer A
  fails : String → Answer A
