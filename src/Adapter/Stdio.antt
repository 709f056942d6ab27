-- ===== src/Adapter/Stdio.antt =====
-- pkg/adapter/adapter.go: StdioAdapter.
use mcp_module.Common.{
  ℕ, String, Option, none, some, List, [], ◌++◌, map, Dict, if◌then◌else◌, ◌==◌,
}
use mcp_module.Config.{ServerConfig, transport_stdio, join}
use mcp_module.Adapter.{
  State, idle, starting, running, stopping, stopped, error, BaseAdapter, set_state, Effect, Answer,
  yields, fails,
}

-- exec.Cmd: what it is to run, and the process once Start has succeeded.
pub record Cmd : Type 0 where
  pub path : String
  pub args : List String
  pub env : List String
  pub dir : String
  pub process : Option ℕ

pub record StdioAdapter : Type 0 where
  pub base : BaseAdapter
  pub cmd : Option Cmd

unfoldable pub new_stdio_adapter : String → ServerConfig → StdioAdapter
new_stdio_adapter name cfg = record {
  base = record {
    adapter_name = name;
    server_cfg = record cfg { transport = transport_stdio };
    state = idle;
    history = [];
  };
  cmd = none;
}

abbrev pub binding : String × String → String
binding (k, v) = join k (join "=" v)

-- The command that Start builds; the second argument is the configuration's environment in the
-- order of `range`, the first os.Environ().
unfoldable pub command : List String → Dict String → ServerConfig → Cmd
command environ env cfg = record {
  path = cfg.command;
  args = cfg.args;
  env = environ ++ map binding env;
  dir = if cfg.working_dir == "" then "" else cfg.working_dir;
  process = none;
}

abbrev pub with_state : State → StdioAdapter → StdioAdapter
with_state s a = record a { base = set_state s a.base }

-- After exec.Cmd.Start.
unfoldable pub launched : StdioAdapter → Cmd → Answer ℕ → Effect StdioAdapter
launched a c (fails m) = record {
  adapter = record { base = set_state error a.base; cmd = some c };
  err = some (join "failed to start process: " m);
}
launched a c (yields pid) = record {
  adapter = record {
    base = set_state running a.base;
    cmd = some (record c { process = some pid });
  };
  err = none;
}

-- Start; `launch` is exec.Cmd.Start, which yields a process or an error.
unfoldable pub stdio_start :
    List String → Dict String → (Cmd → Answer ℕ) → StdioAdapter → Effect StdioAdapter
unfolding launched command
stdio_start environ env launch a =
    let c = command environ env a.base.server_cfg in launched (with_state starting a) c (launch c)

abbrev pub process_of : Option Cmd → Option ℕ
process_of none = none
process_of (some c) = c.process

abbrev pub stopped_now : StdioAdapter → Effect StdioAdapter
stopped_now a = record { adapter = with_state stopped a; err = none }

-- After os.Process.Kill; Wait follows a nil error, and its own error is dropped.
unfoldable pub killed : StdioAdapter → Option String → Effect StdioAdapter
killed a (some m) = record {
  adapter = with_state error a;
  err = some (join "failed to kill process: " m);
}
killed a none = stopped_now a

unfoldable pub stop_process : (ℕ → Option String) → StdioAdapter → Option ℕ → Effect StdioAdapter
stop_process kill a none = stopped_now a
stop_process kill a (some pid) = killed a (kill pid)

-- Stop; `kill` is os.Process.Kill, whose nil error is `none`.
unfoldable pub stdio_stop : (ℕ → Option String) → StdioAdapter → Effect StdioAdapter
unfolding stop_process killed
stdio_stop kill a = stop_process kill (with_state stopping a) (process_of a.cmd)

-- HealthCheck; `signal` is os.Process.Signal(nil), whose nil error is `none`.
unfoldable pub stdio_health_check : (ℕ → Option String) → StdioAdapter → Option String
stdio_health_check signal a = elim (process_of a.cmd) [
  | none ↦ some "process not started"
  | some pid ↦ elim (signal pid) [ some m ↦ some (join "process not running: " m) | none ↦ none ]
]
