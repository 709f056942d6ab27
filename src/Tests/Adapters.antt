-- ===== src/Tests/Adapters.antt =====
-- Adapters of a process and of a container.
use mcp_module.Common.{ℕ, String, none, some, List, [], ◌≡◌, refl}
use mcp_module.Common.Int.{ℤ}
use mcp_module.Config.{join}
use mcp_module.Adapter.{running, stopped, error, Answer, yields, fails}
use mcp_module.Adapter.Stdio.{Cmd, StdioAdapter, stdio_stop}
use mcp_module.Adapter.Docker.{
  DockerAdapter, Removal, not_removed, docker_start, docker_stop, run_args,
}
use mcp_module.Adapter.Lifecycle.{Starts, Stops, docker-Settles}
use mcp_module.Adapter.Idempotence.{stdio_stop_twice}
use mcp_module.Tests.Configs.{files_server, image}

abbrev process : StdioAdapter
process = record {
  base = record {
    adapter_name = "files";
    server_cfg = files_server;
    state = running;
    history = [];
  };
  cmd = some (record { path = "npx"; args = []; env = []; dir = ""; process = some 41 });
}

abbrev container : DockerAdapter
container = record {
  base = record {
    adapter_name = "files";
    server_cfg = files_server;
    state = running;
    history = [];
  };
  container = image;
  container_id = "4f1c";
}

abbrev launch : Cmd → Answer ℕ
launch c = yields 42

abbrev docker : List String → Answer String
docker _ = fails "exit status 125"

abbrev rm : String → Removal
rm _ = not_removed "exit status 1" "Error: No such container: files"

abbrev show : ℤ → String
show _ = "80"

docker-Settles_example :
    Starts container (docker_start show [] docker container) (docker (run_args show [] container))
    × Stops container (docker_stop rm container) (rm "files")
docker-Settles_example = docker-Settles show [] docker rm container

stdio_stop_twice_example :
    ((stdio_stop (λ _. none) process).adapter.base.state ≡ stopped)
    × ((stdio_stop
          (λ _. some "os: process already finished")
          (stdio_stop (λ _. none) process).adapter).adapter.base.state
        ≡ error)
    × ((stdio_stop
          (λ _. some "os: process already finished")
          (stdio_stop (λ _. none) process).adapter).err
        ≡ some (join "failed to kill process: " "os: process already finished"))
stdio_stop_twice_example =
    stdio_stop_twice (λ _. none) (λ _. some "os: process already finished") process 41
      "os: process already finished" refl refl refl
