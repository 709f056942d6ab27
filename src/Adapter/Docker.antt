-- ===== src/Adapter/Docker.antt =====
-- pkg/adapter/adapter.go: DockerAdapter. Commands of docker are answered by the environment; their
-- output is text.
use mcp_module.Common.{
  codes, String, Bool, false, ◌&&◌, Option, none, some, List, [], ◌∷◌, ◌++◌, Dict, map, contains,
  if◌then◌else◌, ◌==◌,
}
use mcp_module.Common.Int.{ℤ, is_pos}
use mcp_module.Common.Letters.{lower}
use mcp_module.Config.{ServerConfig, ContainerConfig, image_ref, join}
use mcp_module.Adapter.{
  State, idle, starting, running, stopping, stopped, error, BaseAdapter, set_state, Effect, Answer,
  yields, fails,
}
use mcp_module.Adapter.Stdio.{binding}
use mcp_module.Adapter.Http.{Fetched, HealthError, not_found, not_running, judge_fetch}

pub record DockerAdapter : Type 0 where
  pub base : BaseAdapter
  pub container : ContainerConfig
  pub container_id : String

unfoldable pub new_docker_adapter : String → ServerConfig → ContainerConfig → DockerAdapter
new_docker_adapter name server_cfg container_cfg = record {
  base = record { adapter_name = name; server_cfg = server_cfg; state = idle; history = [] };
  container = container_cfg;
  container_id = "";
}

abbrev env_args : Dict String → List String
env_args [] = []
env_args (e ∷ es) = "-e" ∷ binding e ∷ env_args es

abbrev volume_args : List String → List String
volume_args [] = []
volume_args (v ∷ vs) = "-v" ∷ v ∷ volume_args vs

abbrev option_args : String → String → List String
option_args flag value = if value == "" then [] else flag ∷ value ∷ []

-- The arguments of `docker run`. `show` prints an int in decimal (fmt's %d); the dictionary is the
-- container's environment in the order of `range`.
unfoldable pub run_args : (ℤ → String) → Dict String → DockerAdapter → List String
run_args show env a =
    let c = a.container in
    ("run" ∷ "-d" ∷ "--name" ∷ a.base.adapter_name ∷ [])
    ++ ((if is_pos c.port && is_pos c.host_port
          then "-p" ∷ join (show c.host_port) (join ":" (show c.port)) ∷ []
          else [])
        ++ (env_args env
            ++ (volume_args c.volumes
                ++ (option_args "--network" c.network
                    ++ (option_args "--restart" c.restart_policy ++ (image_ref c ∷ c.command))))))

abbrev pub with_state : State → DockerAdapter → DockerAdapter
with_state s a = record a { base = set_state s a.base }

-- After `docker run`.
unfoldable pub ran : DockerAdapter → Answer String → Effect DockerAdapter
ran a (fails m) = record {
  adapter = with_state error a;
  err = some (join "failed to start container: " m);
}
ran a (yields output) = record {
  adapter = record a { base = set_state running a.base; container_id = output };
  err = none;
}

-- Start; `docker` runs a command and yields its standard output.
unfoldable pub docker_start :
    (ℤ → String)
    → Dict String
    → (List String → Answer String)
    → DockerAdapter
    → Effect DockerAdapter
unfolding ran run_args
docker_start show env docker a = ran (with_state starting a) (docker (run_args show env a))

-- isNoSuchContainer.
unfoldable pub is_no_such_container : String → Bool
is_no_such_container output = contains (codes "no such container") (map lower (codes output))

-- What `docker rm -f` does: it succeeds, or fails with an error and a combined output.
pub data Removal : Type 0 where
  removed : Removal
  not_removed : (err output : String) → Removal

abbrev pub gone : DockerAdapter → Effect DockerAdapter
gone a = record { adapter = with_state stopped a; err = none }

abbrev pub not_gone : DockerAdapter → String → Effect DockerAdapter
not_gone a m = record {
  adapter = with_state error a;
  err = some (join "failed to stop container: " m);
}

-- After `docker rm -f`.
unfoldable pub after_removal : DockerAdapter → Removal → Effect DockerAdapter
unfolding is_no_such_container
after_removal a removed = gone a
after_removal a (not_removed m output) =
    if is_no_such_container output then gone a else not_gone a m

-- Stop; `rm` is `docker rm -f` of a name.
unfoldable pub docker_stop : (String → Removal) → DockerAdapter → Effect DockerAdapter
unfolding after_removal
docker_stop rm a =
    if a.container_id == ""
    then gone a
    else after_removal (with_state stopping a) (rm a.base.adapter_name)

-- HealthCheck: by HTTP where an endpoint is configured, otherwise by `docker inspect`.
unfoldable pub docker_health_check :
    (ℤ → String)
    → (String → Fetched)
    → (String → Answer String)
    → DockerAdapter
    → Option HealthError
unfolding judge_fetch
docker_health_check show fetch inspect a =
    if (if a.container.health_check == "" then false else is_pos a.container.host_port)
    then judge_fetch (
        fetch
          (join "http://localhost:" (join (show a.container.host_port) a.container.health_check)))
    else elim (inspect a.base.adapter_name) [
      | fails m ↦ some (not_found m)
      | yields output ↦ if output == "true\n" then none else some not_running
    ]
