-- ===== src/Adapter/Http.antt =====
-- pkg/adapter/adapter.go: HTTPAdapter, and the check of a URL that DockerAdapter shares.
use mcp_module.Common.{ℕ, String, Option, none, some, [], leb, if◌then◌else◌, ◌==◌}
use mcp_module.Config.{ServerConfig, transport_http, join}
use mcp_module.Adapter.{idle, running, stopped, BaseAdapter, set_state, Effect}

pub record HttpAdapter : Type 0 where
  pub base : BaseAdapter

unfoldable pub new_http_adapter : String → ServerConfig → HttpAdapter
new_http_adapter name cfg = record {
  base = record {
    adapter_name = name;
    server_cfg = record cfg { transport = transport_http };
    state = idle;
    history = [];
  };
}

unfoldable pub http_start : HttpAdapter → Effect HttpAdapter
unfolding set_state
http_start a = record { adapter = record { base = set_state running a.base }; err = none }

unfoldable pub http_stop : HttpAdapter → Effect HttpAdapter
unfolding set_state
http_stop a = record { adapter = record { base = set_state stopped a.base }; err = none }

-- What a GET of a URL leads to: no request can be made of the URL, the request fails, or a response
-- with a status comes.
pub data Fetched : Type 0 where
  bad_url no_answer : String → Fetched
  status : ℕ → Fetched

pub data HealthError : Type 0 where
  no_url not_running : HealthError
  request_failed check_failed not_found : String → HealthError
  bad_status : ℕ → HealthError

-- `none` is nil: healthy.
unfoldable pub judge_fetch : Fetched → Option HealthError
judge_fetch (bad_url m) = some (request_failed m)
judge_fetch (no_answer m) = some (check_failed m)
judge_fetch (status n) = if leb 400 n then some (bad_status n) else none

unfoldable pub http_health_check : (String → Fetched) → HttpAdapter → Option HealthError
unfolding judge_fetch
http_health_check fetch a =
    if a.base.server_cfg.url == ""
    then some no_url
    else judge_fetch (fetch (join a.base.server_cfg.url "/health"))
