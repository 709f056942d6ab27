-- ===== src/Client/Config.antt =====
-- pkg/client/client.go (Config, DefaultConfig) and the defaults that NewStdioClient and
-- NewHTTPClient fill in. Durations are numbers of nanoseconds.
use Prim.Native.String
use Prim.Native.Char.{code}
use mcp_module.Common.{ℕ, ◌*◌, String, List, [], Dict, if◌then◌else◌, ◌==◌, nat_eq}
use mcp_module.Protocol.{Result, ok, failed}

pub data Transport : Type 0 where
  stdio http : Transport

pub record Config : Type 0 where
  pub transport : Transport
  pub server_command : String
  pub server_args : List String
  pub server_env : Dict String
  pub server_url : String
  pub timeout : ℕ
  pub client_name : String
  pub client_version : String

unfoldable pub default_config : Config
default_config = record {
  transport = stdio;
  server_command = "";
  server_args = [];
  server_env = [];
  server_url = "";
  timeout = 30 * 1_000_000_000;
  client_name = "mcp-client";
  client_version = "1.0.0";
}

-- The three tests on an unset field, the same in both constructors.
unfoldable pub with_defaults : Config → Config
unfolding default_config
with_defaults c = record c {
  timeout = if nat_eq c.timeout 0 then default_config.timeout else c.timeout;
  client_name = if c.client_name == "" then default_config.client_name else c.client_name;
  client_version =
      if c.client_version == "" then default_config.client_version else c.client_version;
}

-- NewStdioClient, by the configuration that the new client holds.
unfoldable pub new_stdio_client : Config → Result Config
unfolding with_defaults
new_stdio_client c =
    if c.server_command == ""
    then failed "server command is required for stdio client"
    else ok (with_defaults c)

-- strings.TrimRight(s, "/").
unfoldable pub trim_slashes : String → String
trim_slashes String.[] = ""
trim_slashes (String.◌∷◌ c s) =
    let rest = trim_slashes s in
    if rest == "" then (if nat_eq (code c) b'/' then "" else String.◌∷◌ c "") else String.◌∷◌ c rest

-- NewHTTPClient, by the configuration and the message endpoint that the new client holds.
pub record HttpEndpoints : Type 0 where
  pub config : Config
  pub message_endpoint : String

unfoldable pub new_http_client : Config → Result HttpEndpoints
unfolding with_defaults trim_slashes
new_http_client c =
    if c.server_url == ""
    then failed "server URL is required for HTTP client"
    else ok (record {
      config = with_defaults c;
      message_endpoint = String.◌++◌ (trim_slashes c.server_url) "/message";
    })

-- Connect requests this address.
unfoldable pub sse_url : Config → String
unfolding trim_slashes
sse_url c = String.◌++◌ (trim_slashes c.server_url) "/sse"
