-- ===== src/Config.antt =====
-- pkg/config/config.go: server and container configurations, their validation, and loading a file.
pub mod Validation
pub mod Files
pub mod Formats
pub mod Loading
use Prim.Native.String
use mcp_module.Common.{
  ℕ, suc, ◌+◌, String, Bool, true, false, ◌||◌, Option, none, some, List, [], ◌∷◌, Dict,
  if◌then◌else◌, ◌==◌,
}
use mcp_module.Common.Int.{ℤ, pos, is_neg, exceeds}

abbrev pub join : String → String → String
join a b = String.◌++◌ a b

-- TransportType is a string.
abbrev pub transport_stdio : String
transport_stdio = "stdio"

abbrev pub transport_http : String
transport_http = "http"

pub record ServerConfig : Type 0 where
  pub name : String
  pub command : String
  pub args : List String
  pub env : Dict String
  pub transport : String
  pub url : String
  pub working_dir : String
  pub enabled : Bool
  pub description : String
  pub version : String

-- The errors of the two Validate methods, with the values that their texts name.
pub data ConfigError : Type 0 where
  name_required : ConfigError
  transport_required command_required url_required : (server : String) → ConfigError
  unknown_transport : (transport server : String) → ConfigError
  image_required : ConfigError
  invalid_container_port invalid_host_port : (port : ℤ) → ConfigError

-- ServerConfig.Validate; `none` is nil.
unfoldable pub validate_server : ServerConfig → Option ConfigError
validate_server c =
    if c.name == ""
    then some name_required
    else if c.transport == ""
    then some (transport_required c.name)
    else if c.transport == transport_stdio
    then (if c.command == "" then some (command_required c.name) else none)
    else if c.transport == transport_http
    then (if c.url == "" then some (url_required c.name) else none)
    else some (unknown_transport c.transport c.name)

pub record ContainerConfig : Type 0 where
  pub image : String
  pub tag : String
  pub port : ℤ
  pub host_port : ℤ
  pub env : Dict String
  pub volumes : List String
  pub network : String
  pub command : List String
  pub health_check : String
  pub restart_policy : String

-- `p < 0 || p > 65535`.
abbrev pub out_of_range : ℤ → Bool
out_of_range p = is_neg p || exceeds p 65535

unfoldable pub validate_container : ContainerConfig → Option ConfigError
validate_container c =
    if c.image == ""
    then some image_required
    else if out_of_range c.port
    then some (invalid_container_port c.port)
    else if out_of_range c.host_port
    then some (invalid_host_port c.host_port)
    else none

unfoldable pub image_ref : ContainerConfig → String
image_ref c = if c.tag == "" then c.image else join c.image (join ":" c.tag)

pub record FileConfig : Type 0 where
  pub servers : List ServerConfig
  pub containers : List ContainerConfig

-- An error of FileConfig.Validate: the kind of entry, its index and the entry's error.
pub data FileError : Type 0 where
  server_error container_error : (index : ℕ) → ConfigError → FileError

-- The loops of FileConfig.Validate, from an index on.
unfoldable pub validate_from {ℓ} :
    {A : Type ℓ} → (A → Option ConfigError) → ℕ → List A → Option (ℕ × ConfigError)
validate_from check i [] = none
validate_from check i (x ∷ xs) = elim (check x) [
  | some e ↦ some (i, e)
  | none ↦ validate_from check (i + 1) xs
]

-- The containers count only where no server is refused.
unfoldable pub report : Option (ℕ × ConfigError) → Option (ℕ × ConfigError) → Option FileError
report (some (i, e)) containers = some (server_error i e)
report none (some (i, e)) = some (container_error i e)
report none none = none

unfoldable pub validate_file : FileConfig → Option FileError
unfolding validate_from report
validate_file f =
    report (validate_from validate_server 0 f.servers)
      (validate_from validate_container 0 f.containers)
