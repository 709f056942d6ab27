-- ===== src/Tests/Configs.antt =====
-- Configurations of a server, a container and a file.
use mcp_module.Common.{codes, ℕ, true, List, [], ◌∷◌, ◌≡◌, ◌↔◌, refl}
use mcp_module.Common.Int.{pos}
use mcp_module.Protocol.{Result, ok}
use mcp_module.Config.{ServerConfig, ContainerConfig, FileConfig, validate_file}
use mcp_module.Config.Files.{Judges, validate_file-Judges}
use mcp_module.Common.Letters.{lower}
use mcp_module.Config.Formats.{ext, format_of_ext, format_of, IsKnown}
use mcp_module.Config.Loading.{parse_as, load_content, load_from_file, loaded, load_from_file_iff}

abbrev pub files_server : ServerConfig
files_server = record {
  name = "files";
  command = "npx";
  args = [];
  env = [];
  transport = "stdio";
  url = "";
  working_dir = "";
  enabled = true;
  description = "";
  version = "";
}

abbrev remote : ServerConfig
remote = record files_server { name = "remote"; transport = "http" }

abbrev pub image : ContainerConfig
image = record {
  image = "mcp/files";
  tag = "";
  port = pos 80;
  host_port = pos 70000;
  env = [];
  volumes = [];
  network = "";
  command = [];
  health_check = "";
  restart_policy = "";
}

abbrev file : FileConfig
file = record { servers = files_server ∷ remote ∷ []; containers = image ∷ [] }

validate_file-Judges_example : Judges file (validate_file file)
validate_file-Judges_example = validate_file-Judges file

abbrev read : List ℕ → Result (List ℕ)
read _ = ok []

abbrev unmarshal_config : List ℕ → Result FileConfig
unmarshal_config _ = ok file

load_from_file_iff_example :
    (load_from_file read unmarshal_config (codes "mcp.JSON") ≡ loaded file) ↔ (
      (content : List ℕ) × (read (codes "mcp.JSON") ≡ ok content)
      × IsKnown (codes "mcp.JSON")
      × (unmarshal_config content ≡ ok file))
load_from_file_iff_example = load_from_file_iff read unmarshal_config (codes "mcp.JSON") file

loads : load_from_file read unmarshal_config (codes "mcp.JSON") ≡ loaded file
unfolding load_from_file load_content parse_as format_of ext format_of_ext lower
loads = refl
