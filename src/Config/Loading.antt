-- ===== src/Config/Loading.antt =====
-- pkg/config/config.go, LoadFromFile: the file is read whole, and its extension chooses the format.
-- Reading the file and decoding its JSON are functions that the caller of the model supplies.
use mcp_module.Common.{ℕ, String, List, ◌≡◌, ◌↔◌, ◌⊎◌, inl, inr, refl, arith}
use mcp_module.Protocol.{Result, ok, failed}
use mcp_module.Config.{FileConfig}
use mcp_module.Config.Formats.{
  Format, json, yaml, unsupported, format_of, IsKnown, format_of-IsKnown, IsKnown-format_of,
}

pub data LoadError : Type 0 where
  read_failed parse_json_failed parse_yaml_failed : String → LoadError
  format_unsupported : List ℕ → LoadError

pub data Loaded : Type 0 where
  loaded : FileConfig → Loaded
  not_loaded : LoadError → Loaded

module _ (read : List ℕ → Result (List ℕ)) (unmarshal_config : List ℕ → Result FileConfig) where
  unfoldable pub parse_as : Format → List ℕ → Loaded
  parse_as json content = elim (unmarshal_config content) [
    | ok config ↦ loaded config
    | failed m ↦ not_loaded (parse_json_failed m)
  ]
  parse_as yaml content = elim (unmarshal_config content) [
    | ok config ↦ loaded config
    | failed m ↦ not_loaded (parse_yaml_failed m)
  ]
  parse_as (unsupported e) content = not_loaded (format_unsupported e)

  unfoldable pub load_content : Format → Result (List ℕ) → Loaded
  load_content f (failed m) = not_loaded (read_failed m)
  load_content f (ok content) = parse_as f content

  unfoldable pub load_from_file : List ℕ → Loaded
  unfolding load_content parse_as
  load_from_file path = load_content (format_of path) (read path)

  parse_as-loaded :
      (f : Format) (content : List ℕ) (config : FileConfig)
      → parse_as f content ≡ loaded config
      → ((f ≡ json) ⊎ (f ≡ yaml)) × (unmarshal_config content ≡ ok config)
  unfolding parse_as
  parse_as-loaded json content config h = ground arith
  parse_as-loaded yaml content config h = ground arith
  parse_as-loaded (unsupported e) content config h = cc

  load_content-loaded :
      (f : Format) (r : Result (List ℕ)) (config : FileConfig)
      → load_content f r ≡ loaded config
      → (content : List ℕ) × (r ≡ ok content)
        × ((f ≡ json) ⊎ (f ≡ yaml))
        × (unmarshal_config content ≡ ok config)
  unfolding load_content
  load_content-loaded f (failed m) config h = cc
  load_content-loaded f (ok content) config h =
      let (format, decoded) = parse_as-loaded f content config h in (content, refl, format, decoded)

  loaded-load_content :
      (f : Format) (r : Result (List ℕ)) (config : FileConfig)
      → (content : List ℕ) × (r ≡ ok content)
        × ((f ≡ json) ⊎ (f ≡ yaml))
        × (unmarshal_config content ≡ ok config)
      → load_content f r ≡ loaded config
  unfolding load_content parse_as
  loaded-load_content f r config (content, e, inl j, h) = rw (e, j, load_content, parse_as, h) refl
  loaded-load_content f r config (content, e, inr y, h) = rw (e, y, load_content, parse_as, h) refl

  -- LoadFromFile returns a configuration exactly if the file can be read, its path ends in .json,
  -- .yaml or .yml in any case of letters, and its content decodes, as JSON, to that configuration.
  pub load_from_file_iff :
      (path : List ℕ) (config : FileConfig)
      → (load_from_file path ≡ loaded config) ↔ (
          (content : List ℕ) × (read path ≡ ok content)
          × IsKnown path
          × (unmarshal_config content ≡ ok config))
  unfolding load_from_file
  load_from_file_iff path config = (
    λ e.
        let (content, found, format, decoded) =
          load_content-loaded (format_of path) (read path) config e in
        (content, found, format_of-IsKnown path format, decoded),
    λ (content, found, known, decoded).
        loaded-load_content (format_of path) (read path) config
          (content, found, IsKnown-format_of path known, decoded),
  )
