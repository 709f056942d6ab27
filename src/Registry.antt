-- ===== src/Registry.antt =====
-- pkg/registry/registry.go: adapters by name, and the operations over all of them. An adapter is an
-- object behind an interface: its methods read and change a world of their own.
pub mod Entries
pub mod Order
pub mod Starting
pub mod Stopping
pub mod Health
use Prim.Native.String
use mcp_module.Common.{
  ℕ, String, Bool, true, false, Option, none, some, List, [], ◌∷◌, map, Dict, lookup, insert,
  delete, keys, length, if◌then◌else◌, ◌==◌,
}
use mcp_module.Json.{Runtime, is_empty}
use mcp_module.Range.{range}

-- A method that returns an error, by the error's text; `none` is nil.
abbrev pub Method : Type 0 → Type 0
Method W = W → W × Option String

pub record Adapter (W : Type 0) : Type 0 where
  pub name : String
  pub start : Method W
  pub stop : Method W
  pub health_check : Method W

abbrev pub Registry : Type 0 → Type 0
Registry W = Dict (Adapter W)

abbrev join : String → String → String
join a b = String.◌++◌ a b

-- fmt's %v of a slice of errors.
unfoldable pub join_errors : List String → String
join_errors [] = ""
join_errors (e ∷ []) = e
join_errors (e ∷ es) = join e (join " " (join_errors es))

abbrev pub start_error : String → String → String
start_error name e = join "failed to start adapter " (join name (join ": " e))

abbrev pub stop_error : String → String → String
stop_error name e = join "failed to stop adapter " (join name (join ": " e))

abbrev pub keep_error : Option String → String → List String → List String
keep_error none name errs = errs
keep_error (some m) name errs = stop_error name m ∷ errs

module _ {W : Type 0} where
  unfoldable pub new : Registry W
  new = []

  -- Register; the argument is an interface value, nil or not.
  unfoldable pub register : Option (Adapter W) → Registry W → Registry W × Option String
  register none r = (r, some "adapter cannot be nil")
  register (some a) r =
      if a.name == "" then (r, some "adapter name cannot be empty") else elim (lookup a.name r) [
        | some _ ↦ (r, some (join "adapter already registered: " a.name))
        | none ↦ (insert a.name a r, none)
      ]

  unfoldable pub unregister : String → Registry W → Registry W × Option String
  unregister name r = elim (lookup name r) [
    | none ↦ (r, some (join "adapter not found: " name))
    | some _ ↦ (delete name r, none)
  ]

  unfoldable pub get : String → Registry W → Option (Adapter W)
  get name r = lookup name r

  -- List: the keys in the order of `range`.
  unfoldable pub list : Runtime → Registry W → List String
  list go r = go.range_order (keys r)

  unfoldable pub count : Registry W → ℕ
  count r = length r

  -- The loop of StartAll.
  unfoldable pub start_each : List (Adapter W) → Method W
  start_each [] w = (w, none)
  start_each (a ∷ as') w =
      let (w', e) = a.start w in
      elim e [ some m ↦ (w', some (start_error a.name m)) | none ↦ start_each as' w' ]

  unfoldable pub start_all : Runtime → Registry W → Method W
  start_all go r = start_each (range go r)

  -- The loop of StopAll, with the errors that it appends.
  unfoldable pub stop_each : List (Adapter W) → W → W × List String
  stop_each [] w = (w, [])
  stop_each (a ∷ as') w =
      let (w', e) = a.stop w in
      let (w'', errs) = stop_each as' w' in (w'', keep_error e a.name errs)

  unfoldable pub stop_all : Runtime → Registry W → Method W
  unfolding stop_each
  stop_all go r w =
      let (w', errs) = stop_each (range go r) w in
      (
        w',
        if is_empty errs
            then none
            else some (join "errors stopping adapters: [" (join (join_errors errs) "]")),
      )

  -- The loop of HealthCheckAll over the map that it fills.
  unfoldable pub check_each : List (Adapter W) → W → Dict (Option String) → W × Dict (Option String)
  check_each [] w results = (w, results)
  check_each (a ∷ as') w results =
      let (w', e) = a.health_check w in check_each as' w' (insert a.name e results)

  unfoldable pub health_check_all : Runtime → Registry W → W → W × Dict (Option String)
  unfolding check_each
  health_check_all go r w = check_each (range go r) w []
