-- ===== src/Registry/Starting.antt =====
-- pkg/registry/registry.go: StartAll.
use mcp_module.Common.{String, Option, none, some, List, [], ◌∷◌, ◌++◌, ◌≡◌}
use mcp_module.Registry.{Adapter, Registry, start_error}

module _ {W : Type 0} where
  -- The adapters start one after another, without an error, from the first world to the second.
  pub data AllStart : List (Adapter W) → W → W → Type 0 where
    done : {w : W} → AllStart [] w w
    next :
        {a : Adapter W} {as' : List (Adapter W)} {w w' w'' : W}
        → a.start w ≡ (w', none)
        → AllStart as' w' w''
        → AllStart (a ∷ as') w w''

  -- The adapters before one of them start; that one fails, with the error reported and under its
  -- name; those after it are not touched.
  pub record OneFails (visited : List (Adapter W)) (w w' : W) (e : String) : Type 0 where
    pub before : List (Adapter W)
    pub failing : Adapter W
    pub rest : List (Adapter W)
    pub world : W
    pub message : String
    pub split : visited ≡ before ++ failing ∷ rest
    pub started : AllStart before w world
    pub fails : failing.start world ≡ (w', some message)
    pub reported : e ≡ start_error failing.name message

  -- What a run of starts over these adapters says.
  abbrev pub StartsOr : List (Adapter W) → W → W × Option String → Type 0
  StartsOr visited w (w', none) = AllStart visited w w'
  StartsOr visited w (w', some e) = OneFails visited w w' e
