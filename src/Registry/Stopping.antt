-- ===== src/Registry/Stopping.antt =====
-- pkg/registry/registry.go: StopAll.
use mcp_module.Common.{String, Option, none, some, List, [], ◌∷◌, ◌≡◌, ◌↔◌, refl, arith}
use mcp_module.Json.{Runtime}
use mcp_module.Range.{range}
use mcp_module.Registry.{Adapter, Registry, stop_each, stop_all, stop_error, keep_error}

module _ {W : Type 0} where
  -- Every adapter is told to stop, one after another; the list holds an error for each that fails,
  -- in that order.
  pub data Stops : List (Adapter W) → W → W → List String → Type 0 where
    done : {w : W} → Stops [] w w []
    clean :
        {a : Adapter W} {as' : List (Adapter W)} {w w' w'' : W} {errs : List String}
        → a.stop w ≡ (w', none)
        → Stops as' w' w'' errs
        → Stops (a ∷ as') w w'' errs
    dirty :
        {a : Adapter W} {as' : List (Adapter W)} {w w' w'' : W} {errs : List String} {m : String}
        → a.stop w ≡ (w', some m)
        → Stops as' w' w'' errs
        → Stops (a ∷ as') w w'' (stop_error a.name m ∷ errs)

  Stops-step :
      (a : Adapter W) (as' : List (Adapter W)) (w : W) (r : W × Option String) {w'' : W}
      {errs : List String}
      → a.stop w ≡ r
      → Stops as' r.0 w'' errs
      → Stops (a ∷ as') w w'' (keep_error r.1 a.name errs)
  Stops-step a as' w (w', none) h s = clean h s
  Stops-step a as' w (w', some m) h s = dirty h s

  stop_each-Stops :
      (as' : List (Adapter W)) (w : W) → Stops as' w (stop_each as' w).0 (stop_each as' w).1
  unfolding stop_each
  stop_each-Stops [] w = done
  stop_each-Stops (a ∷ as') w =
      Stops-step a as' w (a.stop w) refl (stop_each-Stops as' (a.stop w).0)

-- StopAll tells every adapter that `range` visits to stop, also after failures, and returns nil
-- exactly if none failed.
pub stop_all-Stops :
    {W : Type 0} (go : Runtime) (r : Registry W) (w : W)
    → (errs : List String) × Stops (range go r) w (stop_all go r w).0 errs
      × (((stop_all go r w).1 ≡ none) ↔ (errs ≡ []))
unfolding stop_all
stop_all-Stops go r w = ((stop_each (range go r) w).1, stop_each-Stops (range go r) w, ground arith)
