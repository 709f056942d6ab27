-- ===== src/Runner/Passing.antt =====
-- The sections of challenges/runner/main.go, and its exit status.
pub mod Tools
pub mod Resources
pub mod Prompts
pub mod Rest
pub mod Lifecycle
pub mod Main
use mcp_module.Common.{String, List, [], ◌∷◌, ◌++◌, map, ◌≡◌, refl, ap, ◌∙◌, All}
use mcp_module.Runner.{FixtureInput, Verdict, pass, for_inputs}

-- Where each input gives one verdict, the loop gives one for each.
pub for_inputs-map :
    (check : FixtureInput → List Verdict) (v : Verdict) (P : FixtureInput → Type 0)
    → ((i : FixtureInput) → P i → check i ≡ v ∷ [])
    → (inputs : List FixtureInput) → All P inputs
    → for_inputs check inputs ≡ map (λ _. v) inputs
unfolding for_inputs
for_inputs-map check v P one [] _ = refl
for_inputs-map check v P one (i ∷ inputs) (h, hs) =
    rw (one i h) (ap (λ vs. v ∷ vs) (for_inputs-map check v P one inputs hs))
