-- ===== src/Runner/Passing/Main.antt =====
-- The exit status of the runner.
use mcp_module.Common.{
  ◌≤◌, String, subst, sym, some, List, [], ◌∷◌, ◌++◌, map, length, ◌≡◌, arith, All,
}
use mcp_module.Json.{Value, Runtime}
use mcp_module.Json.Text.{Digits}
use mcp_module.Range.{VisitsAll}
use mcp_module.Runner.{FixtureInput, Verdict, pass, decode_fixture}
use mcp_module.Runner.Answers.{KeepsSmall}
use mcp_module.Runner.Exits.{IsPass, status_passes}
use mcp_module.Runner.Main.{document, all_sections, run_inputs, run}
use mcp_module.Runner.Protocol.{section1}
use mcp_module.Runner.Handshake.{section2}
use mcp_module.Runner.Tools.{section3}
use mcp_module.Runner.Resources.{section4}
use mcp_module.Runner.Prompts.{section5}
use mcp_module.Runner.Lifecycle.{section6}
use mcp_module.Runner.Passing.Rest.{IsSendable, section1-pass, section2_pass, section7_pass}
use mcp_module.Runner.Passing.Tools.{IsCallable, section3-pass}
use mcp_module.Runner.Passing.Resources.{IsReadable, section4-pass}
use mcp_module.Runner.Passing.Prompts.{IsGettable, section5-pass}
use mcp_module.Runner.Passing.Lifecycle.{section6_pass}

-- An input that no section refuses.
abbrev pub IsUsable : FixtureInput → Type 0
IsUsable i = IsSendable i × IsCallable i × IsReadable i × IsGettable i

module _ {ℓ κ μ} {A : Type ℓ} {P : A → Type κ} {Q : A → Type μ} (f : (a : A) → P a → Q a) where
  All-imp : (as' : List A) → All P as' → All Q as'
  All-imp [] _ = tt
  All-imp (a ∷ as') (h, hs) = (f a h, All-imp as' hs)

passes_then : (vs ws : List Verdict) → All IsPass vs → All IsPass ws → All IsPass (vs ++ ws)
passes_then [] ws _ hs = hs
passes_then (v ∷ vs) ws (h, hs) ks = (h, passes_then vs ws hs ks)

passes_each : {A : Type 0} (l : String) (as' : List A) → All IsPass (map (λ _. pass l) as')
passes_each l [] = tt
passes_each l (a ∷ as') = (tt, passes_each l as')

module _ (go : Runtime) (digits : Digits) (small : KeepsSmall go) (visits : VisitsAll go) where
  abbrev passing : {vs ws : List Verdict} → vs ≡ ws → All IsPass ws → All IsPass vs
  passing e h = subst (All IsPass) (sym e) h

  sections_pass :
      (inputs : List FixtureInput)
      → All IsUsable inputs
      → All IsPass (all_sections go digits inputs)
  unfolding all_sections
  sections_pass inputs hs =
      passes_then (section1 go digits inputs) _
        (passing (section1-pass go digits small inputs (All-imp (λ i h. h.0) inputs hs)) (
          passes_then (map (λ _. pass "[Section1][NewRequest]") inputs) _ (passes_each _ inputs)
            (tt, (tt, (tt, tt)))))
        (passes_then (section2 go) _ (passing (section2_pass go small) (tt, (tt, (tt, tt)))) (
          passes_then (section3 go digits inputs) _
            (passing (section3-pass go digits small visits inputs (All-imp (λ i h. h.1) inputs hs))
              (passes_each _ inputs))
            (passes_then (section4 go digits inputs) _
              (passing
                (section4-pass go digits small visits inputs (All-imp (λ i h. h.2) inputs hs))
                (passes_each _ inputs))
              (passes_then (section5 go digits inputs) _
                (passing
                  (section5-pass go digits small visits inputs (All-imp (λ i h. h.3) inputs hs))
                  (passes_each _ inputs))
                (passes_then (section6 go) _
                  (passing (section6_pass go visits)
                    (tt, (tt, (tt, (tt, (tt, (tt, (tt, (tt, tt)))))))))
                  (passing (section7_pass go) (tt, (tt, (tt, tt)))))))))

  -- The runner ends with the status 0, having reported no failure, for every fixture file that decodes
  -- to three inputs or more, where in each input the texts that it looks for in the JSON are written
  -- without escapes and the value of the tool's argument has as many characters as are expected; in
  -- whatever order `range` visits a map, and where float64 keeps the integers up to 2^53.
  pub run_passes :
      (v : Value) (inputs : List FixtureInput)
      → decode_fixture v ≡ some inputs
      → 3 ≤ length inputs
      → All IsUsable inputs
      → run go digits (document v) ≡ 0
  unfolding run run_inputs
  run_passes v inputs e enough hs =
      rw e (ground (arith, status_passes (all_sections go digits inputs) (sections_pass inputs hs)))
