-- ===== src/Runner/Exits.antt =====
-- challenges/runner/main.go: the exit status, from what the sections count.
use mcp_module.Common.{
  ℕ, ◌≤◌, true, false, Bool-cases, inl, inr, Option, none, some, List, [], ◌∷◌, length, ◌≡◌, ◌≢◌,
  ◌↔◌, refl, arith, All, ltb,
}
use mcp_module.Json.{Value, Runtime}
use mcp_module.Json.Text.{Digits}
use mcp_module.Runner.{FixtureInput, Verdict, pass, fail, panics, decode_fixture}
use mcp_module.Runner.Main.{
  FixtureFile, unreadable, malformed, document, all_sections, status_of, run_inputs, run,
}

abbrev pub IsPass : Verdict → Type 0
IsPass (pass _) = Unit
IsPass (fail _) = ⊥
IsPass panics = ⊥

pub status_passes : (vs : List Verdict) → All IsPass vs → status_of false vs ≡ 0
unfolding status_of
status_passes [] _ = refl
status_passes (pass l ∷ vs) (_, hs) = status_passes vs hs
status_passes (fail l ∷ vs) (h, _) = absurd h
status_passes (panics ∷ vs) (h, _) = absurd h

failed_status : (vs : List Verdict) → status_of true vs ≢ 0
unfolding status_of
failed_status [] e = omega arith
failed_status (pass l ∷ vs) e = failed_status vs e
failed_status (fail l ∷ vs) e = failed_status vs e
failed_status (panics ∷ vs) e = omega arith

two_not_zero : ◌≢◌ {A = ℕ} 2 0
two_not_zero e = omega arith

passes_status : (vs : List Verdict) → status_of false vs ≡ 0 → All IsPass vs
unfolding status_of
passes_status [] _ = tt
passes_status (pass l ∷ vs) e = (tt, passes_status vs e)
passes_status (fail l ∷ vs) e = absurd (failed_status vs e)
passes_status (panics ∷ vs) e = absurd (two_not_zero e)

-- A fixture file that is read and has three inputs or more, for which every check passes.
pub record Passes (go : Runtime) (digits : Digits) (file : FixtureFile) : Type 0 where
  pub value : Value
  pub inputs : List FixtureInput
  pub written : file ≡ document value
  pub decoded : decode_fixture value ≡ some inputs
  pub enough : 3 ≤ length inputs
  pub all_pass : All IsPass (all_sections go digits inputs)

module _ (go : Runtime) (digits : Digits) where
  run_inputs-Passes :
      (v : Value) (o : Option (List FixtureInput))
      → decode_fixture v ≡ o
      → run_inputs go digits o ≡ 0
      → Passes go digits (document v)
  unfolding run_inputs
  run_inputs-Passes v none e zero = absurd (two_not_zero zero)
  run_inputs-Passes v (some inputs) e zero = elim (Bool-cases (ltb (length inputs) 3)) [
    | inl few ↦ let never = rw few at zero in absurd (two_not_zero never)
    | inr enough ↦ record {
      value = v;
      inputs = inputs;
      written = refl;
      decoded = e;
      enough = ground arith;
      all_pass = passes_status (all_sections go digits inputs) (rw enough at zero);
    }
  ]

  -- The runner ends with the status 0 exactly where the fixture file is read, decodes to three inputs
  -- or more, and every section comes to its end without a failure or a panic.
  pub run_zero_iff : (file : FixtureFile) → (run go digits file ≡ 0) ↔ Passes go digits file
  unfolding run run_inputs
  run_zero_iff unreadable = (λ e. absurd (two_not_zero e), λ p. let never = p.written in cc)
  run_zero_iff malformed = (λ e. absurd (two_not_zero e), λ p. let never = p.written in cc)
  run_zero_iff (document v) = (
    run_inputs-Passes v (decode_fixture v) refl,
    λ p.
        let same : v ≡ p.value = cc (p.written) in
        let found : decode_fixture v ≡ some p.inputs = cc (p.decoded, same) in
        let its = p.enough in
        rw found (ground (arith, status_passes (all_sections go digits p.inputs) p.all_pass)),
  )
