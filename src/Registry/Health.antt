-- ===== src/Registry/Health.antt =====
-- pkg/registry/registry.go: HealthCheckAll.
use mathlib.Core.List.Perm
use mathlib.Core.Logic.Or
use mathlib.Core.HLevel.{⊥_prop, Π_prop}
use mathlib.Core.List.{Mem, mem-cons, mem-cons_self, mem-cons_of_mem, not-mem-nil}
use mcp_module.Common.{
  String, Option, none, List, [], ◌∷◌, map, Dict, lookup, keys, lookup-insert, All, Perm, ◌≡◌, ◌≢◌,
  ◌↔◌, refl, subst, arith, eq_iff, ◌==◌, Bool-cases, inl, inr,
}
use mcp_module.Json.{Runtime}
use mcp_module.Range.{range, values, VisitsAll, range-perm}
use mcp_module.Registry.{Adapter, Registry, check_each, health_check_all, get}
use mcp_module.Registry.Entries.{IsRegistry}

module _ {ℓ} {V : Type ℓ} where
  Mem-keys : (k : String) (m : Dict V) → lookup k m ≢ none → Mem k (keys m)
  unfolding lookup keys
  Mem-keys k [] h = absurd (h refl)
  Mem-keys k ((j, v) ∷ m) h = elim (Bool-cases (j == k)) [
    | inl same ↦ rw ((eq_iff j k).0 same) mem-cons_self
    | inr other ↦ mem-cons_of_mem j (Mem-keys k m (rw other at h))
  ]

  keys-Mem : (k : String) (m : Dict V) → Mem k (keys m) → lookup k m ≢ none
  unfolding lookup keys
  keys-Mem k [] h = absurd (not-mem-nil h)
  keys-Mem k ((j, v) ∷ m) h =
      Or.elim (Π_prop (λ _. ⊥_prop)) (mem-cons.0 h) (λ e. ground (arith, eq_iff j k))
        (λ t. let ih = keys-Mem k m t in ground arith)

module _ {W : Type 0} where
  abbrev names : List (Adapter W) → List String
  names as' = map (λ a. a.name) as'

  check_each-kept :
      (k : String) (as' : List (Adapter W)) (w : W) (results : Dict (Option String))
      → lookup k results ≢ none
      → lookup k (check_each as' w results).1 ≢ none
  unfolding check_each
  check_each-kept k [] w results h = h
  check_each-kept k (a ∷ as') w results h =
      check_each-kept k as' (a.health_check w).0 _
        (rw (lookup-insert a.name k (a.health_check w).1 results) (ground arith))

  check_each-reports :
      (k : String) (as' : List (Adapter W)) (w : W) (results : Dict (Option String))
      → Mem k (names as')
      → lookup k (check_each as' w results).1 ≢ none
  unfolding check_each
  check_each-reports k [] w results h = absurd (not-mem-nil h)
  check_each-reports k (a ∷ as') w results h =
      Or.elim (Π_prop (λ _. ⊥_prop)) (mem-cons.0 h)
        (λ e. check_each-kept k as' (a.health_check w).0 _ (
          rw (lookup-insert a.name k (a.health_check w).1 results)
            (ground (arith, eq_iff a.name k))))
        (check_each-reports k as' (a.health_check w).0 _)

  check_each-only :
      (k : String) (as' : List (Adapter W)) (w : W) (results : Dict (Option String))
      → lookup k results ≡ none
      → lookup k (check_each as' w results).1 ≢ none
      → Mem k (names as')
  unfolding check_each
  check_each-only k [] w results e h = absurd (h e)
  check_each-only k (a ∷ as') w results e h = elim (Bool-cases (a.name == k)) [
    | inl same ↦ rw ((eq_iff a.name k).0 same) mem-cons_self
    | inr other ↦ mem-cons_of_mem a.name (
        check_each-only k as' (a.health_check w).0 _
          (rw (lookup-insert a.name k (a.health_check w).1 results, other) e) h)
  ]

  names-values :
      (r : Registry W) → All (λ e. (e.1.name ≡ e.0) × (e.0 ≢ "")) r → names (values r) ≡ keys r
  unfolding keys
  names-values [] _ = refl
  names-values ((k, a) ∷ r) (h, hs) = rw (h.0, names-values r hs) refl

-- HealthCheckAll reports on a name exactly if the name is registered.
pub health_check_all_iff :
    {W : Type 0} (go : Runtime) (r : Registry W) (w : W) (k : String)
    → VisitsAll go
    → IsRegistry r
    → (lookup k (health_check_all go r w).1 ≢ none) ↔ (get k r ≢ none)
unfolding health_check_all get lookup
health_check_all_iff go r w k visits h =
    let p : Perm (names (range go r)) (keys r) =
      subst (Perm (names (range go r))) (names-values r h.named)
        (Perm.map (λ a. a.name) (range-perm go r visits h.is_dict)) in
    (
      λ found. keys-Mem k r (Perm.subset p k (check_each-only k (range go r) w [] refl found)),
      λ bound.
          check_each-reports k (range go r) w [] (Perm.subset (Perm.symm p) k (Mem-keys k r bound)),
    )
