-- ===== src/Runner/Passing/Lifecycle.antt =====
-- Section 6 of the runner, in either order of the adapters.
use mathlib.Core.List.{filter_map}
use mcp_module.Common.{
  ℕ, String, true, Option, none, List, [], ◌∷◌, Dict, keys, insert, lookup, length, ◌≡◌, ◌⊎◌, inl,
  inr, refl, ap, sym, delete, subst,
}
use mcp_module.Json.{Runtime}
use mcp_module.Range.{VisitsAll, range, at_keys, two_perm}
use mcp_module.Registry.{
  Adapter, Registry, new, register, unregister, get, list, count, start_all, start_each, stop_all,
  stop_each, health_check_all, check_each,
}
use mcp_module.Runner.{pass, require}
use mcp_module.Runner.Lifecycle.{
  Pair, adapter_one, adapter_two, new_pair, is_nil_at, check_unregister, check_stopping,
  check_health, check_starting, section6,
}

abbrev both : Registry Pair
both = ("round267-a1", adapter_one) ∷ ("round267-a2", adapter_two) ∷ []

abbrev counted : ℕ → ℕ → Pair
counted starts stops = record {
  one = record { start_count = starts; stop_count = stops };
  two = record { start_count = starts; stop_count = stops };
}

module _ (go : Runtime) (visits : VisitsAll go) where
  order :
      (go.range_order (keys both) ≡ "round267-a1" ∷ "round267-a2" ∷ [])
      ⊎ (go.range_order (keys both) ≡ "round267-a2" ∷ "round267-a1" ∷ [])
  unfolding keys
  order =
      two_perm (go.range_order ("round267-a1" ∷ "round267-a2" ∷ [])) "round267-a1" "round267-a2"
        (visits _)

  -- What holds for both orders of the adapters holds for the one in which `range` visits them.
  in_order :
      (P : List (Adapter Pair) → Type 0)
      → P (adapter_one ∷ adapter_two ∷ [])
      → P (adapter_two ∷ adapter_one ∷ [])
      → P (range go both)
  unfolding range at_keys filter_map lookup
  in_order P h k = elim order [
    | inl e ↦ subst (λ ks. P (at_keys both ks)) (sym e) h
    | inr e ↦ subst (λ ks. P (at_keys both ks)) (sym e) k
  ]

  all_started : start_all go both new_pair ≡ (counted 1 0, none)
  unfolding start_all start_each adapter_one adapter_two
  all_started = in_order (λ as'. start_each as' new_pair ≡ (counted 1 0, none)) refl refl

  each_stopped : stop_each (range go both) (counted 1 0) ≡ (counted 1 1, [])
  unfolding stop_each adapter_one adapter_two
  each_stopped = in_order (λ as'. stop_each as' (counted 1 0) ≡ (counted 1 1, [])) refl refl

  all_stopped : stop_all go both (counted 1 0) ≡ (counted 1 1, none)
  unfolding stop_all
  all_stopped = rw each_stopped refl

  abbrev IsHealthy : Pair × Dict (Option String) → Type 0
  IsHealthy (w, health) =
      (w ≡ counted 1 0)
      × (length health ≡ 2)
      × (is_nil_at "round267-a1" health ≡ true)
      × (is_nil_at "round267-a2" health ≡ true)

  each_is_fine : IsHealthy (health_check_all go both (counted 1 0))
  unfolding health_check_all check_each insert lookup adapter_one adapter_two
  each_is_fine =
      in_order (λ as'. IsHealthy (check_each as' (counted 1 0) [])) (refl, refl, refl, refl)
        (refl, refl, refl, refl)

  two_listed : length (list go both) ≡ 2
  unfolding list keys
  two_listed = elim order [ inl e ↦ ap length e | inr e ↦ ap length e ]

  unregister_pass :
      check_unregister both ≡ pass "[Section6][Unregister]" ∷ pass "[Section6][BaseAdapter]" ∷ []
  unfolding check_unregister unregister lookup delete count
  unregister_pass = refl

  stopping_pass :
      check_stopping go both (counted 1 0)
      ≡ pass "[Section6][StopAll]"
        ∷ pass "[Section6][Unregister]"
        ∷ pass "[Section6][BaseAdapter]"
        ∷ []
  unfolding check_stopping
  stopping_pass =
      rw (all_stopped, require) (ap (λ vs. pass "[Section6][StopAll]" ∷ vs) unregister_pass)

  health_pass :
      check_health go both (counted 1 0)
      ≡ pass "[Section6][HealthCheckAll]"
        ∷ pass "[Section6][StopAll]"
        ∷ pass "[Section6][Unregister]"
        ∷ pass "[Section6][BaseAdapter]"
        ∷ []
  unfolding check_health
  health_pass =
      let (w, len, one, two) = each_is_fine in
      rw (len, require)
        (rw (one, require)
          (rw (two, require)
            (rw w (ap (λ vs. pass "[Section6][HealthCheckAll]" ∷ vs) stopping_pass))))

  starting_pass :
      check_starting go both
      ≡ pass "[Section6][StartAll]"
        ∷ pass "[Section6][HealthCheckAll]"
        ∷ pass "[Section6][StopAll]"
        ∷ pass "[Section6][Unregister]"
        ∷ pass "[Section6][BaseAdapter]"
        ∷ []
  unfolding check_starting
  starting_pass =
      rw (all_started, require) (ap (λ vs. pass "[Section6][StartAll]" ∷ vs) health_pass)

  pub section6_pass :
      section6 go
      ≡ pass "[Section6][Register]"
        ∷ pass "[Section6][Get]"
        ∷ pass "[Section6][List/Count]"
        ∷ pass "[Section6][StartAll]"
        ∷ pass "[Section6][HealthCheckAll]"
        ∷ pass "[Section6][StopAll]"
        ∷ pass "[Section6][Unregister]"
        ∷ pass "[Section6][BaseAdapter]"
        ∷ []
  unfolding section6 register new insert lookup get count
  section6_pass =
      rw (two_listed, require)
        (ap
          (λ vs.
            pass "[Section6][Register]"
            ∷ pass "[Section6][Get]"
            ∷ pass "[Section6][List/Count]"
            ∷ vs)
          starting_pass)
