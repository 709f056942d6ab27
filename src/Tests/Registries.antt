-- ===== src/Tests/Registries.antt =====
-- A registry of two adapters, one of which does not start.
use mcp_module.Common.{
  ℕ, ◌+◌, String, none, some, List, [], ◌∷◌, lookup, keys, if◌then◌else◌, ◌==◌, ◌≡◌, ◌≢◌, ◌↔◌, refl,
  arith, eq_iff,
}
use mathlib.Core.List.{filter_map}
use mcp_module.Range.{range}
use mcp_module.Registry.{
  Adapter, Registry, new, register, unregister, get, count, start_all, start_each, stop_all,
  health_check_all,
}
use mcp_module.Registry.Entries.{
  IsRegistry, created, registered, unregistered, Reached-IsRegistry, register_rejects,
  unregister_removes,
}
use mcp_module.Registry.Stopping.{Stops, stop_all-Stops}
use mcp_module.Registry.Health.{health_check_all_iff}
use mcp_module.Tests.Sample.{go, go-VisitsAll}

abbrev good : Adapter ℕ
good = record {
  name = "good";
  start = λ w. (w + 1, none);
  stop = λ w. (w, none);
  health_check = λ w. (w, none);
}

abbrev bad : Adapter ℕ
bad = record {
  name = "bad";
  start = λ w. (w, some "no such file");
  stop = λ w. (w, some "not running");
  health_check = λ w. (w, some "down");
}

abbrev pair : Registry ℕ
pair = ("good", good) ∷ ("bad", bad) ∷ []

bad_not_good : ◌≢◌ {A = String} "bad" "good"
bad_not_good = ground (arith, eq_iff "bad" "good")

good_not_empty : ◌≢◌ {A = String} "good" ""
good_not_empty = ground (arith, eq_iff "good" "")

bad_not_empty : ◌≢◌ {A = String} "bad" ""
bad_not_empty = ground (arith, eq_iff "bad" "")

pair-IsRegistry : IsRegistry pair
pair-IsRegistry = record {
  is_dict = ((bad_not_good, tt), (tt, tt));
  named = ((refl, good_not_empty), ((refl, bad_not_empty), tt));
}

start_all_run : start_all go pair 0 ≡ (1, some "failed to start adapter bad: no such file")
unfolding start_all range keys lookup start_each filter_map
start_all_run = refl

stop_all-Stops_example :
    (errs : List String) × Stops (range go pair) 0 (stop_all go pair 0).0 errs
    × (((stop_all go pair 0).1 ≡ none) ↔ (errs ≡ []))
stop_all-Stops_example = stop_all-Stops go pair 0

health_check_all_iff_example :
    (lookup "bad" (health_check_all go pair 0).1 ≢ none) ↔ (get "bad" pair ≢ none)
health_check_all_iff_example = health_check_all_iff go pair 0 "bad" go-VisitsAll pair-IsRegistry

abbrev third : Adapter ℕ
third = record good { name = "third" }

third_not_empty : ◌≢◌ {A = String} "third" ""
third_not_empty = ground (arith, eq_iff "third" "")

some_not_none : some good ≢ none
some_not_none e = cc

register_rejects_example :
    ((register (some good) pair).0 ≡ pair) × ((register (some good) pair).1 ≢ none)
unfolding get lookup
register_rejects_example = register_rejects (some good) pair (λ h. some_not_none h.1)

Reached-IsRegistry_example : IsRegistry (unregister "good" (register (some good) new).0).0
Reached-IsRegistry_example =
    Reached-IsRegistry (unregister "good" (register (some good) new).0).0
      (unregistered "good" _ (registered (some good) _ created))

bad_is_bound : get "bad" pair ≢ none
unfolding get lookup
bad_is_bound e = cc

unregister_removes_example :
    ((unregister "bad" pair).1 ≡ none)
    × ((k : String) → get k (unregister "bad" pair).0 ≡ (if "bad" == k then none else get k pair))
    × (count (unregister "bad" pair).0 + 1 ≡ count pair)
unregister_removes_example = unregister_removes "bad" pair pair-IsRegistry bad_is_bound
