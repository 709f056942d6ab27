-- ===== src/Runner/Lifecycle.antt =====
-- challenges/runner/main.go: realAdapter and section6RegistryLifecycle.
use mcp_module.Common.{
  ℕ, ◌+◌, String, Bool, true, false, not, ◌&&◌, Option, none, some, List, [], ◌∷◌, Dict, lookup,
  length, nat_eq, ◌==◌,
}
use mcp_module.Json.{Any, string, Runtime}
use mcp_module.Protocol.{is_some}
use mcp_module.Config.{transport_stdio}
use mcp_module.Adapter.{
  State, idle, starting, running, stopping, stopped, error, BaseAdapter, set_state, config_map,
}
use mcp_module.Registry.{
  Adapter, Registry, new, register, unregister, get, list, count, start_all, stop_all,
  health_check_all,
}
use mcp_module.Runner.{Verdict, pass, require}

-- startCnt and stopCnt of an adapter.
pub record Counts : Type 0 where
  pub start_count : ℕ
  pub stop_count : ℕ

-- Both adapters of the section.
pub record Pair : Type 0 where
  pub one : Counts
  pub two : Counts

unfoldable pub started : Counts → Counts
started c = record c { start_count = c.start_count + 1 }

unfoldable pub ended : Counts → Counts
ended c = record c { stop_count = c.stop_count + 1 }

-- healthErr is nil in both.
unfoldable pub adapter_one : Adapter Pair
unfolding started ended
adapter_one = record {
  name = "round267-a1";
  start = λ w. (record w { one = started w.one }, none);
  stop = λ w. (record w { one = ended w.one }, none);
  health_check = λ w. (w, none);
}

unfoldable pub adapter_two : Adapter Pair
unfolding started ended
adapter_two = record {
  name = "round267-a2";
  start = λ w. (record w { two = started w.two }, none);
  stop = λ w. (record w { two = ended w.two }, none);
  health_check = λ w. (w, none);
}

abbrev pub new_pair : Pair
new_pair = record {
  one = record { start_count = 0; stop_count = 0 };
  two = record { start_count = 0; stop_count = 0 };
}

-- `m[k] == nil` of a map[string]error.
abbrev pub is_nil_at : String → Dict (Option String) → Bool
is_nil_at k m = elim (lookup k m) [ none ↦ true | some e ↦ not (is_some e) ]

abbrev pub is_running : State → Bool
is_running running = true
is_running idle = false
is_running starting = false
is_running stopping = false
is_running stopped = false
is_running error = false

abbrev pub is_text : String → Option Any → Bool
is_text s (some (string t)) = t == s
is_text s _ = false

-- Before SetState the state is no constant of the source, and is not read.
unfoldable pub base_adapter : BaseAdapter
unfolding set_state
base_adapter = set_state running (record {
  adapter_name = "base";
  server_cfg = record {
    name = "base";
    command = "echo";
    args = [];
    env = [];
    transport = transport_stdio;
    url = "";
    enabled = true;
    working_dir = "";
    description = "";
    version = "";
  };
  state = idle;
  history = [];
})

unfoldable pub check_base : List Verdict
unfolding base_adapter require config_map
check_base = require (is_running base_adapter.state) "[Section6][BaseAdapter]" (
    require (is_text "base" (lookup "name" (config_map base_adapter))) "[Section6][BaseAdapter]"
      (pass "[Section6][BaseAdapter]" ∷ []))

unfoldable pub check_unregister : Registry Pair → List Verdict
unfolding require check_base
check_unregister r =
    let (r', e) = unregister "round267-a1" r in
    require (not (is_some e)) "[Section6][Unregister]" (
      require (nat_eq (count r') 1) "[Section6][Unregister]"
        (pass "[Section6][Unregister]" ∷ check_base))

module _ (go : Runtime) (r : Registry Pair) where
  unfoldable pub check_stopping : Pair → List Verdict
  unfolding require check_unregister
  check_stopping w =
      let (w', e) = stop_all go r w in
      require (not (is_some e)) "[Section6][StopAll]" (
        require (nat_eq w'.one.stop_count 1 && nat_eq w'.two.stop_count 1) "[Section6][StopAll]"
          (pass "[Section6][StopAll]" ∷ check_unregister r))

  unfoldable pub check_health : Pair → List Verdict
  unfolding require check_stopping
  check_health w =
      let (w', health) = health_check_all go r w in
      require (nat_eq (length health) 2) "[Section6][HealthCheckAll]" (
        require (is_nil_at "round267-a1" health && is_nil_at "round267-a2" health)
          "[Section6][HealthCheckAll]" (pass "[Section6][HealthCheckAll]" ∷ check_stopping w'))

  unfoldable pub check_starting : List Verdict
  unfolding require check_health
  check_starting =
      let (w', e) = start_all go r new_pair in
      require (not (is_some e)) "[Section6][StartAll]" (
        require (nat_eq w'.one.start_count 1 && nat_eq w'.two.start_count 1) "[Section6][StartAll]"
          (pass "[Section6][StartAll]" ∷ check_health w'))

  unfoldable pub check_entries : List Verdict
  unfolding require check_starting
  check_entries = require (is_some (get "round267-a1" r)) "[Section6][Get]" (
      require (not (is_some (get "nonexistent" r))) "[Section6][Get]" (
        pass "[Section6][Get]"
        ∷ require (nat_eq (length (list go r)) 2) "[Section6][List]" (
            require (nat_eq (count r) 2) "[Section6][Count]"
              (pass "[Section6][List/Count]" ∷ check_starting))))

unfoldable pub section6 : Runtime → List Verdict
unfolding require check_entries adapter_one adapter_two
section6 go =
    let (r1, e1) = register (some adapter_one) new in
    require (not (is_some e1)) "[Section6][Register]" (
      let (r2, e2) = register (some adapter_two) r1 in
      require (not (is_some e2)) "[Section6][Register]" (
        let (r3, e3) = register (some adapter_one) r2 in
        require (is_some e3) "[Section6][Register]"
          (pass "[Section6][Register]" ∷ check_entries go r3)))
