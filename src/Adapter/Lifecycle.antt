-- ===== src/Adapter/Lifecycle.antt =====
-- pkg/adapter/adapter.go: the states that Start and Stop of DockerAdapter set, and what they return.
use mcp_module.Common.{
  String, Bool-cases, codes, none, List, ◌∷◌, Dict, ◌≡◌, ◌≢◌, inl, inr, refl, eq_iff, ◌==◌,
}
use mcp_module.Common.Int.{ℤ}
use mcp_module.Common.Letters.{Says}
use mcp_module.Adapter.{
  State, starting, running, stopping, stopped, error, set_state, Effect, Answer, yields, fails,
}
use mcp_module.Adapter.Docker.{
  DockerAdapter, Removal, removed, not_removed, docker_start, docker_stop, run_args, with_state,
  ran, after_removal, is_no_such_container,
}
use mcp_module.Adapter.Idempotence.{is_no_such_container_iff}

-- The adapter has come to the state by setting these states, the last one first, and is otherwise
-- the same but for its container.
pub record Moves (before after : DockerAdapter) (state : State) (steps : List State) : Type 0 where
  pub ends : after.base.state ≡ state
  pub path : after.base.history ≡ steps
  pub same_name : after.base.adapter_name ≡ before.base.adapter_name
  pub same_cfg : after.base.server_cfg ≡ before.base.server_cfg
  pub same_container : after.container ≡ before.container

-- How Start ends, for what `docker run` answers.
pub data Starts (a : DockerAdapter) (e : Effect DockerAdapter) : Answer String → Type 0 where
  up :
      {id : String}
      → e.err ≡ none
      → e.adapter.container_id ≡ id
      → Moves a e.adapter running (running ∷ starting ∷ a.base.history)
      → Starts a e (yields id)
  down :
      {m : String}
      → e.err ≢ none
      → e.adapter.container_id ≡ a.container_id
      → Moves a e.adapter error (error ∷ starting ∷ a.base.history)
      → Starts a e (fails m)

-- How Stop ends, for what `docker rm -f` does.
pub data Stops (a : DockerAdapter) (e : Effect DockerAdapter) : Removal → Type 0 where
  untouched :
      {r : Removal}
      → a.container_id ≡ ""
      → e.err ≡ none
      → Moves a e.adapter stopped (stopped ∷ a.base.history)
      → Stops a e r
  away :
      a.container_id ≢ ""
      → e.err ≡ none
      → Moves a e.adapter stopped (stopped ∷ stopping ∷ a.base.history)
      → Stops a e removed
  missing :
      {m output : String}
      → a.container_id ≢ ""
      → Says (codes output) (codes "no such container")
      → e.err ≡ none
      → Moves a e.adapter stopped (stopped ∷ stopping ∷ a.base.history)
      → Stops a e (not_removed m output)
  remains :
      {m output : String}
      → a.container_id ≢ ""
      → ¬ Says (codes output) (codes "no such container")
      → e.err ≢ none
      → Moves a e.adapter error (error ∷ stopping ∷ a.base.history)
      → Stops a e (not_removed m output)

ran-Starts : (a : DockerAdapter) (r : Answer String) → Starts a (ran (with_state starting a) r) r
unfolding ran set_state
ran-Starts a (yields id) =
    up refl refl (record {
      ends = refl;
      path = refl;
      same_name = refl;
      same_cfg = refl;
      same_container = refl;
    })
ran-Starts a (fails m) =
    down (λ e. cc) refl
      (record {
        ends = refl;
        path = refl;
        same_name = refl;
        same_cfg = refl;
        same_container = refl;
      })

after_removal-Stops :
    (a : DockerAdapter) (r : Removal)
    → a.container_id ≢ ""
    → Stops a (after_removal (with_state stopping a) r) r
unfolding after_removal set_state
after_removal-Stops a removed ever =
    away ever refl (record {
      ends = refl;
      path = refl;
      same_name = refl;
      same_cfg = refl;
      same_container = refl;
    })
after_removal-Stops a (not_removed m output) ever =
    elim (Bool-cases (is_no_such_container output)) [
      | inl says ↦ rw says (
          missing ever ((is_no_such_container_iff output).0 says) refl (record {
            ends = refl;
            path = refl;
            same_name = refl;
            same_cfg = refl;
            same_container = refl;
          }))
      | inr silent ↦ rw silent (
          remains ever (λ says. let wrong = (is_no_such_container_iff output).1 says in cc)
            (λ e. cc)
            (record {
              ends = refl;
              path = refl;
              same_name = refl;
              same_cfg = refl;
              same_container = refl;
            }))
    ]

-- DockerAdapter.Start sets the state starting, and then running with the id that `docker run` has
-- printed and a nil error where that succeeds, or error with an error where it fails. Stop sets
-- stopped at once where no container was ever started; otherwise stopping first, and then stopped
-- with a nil error where `docker rm -f` succeeds, or fails and says "no such container" in any case
-- of letters, and error with an error in all other cases. Neither sets any other state, or
-- changes the name and the configurations.
pub docker-Settles :
    (show : ℤ → String) (env : Dict String) (docker : List String → Answer String)
    (rm : String → Removal) (a : DockerAdapter)
    → Starts a (docker_start show env docker a) (docker (run_args show env a))
      × Stops a (docker_stop rm a) (rm a.base.adapter_name)
unfolding docker_start docker_stop set_state
docker-Settles show env docker rm a = (
  ran-Starts a (docker (run_args show env a)),
  elim (Bool-cases (a.container_id == "")) [
    | inl never ↦ rw never (
        untouched ((eq_iff a.container_id "").0 never) refl (record {
          ends = refl;
          path = refl;
          same_name = refl;
          same_cfg = refl;
          same_container = refl;
        }))
    | inr ever ↦ rw ever (
        after_removal-Stops a (rm a.base.adapter_name)
          (λ e. let wrong = (eq_iff a.container_id "").1 e in cc))
  ],
)
