-- ===== src/Adapter/Idempotence.antt =====
-- Stopping an adapter twice, or one that was never started (pkg/adapter/adapter.go).
use mcp_module.Common.{ℕ, String, true, codes, Option, none, some, ◌≡◌, ◌↔◌, refl, arith}
use mcp_module.Common.Letters.{lower, AreLow, Says, contains-lowered_iff}
use mcp_module.Config.{join}
use mcp_module.Adapter.{stopped, error, set_state}
use mcp_module.Adapter.Stdio.{StdioAdapter, stdio_stop, stop_process, killed, process_of}
use mcp_module.Adapter.Docker.{
  DockerAdapter, Removal, removed, not_removed, docker_stop, is_no_such_container,
}

phrase_low : AreLow (codes "no such container")
unfolding lower
phrase_low = (
  refl,
  (
    refl,
    (
      refl,
      (
        refl,
        (
          refl,
          (
            refl,
            (
              refl,
              (refl, (refl, (refl, (refl, (refl, (refl, (refl, (refl, (refl, (refl, tt)))))))))),
            ),
          ),
        ),
      ),
    ),
  ),
)

pub is_no_such_container_iff :
    (output : String)
    → (is_no_such_container output ≡ true) ↔ Says (codes output) (codes "no such container")
unfolding is_no_such_container
is_no_such_container_iff output =
    contains-lowered_iff (codes output) (codes "no such container") phrase_low

-- The container is not there afterwards: it was never started, or docker removes it, or docker says
-- that there is none, in any case of letters.
pub data IsGone (rm : String → Removal) (a : DockerAdapter) : Type 0 where
  never_started : a.container_id ≡ "" → IsGone rm a
  was_removed : rm a.base.adapter_name ≡ removed → IsGone rm a
  was_missing :
      (m output : String)
      → rm a.base.adapter_name ≡ not_removed m output
      → Says (codes output) (codes "no such container")
      → IsGone rm a

-- A container that was never started is not touched: whatever docker would answer, Stop does the
-- same.
docker_stop_never_started :
    (rm rm' : String → Removal) (a : DockerAdapter)
    → a.container_id ≡ ""
    → docker_stop rm a ≡ docker_stop rm' a
unfolding docker_stop
docker_stop_never_started rm rm' a e = rw e refl

-- StdioAdapter.Stop keeps the process that it has killed, so that a second Stop kills it again:
-- where the operating system answers that with an error, the second Stop ends in the error state
-- and returns an error, although the first one stopped the process.
pub stdio_stop_twice :
    (kill kill' : ℕ → Option String) (a : StdioAdapter) (pid : ℕ) (m : String)
    → process_of a.cmd ≡ some pid
    → kill pid ≡ none
    → kill' pid ≡ some m
    → ((stdio_stop kill a).adapter.base.state ≡ stopped)
      × ((stdio_stop kill' (stdio_stop kill a).adapter).adapter.base.state ≡ error)
      × ((stdio_stop kill' (stdio_stop kill a).adapter).err
          ≡ some (join "failed to kill process: " m))
unfolding stdio_stop stop_process killed set_state
stdio_stop_twice kill kill' a pid m p k k' = ground arith
