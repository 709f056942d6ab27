-- ===== src/Runner/Main.antt =====
-- challenges/runner/main.go: main, by the exit status of the process.
use mcp_module.Common.{
  ℕ, Bool, true, false, Option, none, some, List, [], ◌∷◌, ◌++◌, length, ltb, if◌then◌else◌,
}
use mcp_module.Json.{Value, Runtime}
use mcp_module.Json.Text.{Digits}
use mcp_module.Runner.{FixtureInput, Verdict, pass, fail, panics, decode_fixture}
use mcp_module.Runner.Protocol.{section1}
use mcp_module.Runner.Handshake.{section2}
use mcp_module.Runner.Tools.{section3}
use mcp_module.Runner.Resources.{section4}
use mcp_module.Runner.Prompts.{section5}
use mcp_module.Runner.Lifecycle.{section6}
use mcp_module.Runner.Seam.{section7}

-- What os.ReadFile and the parser find: no file, no JSON, or a document.
pub data FixtureFile : Type 0 where
  unreadable malformed : FixtureFile
  document : Value → FixtureFile

unfoldable pub all_sections : Runtime → Digits → List FixtureInput → List Verdict
unfolding section1 section2 section3 section4 section5 section6 section7
all_sections go digits inputs =
    section1 go digits inputs
    ++ (section2 go
        ++ (section3 go digits inputs
            ++ (section4 go digits inputs
                ++ (section5 go digits inputs ++ (section6 go ++ section7 go)))))

-- A panic ends the process with the status 2; a failure makes it 1 in the end.
unfoldable pub status_of : Bool → List Verdict → ℕ
status_of failed [] = if failed then 1 else 0
status_of failed (pass _ ∷ vs) = status_of failed vs
status_of failed (fail _ ∷ vs) = status_of true vs
status_of failed (panics ∷ vs) = 2

unfoldable pub run_inputs : Runtime → Digits → Option (List FixtureInput) → ℕ
unfolding all_sections status_of
run_inputs go digits none = 2
run_inputs go digits (some inputs) =
    if ltb (length inputs) 3 then 2 else status_of false (all_sections go digits inputs)

unfoldable pub run : Runtime → Digits → FixtureFile → ℕ
unfolding run_inputs
run go digits unreadable = 2
run go digits malformed = 2
run go digits (document v) = run_inputs go digits (decode_fixture v)
