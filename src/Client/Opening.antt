-- ===== src/Client/Opening.antt =====
-- pkg/client: StdioClient.Start and HTTPClient.Connect, up to the goroutine that they start. What the
-- operating system or the server answers is an argument.
use Prim.Native.String
use mcp_module.Common.{
  Bool, Bool-cases, ◌⊎◌, true, false, ◌≡◌, ◌≢◌, inl, inr, refl, arith, ℕ, String, Option, none,
  some, List, ◌++◌, map, Dict, nat_eq, if◌then◌else◌,
}
use mcp_module.Client.Config.{Config, sse_url}

-- The errors of StdinPipe, StdoutPipe and exec.Cmd.Start.
pub record Launch : Type 0 where
  pub stdin_pipe : Option String
  pub stdout_pipe : Option String
  pub started : Option String

-- exec.Cmd, as Start fills it; `env` is the configuration's in the order of `range`.
pub record Command : Type 0 where
  pub path : String
  pub arguments : List String
  pub environment : List String

abbrev pub assignment : String × String → String
assignment (k, v) = String.◌++◌ k (String.◌++◌ "=" v)

unfoldable pub server_process : List String → Dict String → Config → Command
server_process environ env c = record {
  path = c.server_command;
  arguments = c.server_args;
  environment = environ ++ map assignment env;
}

-- fmt.Errorf with a prefix, where there is an error; the next call follows where there is none.
unfoldable pub or_else : String → Option String → Option String → Option String
or_else prefix (some m) next = some (String.◌++◌ prefix m)
or_else prefix none next = next

-- StdioClient.Start; `none` is a nil error.
unfoldable pub start : Launch → Option String
unfolding or_else
start a = or_else "failed to create stdin pipe: " a.stdin_pipe (
    or_else "failed to create stdout pipe: " a.stdout_pipe
      (or_else "failed to start server process: " a.started none))

-- What the GET of the SSE address leads to: no request can be made of it, the request fails, or a
-- response with a status comes.
pub data SseAnswer : Type 0 where
  bad_url no_answer : String → SseAnswer
  status : ℕ → SseAnswer

pub data ConnectError : Type 0 where
  no_request not_connected : String → ConnectError
  bad_status : ℕ → ConnectError

-- HTTPClient.Connect: its error, whether the context of the connection is cancelled, the address
-- that was asked, and whether the reader of the stream has been started.
pub record Connecting : Type 0 where
  pub error : Option ConnectError
  pub cancelled : Bool
  pub address : String
  pub reader_started : Bool

abbrev not_opened : String → ConnectError → Connecting
not_opened address e = record {
  error = some e;
  cancelled = true;
  address = address;
  reader_started = false;
}

unfoldable pub connect_to : String → SseAnswer → Connecting
connect_to address (bad_url m) = not_opened address (no_request m)
connect_to address (no_answer m) = not_opened address (not_connected m)
connect_to address (status n) =
    if nat_eq n 200
    then record { error = none; cancelled = false; address = address; reader_started = true }
    else not_opened address (bad_status n)

unfoldable pub connect : (String → SseAnswer) → Config → Connecting
unfolding connect_to
connect fetch c = connect_to (sse_url c) (fetch (sse_url c))

-- Start has no error only where each of its three steps has none.
pub start-none :
    (a : Launch)
    → start a ≡ none
    → (a.stdin_pipe ≡ none) × (a.stdout_pipe ≡ none) × (a.started ≡ none)
unfolding start or_else
start-none a e = ground (arith, e)

-- Either the reader runs, or there is an error and the context is cancelled.
abbrev pub Opens : Connecting → Type 0
Opens x =
    ((x.reader_started ≡ true) × (x.error ≡ none) × (x.cancelled ≡ false))
    ⊎ ((x.reader_started ≡ false) × (x.error ≢ none) × (x.cancelled ≡ true))

opened : (address : String) (a : SseAnswer) → Opens (connect_to address a)
unfolding connect_to
opened address (bad_url m) = inr (refl, λ e. cc, refl)
opened address (no_answer m) = inr (refl, λ e. cc, refl)
opened address (status n) = elim (Bool-cases (nat_eq n 200)) [
  | inl good ↦ rw good (inl (refl, refl, refl))
  | inr bad ↦ rw bad (inr (refl, λ e. cc, refl))
]

-- Connect starts the reader, or else returns an error and has cancelled the context.
pub connect-Opens : (fetch : String → SseAnswer) (c : Config) → Opens (connect fetch c)
unfolding connect
connect-Opens fetch c = opened (sse_url c) (fetch (sse_url c))
