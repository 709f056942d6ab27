-- ===== src/Runner.antt =====
-- challenges/runner/main.go: what its sections share. A section gives the lines that it prints, without
-- the arguments that fmt puts in, and without its heading.
pub mod Protocol
pub mod Handshake
pub mod Tools
pub mod Resources
pub mod Prompts
pub mod Lifecycle
pub mod Seam
pub mod Main
pub mod Exits
pub mod Answers
pub mod Shown
pub mod Passing
use mcp_module.Common.{
  ℕ, String, Bool, true, false, not, ◌||◌, Option, none, some, List, [], ◌∷◌, ◌++◌, codes, contains,
  if◌then◌else◌, ◌>>=◌,
}
use mcp_module.Common.Int.{ℤ, pos}
use mcp_module.Json.{
  Value, null, native_int, Runtime, struct_of, find_field, string_of, int_of, list_of,
}
use mcp_module.Json.Text.{Digits, render}
use mcp_module.I18n.{noop_translator}
use mcp_module.Protocol.{Result, ok, failed, Params, Request, Response, is_error, new_request}
use mcp_module.Protocol.Codec.{encode_request, decode_response}
use mcp_module.Server.Tables.{Tables}
use mcp_module.Server.Serve.{Served, Ending, returned, crashed, line, document, serve}

pub record FixtureInput : Type 0 where
  pub locale : String
  pub tool_name : String
  pub tool_description : String
  pub tool_arg_key : String
  pub tool_arg_value : String
  pub resource_uri : String
  pub resource_name : String
  pub resource_body : String
  pub prompt_name : String
  pub prompt_description : String
  pub prompt_arg_key : String
  pub prompt_arg_value : String
  pub prompt_text : String
  pub expected_min_runes : ℤ

-- A fixture file, by its inputs.
unfoldable pub decode_input : Value → Option FixtureInput
decode_input v = do
  fs ← struct_of v
  locale ← string_of (find_field "locale" fs)
  tool_name ← string_of (find_field "tool_name" fs)
  tool_description ← string_of (find_field "tool_description" fs)
  tool_arg_key ← string_of (find_field "tool_arg_key" fs)
  tool_arg_value ← string_of (find_field "tool_arg_value" fs)
  resource_uri ← string_of (find_field "resource_uri" fs)
  resource_name ← string_of (find_field "resource_name" fs)
  resource_body ← string_of (find_field "resource_body" fs)
  prompt_name ← string_of (find_field "prompt_name" fs)
  prompt_description ← string_of (find_field "prompt_description" fs)
  prompt_arg_key ← string_of (find_field "prompt_arg_key" fs)
  prompt_arg_value ← string_of (find_field "prompt_arg_value" fs)
  prompt_text ← string_of (find_field "prompt_text" fs)
  expected_min_runes ← int_of (find_field "expected_min_runes" fs)
  some (record {
    locale = locale;
    tool_name = tool_name;
    tool_description = tool_description;
    tool_arg_key = tool_arg_key;
    tool_arg_value = tool_arg_value;
    resource_uri = resource_uri;
    resource_name = resource_name;
    resource_body = resource_body;
    prompt_name = prompt_name;
    prompt_description = prompt_description;
    prompt_arg_key = prompt_arg_key;
    prompt_arg_value = prompt_arg_value;
    prompt_text = prompt_text;
    expected_min_runes = expected_min_runes;
  })

unfoldable pub decode_fixture : Value → Option (List FixtureInput)
unfolding decode_input
decode_fixture v = do fs ← struct_of v; list_of decode_input (find_field "inputs" fs)

-- What a section does: it counts a pass or a failure, under a label, or it panics.
pub data Verdict : Type 0 where
  pass fail : (label : String) → Verdict
  panics : Verdict

-- `if !test { fail(label); return }`, or `continue`, and what comes after it.
unfoldable pub require : Bool → String → List Verdict → List Verdict
require true label rest = rest
require false label rest = fail label ∷ []

-- The same, where what comes after needs what the test has found.
unfoldable pub expect {ℓ} : {A : Type ℓ} → Option A → String → (A → List Verdict) → List Verdict
expect none label rest = fail label ∷ []
expect (some a) label rest = rest a

abbrev pub of_result {ℓ} : {A : Type ℓ} → Result A → Option A
of_result (failed _) = none
of_result (ok a) = some a

-- A section that goes through the inputs.
unfoldable pub for_inputs : (FixtureInput → List Verdict) → List FixtureInput → List Verdict
for_inputs check [] = []
for_inputs check (i ∷ inputs) = check i ++ for_inputs check inputs

-- What an RPC leaves: the world of the handlers, the verdicts on the way, and the response or nil.
pub record Rpc (W : Type 0) : Type 0 where
  pub world : W
  pub verdicts : List Verdict
  pub response : Option Response

-- mustReq; the id is an int.
unfoldable pub must_request : Runtime → ℕ → String → Params → Result Request
must_request go id method params = new_request go (native_int (pos id)) method params

-- The verdict on what Serve returns.
unfoldable pub serve_verdicts : Ending → List Verdict
serve_verdicts (returned none) = []
serve_verdicts (returned (some m)) =
    if contains (codes "EOF") (codes m) then [] else fail "[runOneRPC][Serve]" ∷ []
serve_verdicts crashed = panics ∷ []

abbrev pub first_of : List Value → Option Value
first_of [] = none
first_of (v ∷ _) = some v

-- The first line of stdout, decoded.
unfoldable pub read_first : {W : Type 0} → Runtime → Served W → Option Value → Rpc W
unfolding serve_verdicts
read_first go served none = record {
  world = served.world;
  verdicts = serve_verdicts served.ending;
  response = none;
}
read_first go served (some v) = elim (decode_response go v) [
  | none ↦ record {
    world = served.world;
    verdicts = serve_verdicts served.ending ++ fail "[runOneRPC][unmarshal]" ∷ [];
    response = none;
  }
  | some r ↦ record {
    world = served.world;
    verdicts = serve_verdicts served.ending;
    response = some r;
  }
]

module _ {W : Type 0} (go : Runtime) (s : Tables W) (w : W) where
  -- The request is the server's only line.
  unfoldable pub run_document : Option Value → Rpc W
  unfolding read_first
  run_document none = record {
    world = w;
    verdicts = fail "[runOneRPC][marshal]" ∷ [];
    response = none;
  }
  run_document (some v) =
      let served = serve go noop_translator s (line (document v) ∷ []) w in
      read_first go served (first_of served.written)

  unfoldable pub run_one_rpc : Result Request → Rpc W
  unfolding run_document
  run_one_rpc (failed m) = record { world = w; verdicts = panics ∷ []; response = none }
  run_one_rpc (ok req) = run_document (encode_request req)

-- What follows an RPC: `if resp == nil || resp.IsError() { fail(label); ... }`, and the rest.
unfoldable pub require_answer :
    {W : Type 0} → Rpc W → String → (Option Value → List Verdict) → List Verdict
unfolding require expect
require_answer rpc label rest =
    rpc.verdicts
    ++ expect rpc.response label (λ r. require (not (is_error r)) label (rest r.result))

-- json.Marshal of a response's result, as bytes; a nil result is null.
unfoldable pub result_text : Digits → Option Value → List ℕ
result_text digits none = codes "null"
result_text digits (some v) = render digits v
