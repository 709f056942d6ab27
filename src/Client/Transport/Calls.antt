-- ===== src/Client/Transport/Calls.antt =====
-- pkg/client/stdio_client.go and http_client.go: sendRequest as one call of it goes, in three parts
-- between which the other calls, the reader and Close may take their steps.
use mcp_module.Common.{
  ℕ, ◌+◌, String, Bool, true, false, ◌||◌, Option, none, some, nat_eq, if◌then◌else◌,
}
use mcp_module.Json.{Value, int64, Runtime}
use mcp_module.Protocol.{Result, ok, failed, Params, Request, Response, new_request}
use mcp_module.Protocol.Codec.{encode_request}
use mcp_module.Server.Http.{signed}
use mcp_module.Client.Config.{Transport, stdio, http}
use mcp_module.Client.Transport.{
  Caller, reading, ended, holding, crashed, Connection, key, register, waste, leave, take,
}

-- The errors of sendRequest, with what they wrap.
pub data SendError : Type 0 where
  not_created not_marshalled not_written no_http_request not_sent context_done : String → SendError
  bad_status : ℕ → SendError
  channel_closed connection_closed : SendError

-- Where a call with that number is: it has the request to send, it waits in its `select`, or it has
-- returned.
pub data Phase : Type 0 where
  sending : (n : ℕ) → Value → Phase
  awaiting : (n : ℕ) → Phase
  gave_up : (n : ℕ) → SendError → Phase
  got : (n : ℕ) → Response → Phase

abbrev pub give_up : ℕ → SendError → Connection → Connection × Phase
give_up n e c = (leave n Caller.failed c, gave_up n e)

unfoldable pub begin_encoded : Runtime → Connection → Option Value → Connection × Phase
unfolding register
begin_encoded go c none = give_up (c.count + 1) (not_marshalled go.marshal_error) (register c)
begin_encoded go c (some v) = (register c, sending (c.count + 1) v)

unfoldable pub begin_created : Runtime → Connection → Result Request → Connection × Phase
unfolding begin_encoded waste
begin_created go c (failed m) = (waste c, gave_up (c.count + 1) (not_created m))
begin_created go c (ok req) = begin_encoded go c (encode_request req)

-- Up to json.Marshal; the id is the int64 that the counter has come to.
unfoldable pub begin_call : Runtime → String → Params → Connection → Connection × Phase
unfolding begin_created
begin_call go method params c =
    begin_created go c (new_request go (int64 (signed (key (c.count + 1)))) method params)

-- What the POST of the HTTP client leads to: no request can be made of the address, the request
-- fails, or a response with a status comes.
pub data Posted : Type 0 where
  bad_address no_answer : String → Posted
  status : ℕ → Posted

-- StatusOK, StatusAccepted, StatusNoContent.
unfoldable pub is_accepted : ℕ → Bool
is_accepted n = nat_eq n 200 || (nat_eq n 202 || nat_eq n 204)

unfoldable pub post_error : Posted → Option SendError
unfolding is_accepted
post_error (bad_address m) = some (no_http_request m)
post_error (no_answer m) = some (not_sent m)
post_error (status n) = if is_accepted n then none else some (bad_status n)

-- The Write of the stdio client, by its error.
unfoldable pub write_error : Option String → Option SendError
write_error none = none
write_error (some m) = some (not_written m)

unfoldable pub after_sending : ℕ → Option SendError → Connection → Connection × Phase
after_sending n none c = (c, awaiting n)
after_sending n (some e) c = give_up n e c

-- The branches of the `select`.
pub data Wake : Type 0 where
  on_channel on_done : Wake
  on_context : String → Wake

-- `c.done` is closed by Close, `c.sseDone` by the reader at its end.
unfoldable pub is_done : Transport → Connection → Bool
is_done stdio c = c.closed
is_done http c = elim c.reader [
  | ended ↦ true
  | reading ↦ false
  | holding _ _ ↦ false
  | crashed _ ↦ false
]

unfoldable pub receive : ℕ → Bool → Option Response → Connection → Option (Connection × Phase)
unfolding take
receive n closed (some r) c = some (take n r c, got n r)
receive n true none c = some (give_up n channel_closed c)
receive n false none c = none

-- A branch of the `select`; `none` where it is not ready.
unfoldable pub wake : Transport → ℕ → Wake → Connection → Option (Connection × Phase)
unfolding receive is_done
wake t n on_channel c = receive n (c.channel n).closed (c.channel n).buffer c
wake t n on_done c = if is_done t c then some (give_up n connection_closed c) else none
wake t n (on_context m) c = some (give_up n (context_done m) c)
