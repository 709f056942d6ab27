-- ===== src/Client/Transport/Runs.antt =====
-- pkg/client: a call of sendRequest among the steps of its connection.
use mcp_module.Common.{ℕ, ◌^◌, ◌%◌, String, Option, some, ◌≡◌, ◌≢◌}
use mcp_module.Common.Int.{ℤ}
use mcp_module.Json.{Value, int64, Runtime}
use mcp_module.Protocol.{failed, Params}
use mcp_module.Protocol.Ids.{normalize_id}
use mcp_module.Client.Config.{Transport, stdio, http}
use mcp_module.Client.Transport.{Caller, waiting, answered, Connection, key, bits_of}
use mcp_module.Client.Transport.Steps.{Step, Reach}
use mcp_module.Client.Transport.Calls.{
  Phase, sending, awaiting, gave_up, got, begin_call, Posted, post_error, write_error,
  after_sending, Wake, wake,
}

-- A call that has not returned.
pub data Calling (n : ℕ) : Phase → Type 0 where
  at_sending : {v : Value} → Calling n (sending n v)
  at_select : Calling n (awaiting n)

-- The call goes through its parts, and in between come steps that are not its own.
pub data Run (go : Runtime) (t : Transport) (method : String) (params : Params)
    : Connection × Phase → Type 0 where
  begins : {c : Connection} → Reach go t c → Run go t method params (begin_call go method params c)
  writes :
      {c : Connection} {n : ℕ} {v : Value} (error : Option String)
      → t ≡ stdio
      → Run go t method params (c, sending n v)
      → Run go t method params (after_sending n (write_error error) c)
  posts :
      {c : Connection} {n : ℕ} {v : Value} (posted : Posted)
      → t ≡ http
      → Run go t method params (c, sending n v)
      → Run go t method params (after_sending n (post_error posted) c)
  wakes :
      {c : Connection} {n : ℕ} {x : Connection × Phase} (k : Wake)
      → Run go t method params (c, awaiting n)
      → wake t n k c ≡ some x
      → Run go t method params x
  meanwhile :
      {c d : Connection} {n : ℕ} {p : Phase}
      → Run go t method params (c, p)
      → Calling n p
      → Step go t c d
      → d.caller n ≡ waiting
      → Run go t method params (d, p)

module _ (go : Runtime) where
  -- What the connection knows of the call.
  abbrev pub Knows : Connection × Phase → Type 0
  Knows (c, sending n _) = c.caller n ≡ waiting
  Knows (c, awaiting n) = c.caller n ≡ waiting
  Knows (c, gave_up n _) = (c.caller n ≡ Caller.failed) × (c.pending (key n) ≢ some n)
  Knows (c, got n r) =
      (c.caller n ≡ answered r)
      × (c.pending (key n) ≢ some n)
      × ((z : ℤ) × (normalize_id go r.id ≡ int64 z) × (bits_of z ≡ n % 2 ^ 64))

module _ (go : Runtime) (t : Transport) where
  abbrev Good : Connection × Phase → Type 0
  Good x = Reach go t x.0 × Knows go x
