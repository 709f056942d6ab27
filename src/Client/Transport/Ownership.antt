-- ===== src/Client/Transport/Ownership.antt =====
-- pkg/client: the responses that the calls of sendRequest return.
use mcp_module.Common.{ℕ, ◌%◌, ◌^◌, true, some, ◌≡◌, subst, if-both}
use mcp_module.Common.Int.{ℤ}
use mcp_module.Json.{int64, Runtime}
use mcp_module.Protocol.{Response}
use mcp_module.Protocol.Ids.{normalize_id}
use mcp_module.Client.Config.{Transport, stdio, http}
use mcp_module.Client.Transport.{
  failed, answered, ended, Connection, bits_of, take, deliver, close_all, end_reading, close_first,
  close,
}
use mcp_module.Client.Transport.Steps.{
  Step, registers, wastes, gives_up, takes, sees_closed, receives, delivers, ends, closes, Reach,
  start, later,
}
use mcp_module.Client.Transport.Owned.{
  IsOwn, IsOwned, new_connection-IsOwned, register-IsOwned, leave-IsOwned, waste-IsOwned,
  emptied-IsOwned, on_response-IsOwned, delivered-IsOwned, close_all-IsOwned,
}

module _ (go : Runtime) where
  ended-IsOwned : (c : Connection) → IsOwned go c → IsOwned go (record c { reader = ended })
  ended-IsOwned c o = record {
    keyed = o.keyed;
    buffered = o.buffered;
    held = λ n r e. cc;
    returned = o.returned;
  }

  marked-IsOwned : (c : Connection) → IsOwned go c → IsOwned go (record c { closed = true })
  marked-IsOwned c o = record {
    keyed = o.keyed;
    buffered = o.buffered;
    held = o.held;
    returned = o.returned;
  }

  end_reading-IsOwned :
      (t : Transport) (c : Connection) → IsOwned go c → IsOwned go (end_reading t c)
  unfolding end_reading
  end_reading-IsOwned stdio c o = ended-IsOwned (close_all c) (close_all-IsOwned go c o)
  end_reading-IsOwned http c o = ended-IsOwned c o

  close_first-IsOwned :
      (t : Transport) (c : Connection) → IsOwned go c → IsOwned go (close_first t c)
  unfolding close_first
  close_first-IsOwned stdio c o = marked-IsOwned c o
  close_first-IsOwned http c o = marked-IsOwned (close_all c) (close_all-IsOwned go c o)

  close-IsOwned : (t : Transport) (c : Connection) → IsOwned go c → IsOwned go (close t c)
  unfolding close
  close-IsOwned t c o = if-both (IsOwned go) c.closed o (close_first-IsOwned t c o)

  take-IsOwned :
      (c : Connection) (n : ℕ) (r : Response)
      → (c.channel n).buffer ≡ some r
      → IsOwned go c
      → IsOwned go (take n r c)
  unfolding take
  take-IsOwned c n r e o =
      leave-IsOwned go _ (emptied-IsOwned go c o n) n (answered r)
        (λ r' h. let same : r ≡ r' = cc in subst (IsOwn go n) same (o.buffered n r e))

  Step-IsOwned : (t : Transport) {c d : Connection} → Step go t c d → IsOwned go c → IsOwned go d
  unfolding deliver
  Step-IsOwned t {c} registers o = register-IsOwned go c o
  Step-IsOwned t {c} wastes o = waste-IsOwned go c o
  Step-IsOwned t {c} (gives_up n _) o = leave-IsOwned go c o n failed (λ r e. cc)
  Step-IsOwned t {c} (takes n r _ e) o = take-IsOwned c n r e o
  Step-IsOwned t {c} (sees_closed n _ _ _) o = leave-IsOwned go c o n failed (λ r e. cc)
  Step-IsOwned t {c} (receives r _) o = on_response-IsOwned go c o r
  Step-IsOwned t {c} (delivers n r e) o =
      delivered-IsOwned go c o n r (c.channel n).closed (c.channel n).buffer (o.held n r e)
        (o.buffered n)
  Step-IsOwned t {c} (ends _) o = end_reading-IsOwned t c o
  Step-IsOwned t {c} closes o = close-IsOwned t c o

  pub Reach-IsOwned : (t : Transport) {c : Connection} → Reach go t c → IsOwned go c
  Reach-IsOwned t start = new_connection-IsOwned go
  Reach-IsOwned t (later r s) = Step-IsOwned t s (Reach-IsOwned t r)

-- In either client, and in whatever order its calls, its reader and Close take their steps, a call
-- of sendRequest that returns a response returns one whose id, normalized, is the int64 that the
-- call had taken from the counter (its number modulo 2^64).
pub answered-IsOwn :
    (go : Runtime) (t : Transport) {c : Connection} (n : ℕ) (r : Response)
    → Reach go t c
    → c.caller n ≡ answered r
    → (z : ℤ) × (normalize_id go r.id ≡ int64 z) × (bits_of z ≡ n % 2 ^ 64)
answered-IsOwn go t n r reach e = (Reach-IsOwned go t reach).returned n r e
