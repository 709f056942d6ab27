-- ===== src/Client/Transport.antt =====
-- pkg/client/stdio_client.go and http_client.go: sendRequest, the goroutine that reads responses
-- (readLoop, or readSSE with handleSSEEvent) and Close, over the map of pending requests and its
-- channels. Each access to shared memory is a step of its own.
pub mod Steps
pub mod Updates
pub mod Owned
pub mod Ownership
pub mod Closing
pub mod Waking
pub mod Pending
pub mod Calls
pub mod Runs
pub mod Posting
use mcp_module.Common.{
  ℕ, ◌+◌, ◌-◌, ◌^◌, ◌%◌, Bool, true, false, ◌||◌, Option, none, some, nat_eq, if◌then◌else◌,
}
use mcp_module.Common.Int.{ℤ, pos, negsuc}
use mcp_module.Json.{Any, int64, is_absent, Runtime}
use mcp_module.Protocol.{Response}
use mcp_module.Protocol.Ids.{normalize_id, is_hashable}
use mcp_module.Client.Config.{Transport, stdio, http}

-- A channel of capacity 1: what it holds, and whether it is closed.
pub record Channel : Type 0 where
  pub buffer : Option Response
  pub closed : Bool

abbrev pub made : Channel
made = record { buffer = none; closed = false }

-- A call of sendRequest, by its number: not made, waiting in its `select`, or returned.
pub data Caller : Type 0 where
  unborn waiting failed : Caller
  answered : Response → Caller

-- How the reader may panic: on an id that is no key of a map, or on a channel that is closed.
pub data Panic : Type 0 where
  unhashable closed_channel : Panic

-- The reader: it waits for a response; it has found the channel of a request, and is to send the
-- response there; it has come to the end of its input; or it has panicked.
pub data Reader : Type 0 where
  reading ended : Reader
  holding : (n : ℕ) → Response → Reader
  crashed : Panic → Reader

-- The calls are numbered from 1, without end; `nextID` is an int64, so that the key of a call in the
-- map is its number modulo 2^64.
pub record Connection : Type 0 where
  pub count : ℕ
  pub pending : ℕ → Option ℕ
  pub channel : ℕ → Channel
  pub caller : ℕ → Caller
  pub reader : Reader
  pub closed : Bool

abbrev pub key : ℕ → ℕ
key n = n % 2 ^ 64

-- The bits of an int64.
unfoldable pub bits_of : ℤ → ℕ
bits_of (pos n) = n % 2 ^ 64
bits_of (negsuc n) = (2 ^ 64 - 1 - n) % 2 ^ 64

abbrev pub update {ℓ} : {A : Type ℓ} → (ℕ → A) → ℕ → A → ℕ → A
update f k v n = if nat_eq n k then v else f n

unfoldable pub new_connection : Connection
new_connection = record {
  count = 0;
  pending = λ _. none;
  channel = λ _. made;
  caller = λ _. unborn;
  reader = reading;
  closed = false;
}

-- sendRequest, up to `c.pending[normalizedID] = respCh`.
unfoldable pub register : Connection → Connection
register c =
    let n = c.count + 1 in
    record c {
      count = n;
      pending = update c.pending (key n) (some n);
      channel = update c.channel n made;
      caller = update c.caller n waiting;
    }

-- sendRequest where NewRequest fails: only the counter has moved.
unfoldable pub waste : Connection → Connection
waste c = record c { count = c.count + 1; caller = update c.caller (c.count + 1) failed }

-- A call returns; its deferred function deletes the key.
unfoldable pub leave : ℕ → Caller → Connection → Connection
leave n result c = record c {
  pending = update c.pending (key n) none;
  caller = update c.caller n result;
}

-- `resp := <-respCh`.
unfoldable pub take : ℕ → Response → Connection → Connection
unfolding leave
take n r c =
    leave n (answered r)
      (record c { channel = update c.channel n (record (c.channel n) { buffer = none }) })

-- `c.pending[id]`, for a normalized id.
unfoldable pub find_pending : Connection → Any → Option ℕ
unfolding bits_of
find_pending c (int64 z) = c.pending (bits_of z)
find_pending c _ = none

-- The reader on a response, up to the lookup.
unfoldable pub hold : Connection → Response → Option ℕ → Connection
hold c r none = c
hold c r (some n) = record c { reader = holding n r }

unfoldable pub on_response : Runtime → Response → Connection → Connection
unfolding hold find_pending
on_response go r c =
    if is_absent r.id
    then c
    else if is_hashable (normalize_id go r.id)
    then hold c r (find_pending c (normalize_id go r.id))
    else record c { reader = crashed unhashable }

-- `select { case ch <- &resp: default: }` on a channel with that flag and that content; `none` is a
-- panic, which the default case does not prevent.
unfoldable pub offer : Response → Bool → Option Response → Option Channel
offer r true b = none
offer r false none = some (record { buffer = some r; closed = false })
offer r false (some earlier) = some (record { buffer = some earlier; closed = false })

unfoldable pub delivered : ℕ → Connection → Option Channel → Connection
delivered n c none = record c { reader = crashed closed_channel }
delivered n c (some ch) = record c { reader = reading; channel = update c.channel n ch }

unfoldable pub deliver : ℕ → Response → Connection → Connection
unfolding offer delivered
deliver n r c = delivered n c (offer r (c.channel n).closed (c.channel n).buffer)

abbrev pub is_number : Option ℕ → ℕ → Bool
is_number none n = false
is_number (some m) n = nat_eq m n

abbrev pub close_channel : Bool → Channel → Channel
close_channel listed ch = record ch { closed = ch.closed || listed }

-- `for id, ch := range c.pending { close(ch); delete(c.pending, id) }`.
unfoldable pub close_all : Connection → Connection
close_all c = record c {
  pending = λ _. none;
  channel = λ n. close_channel (is_number (c.pending (key n)) n) (c.channel n);
}

-- The end of the reader's input, with its deferred function; readSSE closes `sseDone` alone.
unfoldable pub end_reading : Transport → Connection → Connection
unfolding close_all
end_reading stdio c = record (close_all c) { reader = ended }
end_reading http c = record c { reader = ended }

-- Close, the first time.
unfoldable pub close_first : Transport → Connection → Connection
unfolding close_all
close_first stdio c = record c { closed = true }
close_first http c = record (close_all c) { closed = true }

-- Close; closeOnce makes every later call do nothing.
unfoldable pub close : Transport → Connection → Connection
unfolding close_first
close t c = if c.closed then c else close_first t c
