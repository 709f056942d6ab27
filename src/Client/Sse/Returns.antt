-- ===== src/Client/Sse/Returns.antt =====
-- The call that a connection of the HTTP client has made last, and the event of its response.
use mcp_module.Common.{◌%◌, ◌^◌, ℕ, ◌+◌, false, some, List, arith, ap, ◌∙◌, ◌≡◌}
use mcp_module.Common.Int.{pos}
use mcp_module.Json.{int64, Runtime, is_absent}
use mcp_module.Protocol.{Response}
use mcp_module.Protocol.Ids.{normalize_id, is_hashable}
use mcp_module.Client.Config.{http}
use mcp_module.Client.Exchange.{IsExact}
use mcp_module.Client.Remote.{wire_id}
use mcp_module.Client.Sse.Events.{brought, handle_seen, send_held}
use mcp_module.Client.Transport.{
  Channel, made, update, Connection, reading, holding, waiting, register, take, on_response,
  deliver, delivered, offer, find_pending, bits_of,
}
use mcp_module.Client.Transport.Steps.{Step, takes}
use mcp_module.Client.Transport.Closing.{on_response-held}
use mcp_module.Client.Transport.Updates.{update_self}

-- A response with the id of the newest call.
module _ (go : Runtime) (c : Connection) (exact : IsExact go (c.count + 1)) (r : Response)
    (own : r.id ≡ wire_id (c.count + 1)) where
  normal : normalize_id go r.id ≡ int64 (pos (c.count + 1))
  unfolding normalize_id
  normal = ground (arith, own, exact.nearest_same, exact.in_range)

  mine : (register c).pending (bits_of (pos (c.count + 1))) ≡ some (c.count + 1)
  unfolding register bits_of
  mine = update_self c.pending ((c.count + 1) % 2 ^ 64) (some (c.count + 1))

  held : on_response go r (register c) ≡ record (register c) { reader = holding (c.count + 1) r }
  unfolding find_pending is_hashable
  held =
      on_response-held go r (register c) (c.count + 1) (ap is_absent own) (ap is_hashable normal)
        (ap (find_pending (register c)) normal ∙ mine)

  -- The connection, when the response lies in the channel of the call.
  abbrev pub filled : Connection
  filled = record (register c) {
    channel =
        update (register c).channel (c.count + 1) (record { buffer = some r; closed = false });
  }

  sent :
      deliver (c.count + 1) r (record (register c) { reader = holding (c.count + 1) r })
      ≡ record filled { reader = reading }
  unfolding deliver delivered offer register
  sent =
      ap
        (λ ch.
          delivered (c.count + 1) (record (register c) { reader = holding (c.count + 1) r })
            (offer r ch.closed ch.buffer))
        (update_self c.channel (c.count + 1) made)

  -- The event of that response fills the channel of the call, which then returns it.
  pub handled :
      (endpoint : List ℕ)
      → handle_seen go (brought r) (record { endpoint = endpoint; connection = register c })
        ≡ record { endpoint = endpoint; connection = record filled { reader = reading } }
  unfolding handle_seen send_held
  handled endpoint = rw held (ap (λ d. record { endpoint = endpoint; connection = d }) sent)

  pub returns :
      Step go http
        (record filled { reader = reading })
        (take (c.count + 1) r (record filled { reader = reading }))
  unfolding register
  returns =
      takes (c.count + 1) r (update_self c.caller (c.count + 1) waiting)
        (ap (λ (ch : Channel). ch.buffer) (update_self (register c).channel (c.count + 1) _))
