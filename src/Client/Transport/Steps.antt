-- ===== src/Client/Transport/Steps.antt =====
-- The steps of a client's connection, in any interleaving, and the states that they reach.
use mcp_module.Common.{ℕ, true, none, some, ◌≡◌}
use mcp_module.Json.{Runtime}
use mcp_module.Protocol.{Response}
use mcp_module.Client.Config.{Transport}
use mcp_module.Client.Transport.{
  Connection, waiting, failed, reading, holding, new_connection, register, waste, leave, take,
  on_response, deliver, end_reading, close,
}

-- A call gives up where the request cannot be written, its context is done, the connection is
-- closed, or the server's status is not good.
pub data Step (go : Runtime) (t : Transport) (c : Connection) : Connection → Type 0 where
  registers : Step go t c (register c)
  wastes : Step go t c (waste c)
  gives_up : (n : ℕ) → c.caller n ≡ waiting → Step go t c (leave n failed c)
  takes :
      (n : ℕ) (r : Response)
      → c.caller n ≡ waiting
      → (c.channel n).buffer ≡ some r
      → Step go t c (take n r c)
  sees_closed :
      (n : ℕ)
      → c.caller n ≡ waiting
      → (c.channel n).buffer ≡ none
      → (c.channel n).closed ≡ true
      → Step go t c (leave n failed c)
  receives : (r : Response) → c.reader ≡ reading → Step go t c (on_response go r c)
  delivers : (n : ℕ) (r : Response) → c.reader ≡ holding n r → Step go t c (deliver n r c)
  ends : c.reader ≡ reading → Step go t c (end_reading t c)
  closes : Step go t c (close t c)

pub data Reach (go : Runtime) (t : Transport) : Connection → Type 0 where
  start : Reach go t new_connection
  later : {c d : Connection} → Reach go t c → Step go t c d → Reach go t d
