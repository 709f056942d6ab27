-- ===== src/Client/Exchange.antt =====
-- A client and a server joined: a request is written, read and dispatched by pkg/server, and its
-- response is written, read and handed to the client (the path of sendRequest when the server
-- answers at once, over a connection that carries each message).
use Prim.Native.String
use mcp_module.Common.{
  Bool, true, false, if◌then◌else◌, ◌≡◌, ℕ, ◌+◌, String, Option, none, some, ◌>>=◌,
}
use mcp_module.Common.Int.{pos, int_eq, fits_int64}
use mcp_module.Json.{Value, Any, int64, whole, is_absent, Runtime}
use mcp_module.I18n.{Translator}
use mcp_module.Protocol.{Result, ok, failed, Params, Request, Response, new_request}
use mcp_module.Protocol.Ids.{normalize_id}
use mcp_module.Protocol.Codec.{encode_request, decode_request, encode_response, decode_response}
use mcp_module.Server.Tables.{Tables}
use mcp_module.Server.Dispatch.{Reaction, reply, silent, panicked, handle_request}
use mcp_module.Client.Results.{local, unanswered, Outcome, received, refused}

-- Whether a normalized id is the key under which the client's request of that number is pending.
unfoldable pub is_key : ℕ → Any → Bool
is_key n (int64 z) = int_eq z (pos n)
is_key n _ = false

-- The body of the client's read loop, with one request pending.
unfoldable pub read_back : Runtime → ℕ → Option Response → Outcome Response
unfolding is_key normalize_id
read_back go n none = refused unanswered
read_back go n (some r) =
    if is_absent r.id
    then refused unanswered
    else if is_key n (normalize_id go r.id)
    then received r
    else refused unanswered

-- What the client gets of a reaction: nothing ever comes where there is no response.
unfoldable pub deliver : Runtime → ℕ → Reaction → Outcome Response
unfolding read_back
deliver go n (reply r) = read_back go n (encode_response r >>= decode_response go)
deliver go n silent = refused unanswered
deliver go n panicked = refused unanswered

-- The client's counter and the world of the server's handlers.
pub record Joined (W : Type 0) : Type 0 where
  pub next_id : ℕ
  pub world : W

-- A number within int64 that is exact as a float64.
pub record IsExact (go : Runtime) (n : ℕ) : Type 0 where
  pub nearest_same : go.nearest (pos n) ≡ whole (pos n)
  pub in_range : fits_int64 (pos n) ≡ true

module _ {W : Type 0} (go : Runtime) (translator : Translator) (s : Tables W) where
  unfoldable pub serve_read : ℕ → W → Option Request → W × Outcome Response
  serve_read n w none = (w, refused unanswered)
  serve_read n w (some req) =
      let (w', reaction) = handle_request go translator req s w in (w', deliver go n reaction)

  unfoldable pub serve_sent : ℕ → W → Option Value → W × Outcome Response
  unfolding serve_read
  serve_sent n w none =
      (w, refused (local (String.◌++◌ "failed to marshal request: " go.marshal_error)))
  serve_sent n w (some v) = serve_read n w (decode_request go v)

  unfoldable pub serve_one : ℕ → W → Result Request → W × Outcome Response
  unfolding serve_sent
  serve_one n w (failed m) = (w, refused (local (String.◌++◌ "failed to create request: " m)))
  serve_one n w (ok req) = serve_sent n w (encode_request req)

  unfoldable pub exchange : Joined W → String → Params → Joined W × Outcome Response
  unfolding serve_one
  exchange c method params =
      let id = c.next_id + 1 in
      let (w', o) = serve_one id c.world (new_request go (int64 (pos id)) method params) in
      (record { next_id = id; world = w' }, o)

  -- A line of the client to which it expects no response.
  unfoldable pub notify : Joined W → Option Value → Joined W
  unfolding serve_sent
  notify c line = record c { world = (serve_sent c.next_id c.world line).0 }
