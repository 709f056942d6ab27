-- ===== src/Runner/Answers.antt =====
-- An RPC of the runner whose request the server answers.
use mcp_module.Common.{
  ℕ, ◌<◌, ◌^◌, String, Option, none, some, [], ◌≡◌, refl, sym, ap, ◌>>=◌, subst, Option-cases, inl,
  inr, arith, true,
}
use mcp_module.Common.Int.{pos, fits_int64}
use mcp_module.Json.{Value, int, native_int, whole, float64, Runtime, marshal, any_of, unmarshal}
use mcp_module.I18n.{noop_translator}
use mcp_module.Protocol.{ok, no_params, marshalled, Request, Response, new_request, jsonrpc_version}
use mcp_module.Protocol.Codec.{encode_request, decode_request, encode_response, decode_response}
use mcp_module.Protocol.Codec.Messages.{Survives, decode-encode_request_id, decode-encode_response}
use mcp_module.Server.Tables.{Tables}
use mcp_module.Server.Dispatch.{reply, handle_request, respond}
use mcp_module.Server.Serve.{serve, finish, on_line, on_request, write_response}
use mcp_module.Client.Exchange.{IsExact}
use mcp_module.Client.Remote.{
  wire_id, arrived, wire_id-Survives, respond_id, respond_error, none_not_some,
}
use mcp_module.Runner.{Rpc, must_request, serve_verdicts, read_first, run_one_rpc}

-- The integers up to 2^53 are float64s.
abbrev pub KeepsSmall : Runtime → Type 0
KeepsSmall go = (n : ℕ) → n < 2 ^ 53 → go.nearest (pos n) ≡ whole (pos n)

abbrev pub replied : {W : Type 0} → W → Response → Rpc W
replied w r = record { world = w; verdicts = []; response = some r }

module _ {W : Type 0} (go : Runtime) (s : Tables W) (w : W) where
  answered_rpc :
      (req req' : Request) {w' : W} {r : Response}
      → (encode_request req >>= decode_request go) ≡ some req'
      → handle_request go noop_translator req' s w ≡ (w', reply r)
      → (encode_response r >>= decode_response go) ≡ some r
      → run_one_rpc go s w (ok req) ≡ replied w' r
  unfolding run_one_rpc serve finish on_line on_request write_response serve_verdicts
  answered_rpc req req' {r = r} d h b = elim (Option-cases (encode_request req)) [
    | inl missing ↦ absurd (none_not_some (rw missing at d))
    | inr (v, written) ↦ elim (Option-cases (encode_response r)) [
      | inl lost ↦ cc
      | inr (u, kept) ↦
          rw written
            (rw (rw written at d, on_request) (rw h (rw kept (rw (rw kept at b, read_first) refl))))
    ]
  ]

fits_small : {n : ℕ} → n < 2 ^ 53 → fits_int64 (pos n) ≡ true
fits_small h = ground arith

module _ (go : Runtime) (small : KeepsSmall go) (n : ℕ) (few : n < 2 ^ 53) where
  id-IsExact : IsExact go n
  id-IsExact = record { nearest_same = small n few; in_range = fits_small few }

  pub arrives :
      (method : String) (params : Option Value)
      → (encode_request (record {
        jsonrpc = jsonrpc_version;
        id = native_int (pos n);
        method = method;
        params = params;
      })
          >>= decode_request go)
        ≡ some (arrived n method params)
  unfolding marshal any_of unmarshal
  arrives method params =
      decode-encode_request_id go _ (int (pos n)) (wire_id n) refl (ap float64 (small n few))

  returns :
      (v : Value)
      → (encode_response (respond go (wire_id n) (some v)) >>= decode_response go)
        ≡ some (respond go (wire_id n) (some v))
  returns v =
      decode-encode_response go (respond go (wire_id n) (some v))
        (subst (Survives go) (sym (respond_id go (wire_id n) v)) (wire_id-Survives go n id-IsExact))
        (respond_error go (wire_id n) v)

module _ {W : Type 0} (go : Runtime) (small : KeepsSmall go) (s : Tables W) (w : W) (n : ℕ)
    (few : n < 2 ^ 53) (method : String) {w' : W} (v : Value) where
  -- A request without params, and one with params, that the server answers with a result.
  pub run-bare :
      handle_request go noop_translator (arrived n method none) s w
        ≡ (w', reply (respond go (wire_id n) (some v)))
      → run_one_rpc go s w (must_request go n method no_params)
        ≡ replied w' (respond go (wire_id n) (some v))
  unfolding must_request new_request
  run-bare h =
      answered_rpc go s w _ (arrived n method none) (arrives go small n few method none) h
        (returns go small n few v)

  pub run-with :
      (p : Value)
      → handle_request go noop_translator (arrived n method (some p)) s w
        ≡ (w', reply (respond go (wire_id n) (some v)))
      → run_one_rpc go s w (must_request go n method (marshalled p))
        ≡ replied w' (respond go (wire_id n) (some v))
  unfolding must_request new_request
  run-with p h =
      answered_rpc go s w _ (arrived n method (some p)) (arrives go small n few method (some p)) h
        (returns go small n few v)
