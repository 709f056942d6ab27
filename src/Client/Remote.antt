-- ===== src/Client/Remote.antt =====
-- Messages between a client and pkg/server arrive as they were sent.
pub mod Tools
pub mod Reads
pub mod Lists
pub mod Handshake
use Prim.Native.Nat.{◌+◌}
use mcp_module.Common.{
  Option-cases, inl, inr, ℕ, String, Bool, true, false, Option, none, some, List, [], ◌∷◌, map,
  Dict, lookup, ◌≡◌, ◌≢◌, refl, sym, ap, subst, ◌∙◌, ◌>>=◌, traverse, if◌then◌else◌, arith,
}
use mcp_module.Common.Int.{pos, int_eq_iff}
use mcp_module.Json.{
  Value, Any, int64, float64, whole, Runtime, marshal, unmarshal, any_of, is_absent, int, list_of,
  fold_eq, struct_of, fields, members, find_field, string_of, object,
}
use mcp_module.Json.Fields.{elems-items}
use mcp_module.I18n.{Translator}
use mcp_module.Protocol.{
  Result, ok, failed, Params, no_params, marshalled, unmarshalable, Request, Response, new_request,
  jsonrpc_version, RpcError, new_response, new_error_response, code_internal_error,
}
use mcp_module.Protocol.Content.{ToolResult}
use mcp_module.Protocol.Ids.{normalize_id}
use mcp_module.Protocol.Codec.{
  encode_request, decode_request, encode_response, decode_response, encode_any_map, decode_any_map,
}
use mcp_module.Protocol.Codec.Messages.{
  Survives, PointerSurvives, ErrorSurvives, MapSurvives, decode-encode_request_id,
  decode-encode_response, any_map_kept, decode-encode_result,
}
use mcp_module.Server.Tables.{Tables, ToolEntry}
use mcp_module.Server.Dispatch.{
  Reaction, reply, handle_request, respond, dispatch, method_of, handle_call_tool, call_tool_with,
  run_tool, read_call_params, list_field, answer_tool, encode_result_pointer,
}
use mcp_module.Client.Results.{
  Failure, rpc, local, Outcome, received, refused, parse_result, list_result,
}
use mcp_module.Client.Operations.{call_tool, then_parse, to_params, call_params}
use mcp_module.Client.Exchange.{
  IsExact, Joined, is_key, read_back, serve_sent, deliver, serve_read, serve_one, exchange,
}

-- The id that the server reads of the client's n-th request.
abbrev pub wire_id : ℕ → Any
wire_id n = float64 (whole (pos n))

-- The request as the server reads it.
abbrev pub arrived : ℕ → String → Option Value → Request
arrived n method params = record {
  jsonrpc = jsonrpc_version;
  id = wire_id n;
  method = method;
  params = params;
}

module _ (go : Runtime) (n : ℕ) (exact : IsExact go n) where
  pub wire_id-Survives : Survives go (wire_id n)
  unfolding marshal unmarshal
  wire_id-Survives = record {
    written = int (pos n);
    writes = refl;
    reads = ap float64 exact.nearest_same;
  }

  pub request_arrives :
      (method : String) (params : Option Value)
      → (encode_request (record {
        jsonrpc = jsonrpc_version;
        id = int64 (pos n);
        method = method;
        params = params;
      })
          >>= decode_request go)
        ≡ some (arrived n method params)
  unfolding marshal any_of unmarshal
  request_arrives method params =
      decode-encode_request_id go _ (int (pos n)) (wire_id n) refl (ap float64 exact.nearest_same)

  is_key-wire_id : is_key n (normalize_id go (wire_id n)) ≡ true
  unfolding is_key normalize_id
  is_key-wire_id = ground (arith, exact.nearest_same, exact.in_range, int_eq_iff (pos n) (pos n))

  read_back-own : (r : Response) → r.id ≡ wire_id n → read_back go n (some r) ≡ received r
  unfolding read_back
  read_back-own r e = rw (e, is_key-wire_id) refl

  response_arrives :
      (r : Response)
      → r.id ≡ wire_id n
      → PointerSurvives go r.error
      → deliver go n (reply r) ≡ received r
  unfolding deliver
  response_arrives r e h =
      ap (read_back go n)
        (decode-encode_response go r (subst (Survives go) (sym e) wire_id-Survives) h)
      ∙ read_back-own r e

pub none_not_some : {r : Request} → none ≢ some r
none_not_some e = cc

module _ {W : Type 0} (go : Runtime) (translator : Translator) (s : Tables W) where
  serve_read-reply :
      (n : ℕ) (w : W) (req : Request) {w' : W} {r : Response}
      → IsExact go n
      → handle_request go translator req s w ≡ (w', reply r)
      → r.id ≡ wire_id n
      → PointerSurvives go r.error
      → serve_read go translator s n w (some req) ≡ (w', received r)
  unfolding serve_read
  serve_read-reply n w req {r} exact h i k = rw h (rw (response_arrives go n exact r i k))

  -- A request that is read as another one is served as that one.
  pub serve_one-read :
      (n : ℕ) (w : W) (req req' : Request)
      → (encode_request req >>= decode_request go) ≡ some req'
      → serve_one go translator s n w (ok req) ≡ serve_read go translator s n w (some req')
  unfolding serve_one serve_sent
  serve_one-read n w req req' h = elim (Option-cases (encode_request req)) [
    | inl missing ↦ absurd (none_not_some (rw missing at h))
    | inr (v, written) ↦ rw (written, rw written at h) refl
  ]

-- The client's state after a request that left the world as `w`.
abbrev pub after : {W : Type 0} → Joined W → W → Joined W
after c w = record { next_id = c.next_id + 1; world = w }

-- What an exchange leaves of what the server's side gives.
abbrev left : {W : Type 0} → Joined W → W × Outcome Response → Joined W × Outcome Response
left c (w, o) = (after c w, o)

module _ {W : Type 0} (go : Runtime) (translator : Translator) (s : Tables W) (c : Joined W)
    (exact : IsExact go (c.next_id + 1)) where
  module _ (method : String) {w' : W} {r : Response} where
    -- A response that repeats the id reaches the client as it is.
    pub exchange-reply_bare :
        handle_request go translator (arrived (c.next_id + 1) method none) s c.world ≡ (w', reply r)
        → r.id ≡ wire_id (c.next_id + 1)
        → PointerSurvives go r.error
        → exchange go translator s c method no_params ≡ (after c w', received r)
    unfolding exchange new_request
    exchange-reply_bare h i k =
        rw
          (serve_one-read go translator s (c.next_id + 1) c.world _ _
            (request_arrives go (c.next_id + 1) exact method none))
          (ap (left c) (
            serve_read-reply go translator s (c.next_id + 1) c.world
              (arrived (c.next_id + 1) method none) exact h i k))

    pub exchange-reply :
        (v : Value)
        → handle_request go translator (arrived (c.next_id + 1) method (some v)) s c.world
          ≡ (w', reply r)
        → r.id ≡ wire_id (c.next_id + 1)
        → PointerSurvives go r.error
        → exchange go translator s c method (marshalled v) ≡ (after c w', received r)
    unfolding exchange new_request
    exchange-reply v h i k =
        rw
          (serve_one-read go translator s (c.next_id + 1) c.world _ _
            (request_arrives go (c.next_id + 1) exact method (some v)))
          (ap (left c) (
            serve_read-reply go translator s (c.next_id + 1) c.world
              (arrived (c.next_id + 1) method (some v)) exact h i k))

-- A list that the server answers under a name is read under that name.
pub list_result-list_field {ℓ} :
    {A : Type ℓ} (name : String) (read : Value → Option A) (vs : List Value)
    → fold_eq name name ≡ true
    → list_result name read (list_field name vs) ≡ traverse read vs
unfolding list_result list_field struct_of fields members find_field list_of
list_result-list_field name read vs h = rw h (rw (elems-items vs) refl)

-- What an operation makes of an answer without an error.
pub parse_respond {ℓ} :
    {A : Type ℓ} (go : Runtime) (read : Value → Option A) (id : Any) (v : Value) {a : A}
    → read v ≡ some a
    → then_parse go read (received (respond go id (some v))) ≡ received a
unfolding then_parse parse_result respond new_response
parse_respond go read id v h = rw h refl

-- An answer without an error repeats the id and survives the wire.
pub respond_id : (go : Runtime) (id : Any) (v : Value) → (respond go id (some v)).id ≡ id
unfolding respond new_response
respond_id go id v = refl

pub respond_error :
    (go : Runtime) (id : Any) (v : Value) → PointerSurvives go (respond go id (some v)).error
unfolding respond new_response
respond_error go id v = tt
