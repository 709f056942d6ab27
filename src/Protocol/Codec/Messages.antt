-- ===== src/Protocol/Codec/Messages.antt =====
-- Reading back the messages and contents that were written.
use mcp_module.Common.{
  String, true, false, Option, none, some, [], ◌∷◌, Dict, if◌then◌else◌, ◌≡◌, ◌≢◌, refl, traverse,
  arith, ◌>>=◌, RoundTrips, All, traverse-traverse,
}
use mcp_module.Common.Int.{fits_int64}
use mcp_module.Json.{
  Value, Any, Runtime, marshal, unmarshal, any_of, is_absent, absent, find_field, found_at, fold_eq,
  null, entry_of, dict_of, is_empty, object,
}
use mcp_module.Json.Fields.{
  field_laws, struct_of-object, find_field-part, find_field-nil, fields-members,
}
use mcp_module.Json.Scalars.{
  string_of_omitted, string_of_kept, bool_of_omitted, int_of_kept, list_of_kept, list_of_omitted,
}
use mcp_module.Protocol.{RpcError, Response, Request}
use mcp_module.Protocol.Content.{ContentBlock, ToolResult, Tool}
use mcp_module.Protocol.Codec.{
  encode_block, decode_block, encode_result, decode_result, encode_request, decode_request,
  encode_error, error_object, decode_error, encode_response, decode_response, encode_pointer,
  pointer_of, map_pointer, raw_part?, encode_tool, decode_tool, encode_any_map, decode_any_map,
  marshal_entry,
}

pub ruleset codec_laws = (field_laws, string_of_omitted, string_of_kept, bool_of_omitted)

pub decode-encode_block : (b : ContentBlock) → decode_block (encode_block b) ≡ some b
unfolding decode_block encode_block
decode-encode_block b = simp codec_laws

pub decode-encode_result : (r : ToolResult) → decode_result (encode_result r) ≡ some r
unfolding decode_result encode_result
decode-encode_result r = simp (codec_laws, list_of_kept, decode-encode_block)

-- A dynamic value that survives being written and read: what it is written as reads back as itself.
-- Numbers do if they are float64 already; an int64 comes back as a float64.
pub record Survives (go : Runtime) (a : Any) : Type 0 where
  pub written : Value
  pub writes : marshal a ≡ some written
  pub reads : unmarshal go written ≡ a

-- Of a nil member nothing is written, and nil is read.
any_of-part :
    (go : Runtime) (a : Any) (v : Value)
    → unmarshal go v ≡ a
    → any_of go (if is_absent a then none else some v) ≡ a
unfolding any_of
any_of-part go absent v e = refl
any_of-part go _ v e = e

pub find_field-raw :
    (name k : String) (o : Option Value) (rest : Dict Value)
    → find_field name (raw_part? k o rest) ≡ found_at (fold_eq k name) (find_field name rest) o
find_field-raw name k none rest = find_field-part name k true null rest
find_field-raw name k (some v) rest = find_field-part name k false v rest

-- A pointer to what is written as an object is read back.
module _ {ℓ} {A : Type ℓ} (read : Value → Option A) (write : A → Value)
    (back : (a : A) → read (write a) ≡ some a) (not_null : (a : A) → write a ≢ null) where
  pub pointer_of_written : (a : A) → pointer_of read (some (write a)) ≡ some (some a)
  unfolding pointer_of
  pointer_of_written a = ground (arith, back a, not_null a)

  pub pointer_of-map_pointer : (o : Option A) → pointer_of read (map_pointer write o) ≡ some o
  unfolding pointer_of
  pointer_of-map_pointer none = refl
  pointer_of-map_pointer (some a) = pointer_of_written a

-- The id is read back as whatever its member reads as.
pub decode-encode_request_id :
    (go : Runtime) (r : Request) (v : Value) (a : Any)
    → marshal r.id ≡ some v
    → any_of go (if is_absent r.id then none else some v) ≡ a
    → (encode_request r >>= decode_request go) ≡ some (record r { id = a })
unfolding decode_request encode_request
decode-encode_request_id go r v a e h = simp (codec_laws, find_field-raw, e, h)

-- A request whose id survives being written and read is read back as it was written.
pub decode-encode_request :
    (go : Runtime) (r : Request)
    → Survives go r.id
    → (encode_request r >>= decode_request go) ≡ some r
decode-encode_request go r s =
    decode-encode_request_id go r s.written r.id s.writes (any_of-part go r.id s.written s.reads)

decode-error_object :
    (go : Runtime) (e : RpcError) (v : Value)
    → fits_int64 e.code ≡ true
    → unmarshal go v ≡ e.payload
    → decode_error go (error_object e v) ≡ some e
unfolding decode_error error_object
decode-error_object go e v f h =
    simp (codec_laws, int_of_kept e.code f, any_of-part go e.payload v h)

-- What a response must hold to be read back as it was written.
pub record ErrorSurvives (go : Runtime) (e : RpcError) : Type 0 where
  pub code_fits : fits_int64 e.code ≡ true
  pub payload_survives : Survives go e.payload

abbrev pub PointerSurvives : Runtime → Option RpcError → Type 0
PointerSurvives go none = Unit
PointerSurvives go (some e) = ErrorSurvives go e

rw_pointer :
    (go : Runtime) (e : RpcError) (v : Value)
    → decode_error go (error_object e v) ≡ some e
    → pointer_of (decode_error go) (some (error_object e v)) ≡ some (some e)
unfolding pointer_of error_object
rw_pointer go e v h = rw h

pointer_of_error :
    (go : Runtime) (o : Option RpcError)
    → PointerSurvives go o
    → (v : Option Value) × (encode_pointer encode_error o ≡ some v)
      × (pointer_of (decode_error go) v ≡ some o)
unfolding encode_pointer pointer_of encode_error
pointer_of_error go none _ = (none, refl, refl)
pointer_of_error go (some e) h =
    let s = h.payload_survives in
    (
      some (error_object e s.written),
      rw s.writes,
      rw_pointer go e s.written (decode-error_object go e s.written h.code_fits s.reads),
    )

-- A response is read back as it was written, if its id survives that and, where it holds an error,
-- the error's data does and its code fits into 64 bits.
pub decode-encode_response :
    (go : Runtime) (r : Response)
    → Survives go r.id
    → PointerSurvives go r.error
    → (encode_response r >>= decode_response go) ≡ some r
unfolding decode_response encode_response
decode-encode_response go r s h =
    let (v, written, read) = pointer_of_error go r.error h in
    simp
      (codec_laws, find_field-raw, s.writes, written, read, any_of-part go r.id s.written s.reads)

-- A tool's schema is read back if its values are, and a tool with it.
marshal_entry_back :
    (go : Runtime) (e : String × Any)
    → Survives go e.1
    → RoundTrips marshal_entry (entry_of (λ v. some (unmarshal go v))) e
unfolding marshal_entry entry_of RoundTrips
marshal_entry_back go (k, a) s = ((k, s.written), rw (s.writes), rw (s.reads))

-- Every value of the map survives.
abbrev pub MapSurvives : Runtime → Dict Any → Type 0
MapSurvives go m = All (λ e. Survives go e.1) m

All-entries :
    (go : Runtime) (m : Dict Any)
    → MapSurvives go m
    → All (RoundTrips marshal_entry (entry_of (λ v. some (unmarshal go v)))) m
All-entries go [] _ = tt
All-entries go (e ∷ m) (s, h) = (marshal_entry_back go e s, All-entries go m h)

any_map_back :
    (go : Runtime) (m : Dict Any)
    → MapSurvives go m
    → (fs : Dict Value) × (encode_any_map m ≡ some fs)
      × (decode_any_map go (if is_empty m then none else some (object fs)) ≡ some m)
unfolding encode_any_map decode_any_map dict_of traverse
any_map_back go [] _ = ([], refl, refl)
any_map_back go (e ∷ m) h =
    let (fs, written, read) = traverse-traverse _ _ (e ∷ m) (All-entries go (e ∷ m) h) in
    (fs, written, rw (fields-members fs) read)

-- The map is written whole where it is not left out.
pub any_map_kept :
    (go : Runtime) (m : Dict Any)
    → MapSurvives go m
    → (fs : Dict Value) × (encode_any_map m ≡ some fs)
      × (decode_any_map go (some (object fs)) ≡ some m)
unfolding encode_any_map decode_any_map dict_of
any_map_kept go m h =
    let (fs, written, read) = traverse-traverse _ _ m (All-entries go m h) in
    (fs, written, rw (fields-members fs) read)

-- A tool is read back as it was written, if the values of its schema survive that.
pub decode-encode_tool :
    (go : Runtime) (t : Tool)
    → MapSurvives go t.input_schema
    → (encode_tool t >>= decode_tool go) ≡ some t
unfolding decode_tool encode_tool
decode-encode_tool go t h =
    let (fs, written, read) = any_map_back go t.input_schema h in simp (codec_laws, written, read)
