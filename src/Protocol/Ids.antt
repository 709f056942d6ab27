-- ===== src/Protocol/Ids.antt =====
-- pkg/protocol/protocol.go, NormalizeID: the form under which the clients' pending maps keep ids.
use mcp_module.Common.{
  Bool, true, false, some, if◌then◌else◌, nat_eq, ◌≡◌, refl, inl, inr, arith, Bool-cases, ◌>>=◌,
}
use mcp_module.Common.Int.{ℤ, fits_int64, int_eq, int_eq_iff}
use mcp_module.Json.{
  Any, float64, int64, native_int, string, slice, dict, Float64, whole, finite, Runtime, marshal,
  unmarshal,
}

-- Go's `==` on float64, where the right side is finite.
unfoldable pub float_eq : Float64 → Float64 → Bool
float_eq (whole a) (whole b) = int_eq a b
float_eq (finite a) (finite b) = nat_eq a b
float_eq _ _ = false

-- Go's int64(v): exact where v has an integral value in range.
unfoldable pub to_int64 : Runtime → Float64 → ℤ
to_int64 go (whole z) = if fits_int64 z then z else go.trunc (whole z)
to_int64 go v = go.trunc v

unfoldable pub normalize_id : Runtime → Any → Any
unfolding to_int64 float_eq
normalize_id go (float64 v) =
    let z = to_int64 go v in if float_eq v (go.nearest z) then int64 z else float64 v
normalize_id go (int64 z) = int64 z
normalize_id go (native_int z) = int64 z
normalize_id go (string s) = string s
normalize_id go id = id

-- The values that Go accepts as keys of a map[interface{}]; indexing with another one panics.
unfoldable pub is_hashable : Any → Bool
is_hashable (slice _) = false
is_hashable (dict _) = false
is_hashable _ = true

-- Normalizing an id a second time changes nothing.
pub normalize_id_idempotent :
    (go : Runtime) (id : Any) → normalize_id go (normalize_id go id) ≡ normalize_id go id
unfolding normalize_id
normalize_id_idempotent go (float64 v) =
    elim (Bool-cases (float_eq v (go.nearest (to_int64 go v)))) [
      | inl same ↦ rw (same, normalize_id) refl
      | inr other ↦ rw (other, normalize_id) (rw (other, normalize_id) refl)
    ]
normalize_id_idempotent go (int64 z) = refl
normalize_id_idempotent go (native_int z) = refl
normalize_id_idempotent go _ = refl

-- The id that a client chose is found again in the reply: written as a JSON number, read as a
-- float64 and normalized, it is the same int64, where it fits into 64 bits and that float64 is exact.
pub normalize_id_wire :
    (go : Runtime) (z : ℤ)
    → fits_int64 z ≡ true
    → go.nearest z ≡ whole z
    → (marshal (int64 z) >>= λ v. some (normalize_id go (unmarshal go v))) ≡ some (int64 z)
unfolding normalize_id marshal unmarshal
normalize_id_wire go z fits exact = ground (arith, int_eq_iff z z)
