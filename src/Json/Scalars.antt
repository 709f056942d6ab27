-- ===== src/Json/Scalars.antt =====
-- Reading back a field that was written, or left out because it was empty.
use mcp_module.Common.{
  String, Bool, true, false, not, Option, none, some, List, [], ◌∷◌, map, if◌then◌else◌, ◌==◌, ◌≡◌,
  refl, arith, eq_iff, traverse,
}
use mcp_module.Common.Int.{ℤ, fits_int64}
use mcp_module.Json.{
  Value, str, bool, int, arr, string_of, bool_of, int_of, list_of, is_empty, items,
}
use mcp_module.Json.Fields.{elems-items}

pub string_of_omitted : (s : String) → string_of (if s == "" then none else some (str s)) ≡ some s
unfolding string_of
string_of_omitted s = ground (arith, eq_iff s "")

pub string_of_kept : (s : String) → string_of (some (str s)) ≡ some s
unfolding string_of
string_of_kept s = refl

pub bool_of_omitted : (b : Bool) → bool_of (if not b then none else some (bool b)) ≡ some b
unfolding bool_of
bool_of_omitted true = refl
bool_of_omitted false = refl

pub int_of_kept : (z : ℤ) → fits_int64 z ≡ true → int_of (some (int z)) ≡ some z
unfolding int_of
int_of_kept z h = rw h

module _ {ℓ} {A : Type ℓ} (read : Value → Option A) (write : A → Value)
    (back : (a : A) → read (write a) ≡ some a) where
  pub traverse-map : (as' : List A) → traverse read (map write as') ≡ some as'
  unfolding traverse
  traverse-map [] = refl
  traverse-map (a ∷ as') = rw (back a) (rw (traverse-map as'))

  pub list_of_kept : (as' : List A) → list_of read (some (arr (items (map write as')))) ≡ some as'
  unfolding list_of
  list_of_kept as' = rw (elems-items (map write as')) (traverse-map as')

  pub list_of_omitted :
      (as' : List A)
      → list_of read (if is_empty as' then none else some (arr (items (map write as')))) ≡ some as'
  unfolding list_of
  list_of_omitted [] = refl
  list_of_omitted (a ∷ as') = list_of_kept (a ∷ as')
