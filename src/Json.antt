-- ===== src/Json.antt =====
-- encoding/json and Go's dynamic values, as pkg/protocol, pkg/server and pkg/client use them: JSON
-- documents, values of type interface{}, and the rules by which struct fields are written and read.
pub mod Fields
pub mod Scalars
pub mod Text
use Prim.Native.Char.{code}
use Prim.Native.String
use mcp_module.Common.{
  ℕ, ◌+◌, String, Bool, true, false, not, ◌&&◌, Option, none, some, List, [], ◌∷◌, map, Dict, leb,
  nat_eq, if◌then◌else◌, ◌==◌, traverse, ◌>>=◌,
}
use mcp_module.Common.Int.{ℤ, pos, negsuc, fits_int64}

-- A float64: `whole z` has the integral value z, `finite` any other finite value (by its bits),
-- `special` is an infinity or a NaN.
pub data Float64 : Type 0 where
  whole : ℤ → Float64
  finite special : ℕ → Float64

-- A JSON document. `int` is a number literal of digits alone; `float` one with a fraction or an
-- exponent, by the float64 that it denotes.
mutual
  pub data Value : Type 0 where
    null : Value
    bool : Bool → Value
    int : ℤ → Value
    float : Float64 → Value
    str : String → Value
    arr : Items → Value
    obj : Members → Value

  pub data Items : Type 0 where
    nil : Items
    cons : Value → Items → Items

  pub data Members : Type 0 where
    end : Members
    member : String → Value → Members → Members

unfoldable pub items : List Value → Items
items [] = nil
items (v ∷ vs) = cons v (items vs)

unfoldable pub elems : Items → List Value
elems nil = []
elems (cons v vs) = v ∷ elems vs

unfoldable pub members : Dict Value → Members
members [] = end
members ((k, v) ∷ fs) = member k v (members fs)

unfoldable pub fields : Members → Dict Value
fields end = []
fields (member k v fs) = (k, v) ∷ fields fs

-- A Go value of type interface{}; `absent` is nil. Arrays and objects are []interface{} and
-- map[string]interface{}, kept as the documents that they hold.
pub data Any : Type 0 where
  absent : Any
  boolean : Bool → Any
  float64 : Float64 → Any
  int64 native_int : ℤ → Any
  string : String → Any
  slice : List Value → Any
  dict : Dict Value → Any

-- What the Go runtime and its standard library decide.
pub record Runtime : Type 0 where
  -- float64(z) for an integer z: the nearest float64.
  pub nearest : ℤ → Float64
  -- int64(v) for a float64 v without an integral value.
  pub trunc : Float64 → ℤ
  -- The texts of errors that json.Unmarshal and json.Marshal return, and of fmt's %v.
  pub unmarshal_error : Option Value → String
  pub marshal_error : String
  pub format : Any → String
  -- The order in which `range` visits the keys of a map.
  pub range_order : List String → List String

-- json.Marshal of a dynamic value; `none` is an error.
unfoldable pub marshal : Any → Option Value
marshal absent = some null
marshal (boolean b) = some (bool b)
marshal (float64 (whole z)) = some (int z)
marshal (float64 (finite n)) = some (float (finite n))
marshal (float64 (special n)) = none
marshal (int64 z) = some (int z)
marshal (native_int z) = some (int z)
marshal (string s) = some (str s)
marshal (slice vs) = some (arr (items vs))
marshal (dict fs) = some (obj (members fs))

-- json.Unmarshal of a document into an interface{}: every number becomes a float64.
unfoldable pub unmarshal : Runtime → Value → Any
unmarshal go null = absent
unmarshal go (bool b) = boolean b
unmarshal go (int z) = float64 (go.nearest z)
unmarshal go (float x) = float64 x
unmarshal go (str s) = string s
unmarshal go (arr vs) = slice (elems vs)
unmarshal go (obj fs) = dict (fields fs)

-- Member names are compared with the letters folded; of characters beyond ASCII only U+017F and
-- U+212A fold to letters of the names that the module declares.
abbrev pub fold_code : ℕ → ℕ
fold_code c =
    if leb b'A' c && leb c b'Z'
    then c + 32
    else if nat_eq c 0x17F
    then b's'
    else if nat_eq c 0x212A
    then b'k'
    else c

abbrev pub fold_codes : String → List ℕ
fold_codes String.[] = []
fold_codes (String.◌∷◌ c s) = fold_code (code c) ∷ fold_codes s

abbrev pub codes_eq : List ℕ → List ℕ → Bool
codes_eq [] [] = true
codes_eq (a ∷ as') (b ∷ bs) = nat_eq a b && codes_eq as' bs
codes_eq _ _ = false

abbrev pub fold_eq : String → String → Bool
fold_eq k name = codes_eq (fold_codes k) (fold_codes name)

-- A member is kept if its name matches and no later one has been.
abbrev pub found_at : Bool → Option Value → Option Value → Option Value
found_at false later here = later
found_at true none here = here
found_at true (some v) here = some v

-- The member that a struct field of that name receives: the last one that matches.
unfoldable pub find_field : String → Dict Value → Option Value
find_field name [] = none
find_field name ((k, v) ∷ fs) = found_at (fold_eq k name) (find_field name fs) (some v)

-- A struct field on its way out; an empty one under `omitempty` is left out.
unfoldable pub part : Bool → String → Value → Dict Value → Dict Value
part empty k v rest = if empty then rest else (k, v) ∷ rest

abbrev pub object : Dict Value → Value
object fs = obj (members fs)

-- The members that json.Unmarshal reads into a struct; null leaves the struct as it is.
unfoldable pub struct_of : Value → Option (Dict Value)
struct_of null = some []
struct_of (obj fs) = some (fields fs)
struct_of _ = none

-- Reading one field: absence and null leave the zero value, another kind is an error.
unfoldable pub string_of : Option Value → Option String
string_of none = some ""
string_of (some null) = some ""
string_of (some (str s)) = some s
string_of (some _) = none

unfoldable pub bool_of : Option Value → Option Bool
bool_of none = some false
bool_of (some null) = some false
bool_of (some (bool b)) = some b
bool_of (some _) = none

unfoldable pub int_of : Option Value → Option ℤ
int_of none = some (pos 0)
int_of (some null) = some (pos 0)
int_of (some (int z)) = if fits_int64 z then some z else none
int_of (some _) = none

unfoldable pub any_of : Runtime → Option Value → Any
any_of go none = absent
any_of go (some v) = unmarshal go v

unfoldable pub list_of {ℓ} : {A : Type ℓ} → (Value → Option A) → Option Value → Option (List A)
list_of read none = some []
list_of read (some null) = some []
list_of read (some (arr vs)) = traverse read (elems vs)
list_of read (some _) = none

-- A map keeps the names as they are written, each bound to its value.
unfoldable pub entry_of {ℓ} :
    {A : Type ℓ} → (Value → Option A) → String × Value → Option (String × A)
entry_of read (k, v) = do a ← read v; some (k, a)

unfoldable pub dict_of {ℓ} : {A : Type ℓ} → (Value → Option A) → Option Value → Option (Dict A)
dict_of read none = some []
dict_of read (some null) = some []
dict_of read (some (obj fs)) = traverse (entry_of read) (fields fs)
dict_of read (some _) = none

-- Emptiness under `omitempty`.
abbrev pub is_empty {ℓ} : {A : Type ℓ} → List A → Bool
is_empty [] = true
is_empty (_ ∷ _) = false

abbrev pub is_absent : Any → Bool
is_absent absent = true
is_absent _ = false
