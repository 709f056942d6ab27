-- ===== src/Json/Fields.antt =====
-- What a struct field reads from the members that were written.
use mcp_module.Common.{
  String, Bool, none, some, List, [], ◌∷◌, Dict, if◌then◌else◌, ◌≡◌, refl, arith,
}
use mcp_module.Json.{
  Value, items, elems, members, fields, find_field, part, found_at, fold_eq, struct_of, object,
}

pub elems-items : (vs : List Value) → elems (items vs) ≡ vs
unfolding elems items
elems-items [] = refl
elems-items (v ∷ vs) = rw (elems-items vs)

pub fields-members : (fs : Dict Value) → fields (members fs) ≡ fs
unfolding fields members
fields-members [] = refl
fields-members ((k, v) ∷ fs) = rw (fields-members fs)

pub struct_of-object : (fs : Dict Value) → struct_of (object fs) ≡ some fs
unfolding struct_of
struct_of-object fs = rw (fields-members fs)

pub find_field-nil : (name : String) → find_field name [] ≡ none
unfolding find_field
find_field-nil name = refl

pub find_field-part :
    (name k : String) (empty : Bool) (v : Value) (rest : Dict Value)
    → find_field name (part empty k v rest)
      ≡ found_at (fold_eq k name) (find_field name rest) (if empty then none else some v)
unfolding find_field part
find_field-part name k empty v rest = ground arith

pub ruleset field_laws = (struct_of-object, find_field-part, find_field-nil)
