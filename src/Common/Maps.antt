-- ===== src/Common/Maps.antt =====
-- A Go map with string keys, as an association list, and the laws of its operations.
use Prim.Native.String.{String}
use mathlib.Core.Path.{◌≡◌, refl, sym, subst}
use mathlib.Core.Logic.{◌≢◌, inl, inr}
use mathlib.Core.Bool.{false}
use mathlib.Core.Option.{Option, none, some}
use mathlib.Core.List.{List, [], ◌∷◌, map}
use native.Mathlib.Omega.{arith}
use text.Mathlib.TextEquality.{eq_iff}
use mcp_module.Common.Lists.{length}
use Prim.Native.Nat.{◌+◌}
use mcp_module.Common.Tests.{Bool-cases, ◌==◌, if◌then◌else◌}

abbrev pub Dict {ℓ} : Type ℓ → Type ℓ
Dict V = List (String × V)

module _ {ℓ} {V : Type ℓ} where
  -- `v, ok := m[k]`.
  unfoldable pub lookup : String → Dict V → Option V
  lookup _ [] = none
  lookup key (entry ∷ rest) = if entry.0 == key then some entry.1 else lookup key rest

  -- `m[k] = v`.
  unfoldable pub insert : String → V → Dict V → Dict V
  insert key new [] = (key, new) ∷ []
  insert key new (entry ∷ rest) =
      if entry.0 == key then (key, new) ∷ rest else entry ∷ insert key new rest

  -- `delete(m, k)`.
  unfoldable pub delete : String → Dict V → Dict V
  delete k [] = []
  delete k ((j, w) ∷ m) = let rest = delete k m in if j == k then rest else (j, w) ∷ rest

  unfoldable pub keys : Dict V → List String
  keys m = map (λ e. e.0) m

  lookup-insert_same :
      (key : String) (new : V) (m : Dict V) → lookup key (insert key new m) ≡ some new
  unfolding lookup insert
  lookup-insert_same key new [] = ground (arith, eq_iff key key)
  lookup-insert_same key new (entry ∷ m) =
      ground (arith, eq_iff entry.0 key, eq_iff key key, lookup-insert_same key new m)

  lookup-insert_other :
      (key : String) (new : V) (other : String) (m : Dict V)
      → (key == other) ≡ false
      → lookup other (insert key new m) ≡ lookup other m
  unfolding lookup insert
  lookup-insert_other key new other [] apart = rw apart refl
  lookup-insert_other key new other (entry ∷ m) apart = elim (Bool-cases (entry.0 == key)) [
    | inl same ↦ rw (same, (eq_iff entry.0 key).0 same, apart) refl
    | inr far ↦ rw (far, lookup-insert_other key new other m apart) refl
  ]

  pub lookup-insert :
      (key other : String) (new : V) (m : Dict V)
      → lookup other (insert key new m) ≡ (if key == other then some new else lookup other m)
  lookup-insert key other new m = elim (Bool-cases (key == other)) [
    | inl same ↦ rw (same, sym ((eq_iff key other).0 same)) (lookup-insert_same key new m)
    | inr apart ↦ rw apart (lookup-insert_other key new other m apart)
  ]

  pub lookup-delete :
      (k j : String) (m : Dict V) → lookup j (delete k m) ≡ (if k == j then none else lookup j m)
  unfolding lookup delete
  lookup-delete k j [] = ground arith
  lookup-delete k j ((i, w) ∷ m) =
      ground (arith, eq_iff k j, eq_iff i k, eq_iff i j, lookup-delete k j m)

  -- No key is bound twice.
  abbrev pub IsAbsent : String → Dict V → Type 0
  IsAbsent k [] = Unit
  IsAbsent k ((j, w) ∷ m) = (j ≢ k) × IsAbsent k m

  abbrev pub IsDict : Dict V → Type 0
  IsDict [] = Unit
  IsDict ((j, w) ∷ m) = IsAbsent j m × IsDict m

  pub lookup-IsAbsent : (k : String) (m : Dict V) → IsAbsent k m → lookup k m ≡ none
  unfolding lookup
  lookup-IsAbsent k [] _ = refl
  lookup-IsAbsent k ((j, w) ∷ m) (h, hs) = ground (arith, eq_iff j k, lookup-IsAbsent k m hs)

  pub IsAbsent-lookup : (k : String) (m : Dict V) → lookup k m ≡ none → IsAbsent k m
  unfolding lookup
  IsAbsent-lookup k [] _ = tt
  IsAbsent-lookup k ((j, w) ∷ m) h = ground (arith, eq_iff j k, IsAbsent-lookup k m)

  pub IsAbsent-insert :
      (k j : String) (v : V) (m : Dict V) → IsAbsent j m → k ≢ j → IsAbsent j (insert k v m)
  unfolding insert
  IsAbsent-insert k j v [] _ h = (h, tt)
  IsAbsent-insert k j v ((i, w) ∷ m) (a, b) h =
      ground (arith, eq_iff i k, IsAbsent-insert k j v m b h)

  pub insert-IsDict : (k : String) (v : V) (m : Dict V) → IsDict m → IsDict (insert k v m)
  unfolding insert
  insert-IsDict k v [] _ = (tt, tt)
  insert-IsDict k v ((i, w) ∷ m) (a, b) =
      ground (arith, eq_iff i k, insert-IsDict k v m b, IsAbsent-insert k i v m a)

  pub IsAbsent-delete : (k j : String) (m : Dict V) → IsAbsent j m → IsAbsent j (delete k m)
  unfolding delete
  IsAbsent-delete k j [] _ = tt
  IsAbsent-delete k j ((i, w) ∷ m) (a, b) = ground (arith, IsAbsent-delete k j m b)

  pub delete-IsDict : (k : String) (m : Dict V) → IsDict m → IsDict (delete k m)
  unfolding delete
  delete-IsDict k [] _ = tt
  delete-IsDict k ((i, w) ∷ m) (a, b) = ground (arith, delete-IsDict k m b, IsAbsent-delete k i m a)

  -- `delete` removes one entry exactly where the key is bound.
  pub length-delete_absent : (k : String) (m : Dict V) → IsAbsent k m → delete k m ≡ m
  unfolding delete
  length-delete_absent k [] _ = refl
  length-delete_absent k ((i, w) ∷ m) (a, b) =
      ground (arith, eq_iff i k, length-delete_absent k m b)

  pub length-insert_absent :
      (k : String) (v : V) (m : Dict V) → lookup k m ≡ none → length (insert k v m) ≡ length m + 1
  unfolding lookup insert
  length-insert_absent k v [] _ = omega arith
  length-insert_absent k v ((j, w) ∷ m) h = ground (arith, length-insert_absent k v m)

  pub length-insert_bound :
      (k : String) (v : V) (m : Dict V) → lookup k m ≢ none → length (insert k v m) ≡ length m
  unfolding lookup insert
  length-insert_bound k v [] h = absurd (h refl)
  length-insert_bound k v ((j, w) ∷ m) h = ground (arith, length-insert_bound k v m)

  pub length-delete_bound :
      (k : String) (m : Dict V) → IsDict m → lookup k m ≢ none → length (delete k m) + 1 ≡ length m
  unfolding lookup delete
  length-delete_bound k [] _ h = absurd (h refl)
  length-delete_bound k ((j, v) ∷ m) (p, ps) h = elim (Bool-cases (j == k)) [
    | inl same ↦
        let e : j ≡ k = (eq_iff j k).0 same in
        rw (same, length-delete_absent k m (subst (λ x. IsAbsent x m) e p)) (omega arith)
    | inr other ↦ rw other (omega (arith, length-delete_bound k m ps (rw other at h)))
  ]

-- The same function at every value of a map.
module _ {ℓ} {V : Type ℓ} (f : V → V) where
  unfoldable pub map_values : Dict V → Dict V
  map_values [] = []
  map_values ((k, v) ∷ m) = (k, f v) ∷ map_values m

  pub lookup-map_values :
      (k : String) (m : Dict V) (v : V) → lookup k m ≡ some v → lookup k (map_values m) ≡ some (f v)
  unfolding lookup map_values
  lookup-map_values k [] v h = cc
  lookup-map_values k ((j, w) ∷ m) v h = ground (arith, lookup-map_values k m v)

  pub lookup-map_values-none :
      (k : String) (m : Dict V) → lookup k m ≡ none → lookup k (map_values m) ≡ none
  unfolding lookup map_values
  lookup-map_values-none k [] h = refl
  lookup-map_values-none k ((j, w) ∷ m) h = ground (arith, lookup-map_values-none k m)

  pub length-map_values : (m : Dict V) → length (map_values m) ≡ length m
  unfolding map_values
  length-map_values [] = refl
  length-map_values ((k, v) ∷ m) = omega (arith, length-map_values m)

  IsAbsent-map_values : (k : String) (m : Dict V) → IsAbsent k m → IsAbsent k (map_values m)
  unfolding map_values
  IsAbsent-map_values k [] _ = tt
  IsAbsent-map_values k ((j, v) ∷ m) (h, hs) = (h, IsAbsent-map_values k m hs)

  pub map_values-IsDict : (m : Dict V) → IsDict m → IsDict (map_values m)
  unfolding map_values
  map_values-IsDict [] _ = tt
  map_values-IsDict ((k, v) ∷ m) (h, hs) = (IsAbsent-map_values k m h, map_values-IsDict m hs)
