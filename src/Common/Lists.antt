-- ===== src/Common/Lists.antt =====
-- Lists measured by native numbers, and loops over lists whose body may fail.
use Prim.Native.Nat.{ℕ, suc, ◌+◌}
use mathlib.Core.Path.{◌≡◌, refl}
use mathlib.Core.Option.{Option, none, some}
use mathlib.Core.List.{List, [], ◌∷◌, ◌++◌}
use native.Mathlib.Omega.{arith}

module _ {ℓ} {A : Type ℓ} where
  abbrev pub length : List A → ℕ
  length [] = 0
  length (x ∷ xs) = suc (length xs)

  pub length-append : (xs ys : List A) → length (xs ++ ys) ≡ length xs + length ys
  length-append [] ys = omega arith
  length-append (x ∷ xs) ys = omega (arith, length-append xs ys)

-- A predicate that holds of every element.
abbrev pub All {ℓ κ} : {A : Type ℓ} → (A → Type κ) → List A → Type κ
All P [] = Unit
All P (x ∷ xs) = P x × All P xs

module _ {ℓ κ} {A : Type ℓ} {B : Type κ} where
  infixl 5 ◌>>=◌
  abbrev pub ◌>>=◌ : Option A → (A → Option B) → Option B
  none >>= k = none
  some a >>= k = k a

-- The results of a step that may fail, made for each element; `none` at the first failure.
module _ {ℓ κ} {A : Type ℓ} {B : Type κ} (f : A → Option B) where
  unfoldable pub traverse : List A → Option (List B)
  traverse [] = some []
  traverse (x ∷ xs) = do y ← f x; ys ← traverse xs; some (y ∷ ys)

pub >>=-eq-some {ℓ κ} :
    {A : Type ℓ} {B : Type κ} (m : Option A) (k : A → Option B) {b : B}
    → (m >>= k) ≡ some b
    → (a : A) × (m ≡ some a) × (k a ≡ some b)
>>=-eq-some none k h = cc
>>=-eq-some (some a) k h = (a, refl, h)

-- Decoding element by element what was encoded element by element.
module _ {ℓ κ} {A : Type ℓ} {B : Type κ} (f : A → Option B) (g : B → Option A) where
  unfoldable pub RoundTrips : A → Type (ℓ ⊔ κ)
  RoundTrips x = (y : B) × (f x ≡ some y) × (g y ≡ some x)

  pub traverse-traverse :
      (xs : List A)
      → All RoundTrips xs
      → (ys : List B) × (traverse f xs ≡ some ys) × (traverse g ys ≡ some xs)
  unfolding traverse RoundTrips
  traverse-traverse [] _ = ([], refl, refl)
  traverse-traverse (x ∷ xs) ((y, e, d), h) =
      let (ys, es, ds) = traverse-traverse xs h in (y ∷ ys, rw (e, es), rw (d, ds))
