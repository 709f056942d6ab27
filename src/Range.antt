-- ===== src/Range.antt =====
-- `for k, v := range m` over a Go map: the values in the order that the runtime chooses, and that
-- it visits each entry exactly once.
use mathlib.Core.List.Perm
use mathlib.Core.List.{filter_map}
use mathlib.Core.Bool.{Bool-set}
use mathlib.Core.Logic.{∥∥₁_elim}
use mcp_module.Common.{
  Bool, false, ◌&&◌, ◌||◌, Bool-cases, ◌==◌, true, String, List, [], ◌∷◌, map, Dict, lookup, keys,
  IsDict, IsAbsent, ◌≡◌, refl, ap, subst, ◌∙◌, Perm, arith, eq_iff, eq_refl, ◌⊎◌, inl, inr,
}
use mcp_module.Json.{Runtime}

-- The language promises only that each key is visited once.
abbrev pub VisitsAll : Runtime → Type 0
VisitsAll go = (ks : List String) → Perm (go.range_order ks) ks

abbrev pub values {ℓ} : {V : Type ℓ} → Dict V → List V
values m = map (λ e. e.1) m

module _ {ℓ} {V : Type ℓ} where
  unfoldable pub at_keys : Dict V → List String → List V
  at_keys m ks = filter_map (λ k. lookup k m) ks

  unfoldable pub range : Runtime → Dict V → List V
  unfolding at_keys
  range go m = at_keys m (go.range_order (keys m))

  at_keys-cons :
      (j : String) (w : V) (m rest : Dict V)
      → IsAbsent j rest
      → at_keys ((j, w) ∷ m) (keys rest) ≡ at_keys m (keys rest)
  unfolding at_keys keys lookup filter_map
  at_keys-cons j w m [] _ = refl
  at_keys-cons j w m ((i, v) ∷ rest) (h, hs) =
      ground (arith, eq_iff j i, at_keys-cons j w m rest hs)

  at_keys-keys : (m : Dict V) → IsDict m → at_keys m (keys m) ≡ values m
  unfolding at_keys keys lookup filter_map
  at_keys-keys [] _ = refl
  at_keys-keys ((j, w) ∷ m) (h, hs) =
      rw (eq_refl j) (ap (λ l. w ∷ l) (at_keys-cons j w m m h ∙ at_keys-keys m hs))

  -- Whatever the order, the values that `range` visits are those of the map, each once.
  pub range-perm :
      (go : Runtime) (m : Dict V) → VisitsAll go → IsDict m → Perm (range go m) (values m)
  unfolding range
  range-perm go m v d =
      subst (Perm (range go m)) (at_keys-keys m d) (Perm.filter_map (λ k. lookup k m) (v (keys m)))

single_perm : (l : List String) (k : String) → Perm l (k ∷ []) → l ≡ k ∷ []
single_perm [] k p = let e = Perm.nil-eq p in cc
single_perm (x ∷ []) k p =
    ap (λ y. y ∷ []) ((eq_iff x k).0 (∥∥₁_elim (Perm.cons-cons_cases p) (Bool-set _ _) same_or))
  where
    same_or :
        ((x ≡ k) × Perm {A = String} [] [])
          ⊎ ((cs : List String) × Perm [] (k ∷ cs) × Perm [] (x ∷ cs))
        → (x == k) ≡ true
    same_or (inl (e, _)) = (eq_iff x k).1 e
    same_or (inr (cs, q, _)) = let e = Perm.nil-eq q in cc
single_perm (x ∷ y ∷ zs) k p = let e = Perm.length-eq p in cc

-- A map with one entry.
pub range-single {ℓ} :
    {V : Type ℓ} (go : Runtime) (k : String) (v : V)
    → VisitsAll go
    → range go ((k, v) ∷ []) ≡ v ∷ []
unfolding range at_keys keys lookup filter_map
range-single go k v visits =
    ap (at_keys ((k, v) ∷ [])) (single_perm (go.range_order (k ∷ [])) k (visits (k ∷ [])))
    ∙ rw (eq_refl k) refl

abbrev are : String → String → String → String → Bool
are x y a b = (x == a) && (y == b)

are_self : {x y a b : String} → x ≡ a → y ≡ b → are x y a b ≡ true
are_self {x} {y} {a} {b} e f = rw ((eq_iff x a).1 e) ((eq_iff y b).1 f)

are_same : (x y a b : String) → are x y a b ≡ true → x ∷ y ∷ [] ≡ a ∷ b ∷ []
are_same x y a b h = ground (arith, eq_iff x a, eq_iff y b)

head_same : {x a : String} {xs as' : List String} → x ∷ xs ≡ a ∷ as' → (x ≡ a) × (xs ≡ as')
head_same e = (cc, cc)

or_true : (c : Bool) → (c || true) ≡ true
or_true true = refl
or_true false = refl

either_way :
    (x y a b : String) → Perm (x ∷ y ∷ []) (a ∷ b ∷ []) → (are x y a b || are x y b a) ≡ true
either_way x y a b p = ∥∥₁_elim (Perm.cons-cons_cases p) (Bool-set _ _) same_or
  where
    same_or :
        ((x ≡ a) × Perm (y ∷ []) (b ∷ []))
          ⊎ ((cs : List String) × Perm (y ∷ []) (a ∷ cs) × Perm (b ∷ []) (x ∷ cs))
        → (are x y a b || are x y b a) ≡ true
    same_or (inl (e, q)) = rw (are_self e ((head_same (single_perm (y ∷ []) b q)).0)) refl
    same_or (inr (cs, q, q')) =
        let (e, none_left) = head_same (single_perm (x ∷ cs) b (Perm.symm q')) in
        let f =
          (head_same (single_perm (y ∷ []) a (subst (λ l. Perm (y ∷ []) (a ∷ l)) none_left q))).0 in
        rw (are_self e f) (or_true (are x y a b))

-- A permutation of two texts.
pub two_perm :
    (l : List String) (a b : String) → Perm l (a ∷ b ∷ []) → (l ≡ a ∷ b ∷ []) ⊎ (l ≡ b ∷ a ∷ [])
two_perm [] a b p = let e = Perm.length-eq p in cc
two_perm (x ∷ []) a b p = let e = Perm.length-eq p in cc
two_perm (x ∷ y ∷ z ∷ zs) a b p = let e = Perm.length-eq p in cc
two_perm (x ∷ y ∷ []) a b p = elim (Bool-cases (are x y a b)) [
  | inl same ↦ inl (are_same x y a b same)
  | inr other ↦ inr (are_same x y b a (rw other at (either_way x y a b p)))
]
