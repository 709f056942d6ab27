-- ===== src/Client/Transport/Updates.antt =====
-- A function that is changed at one number.
use mcp_module.Common.{ℕ, ◌≡◌, ◌≢◌, ◌⊎◌, inl, inr, arith, Bool-cases, nat_eq, nat_eq_iff}
use mcp_module.Client.Transport.{update}

pub update_self {ℓ} : {A : Type ℓ} (f : ℕ → A) (k : ℕ) (v : A) → update f k v k ≡ v
update_self f k v = ground arith

pub update-other {ℓ} :
    {A : Type ℓ} (f : ℕ → A) (k : ℕ) (v : A) (n : ℕ) → n ≢ k → update f k v n ≡ f n
update-other f k v n h = ground arith

pub update-cases {ℓ} :
    {A : Type ℓ} (f : ℕ → A) (k : ℕ) (v : A) (n : ℕ) {x : A}
    → update f k v n ≡ x
    → ((n ≡ k) × (v ≡ x)) ⊎ (f n ≡ x)
update-cases f k v n h = elim (Bool-cases (nat_eq n k)) [
  | inl same ↦ inl ((nat_eq_iff n k).0 same, rw same at h)
  | inr other ↦ inr (rw other at h)
]

pub update-field {ℓ κ} :
    {A : Type ℓ} {B : Type κ} (g : A → B) (f : ℕ → A) (k : ℕ) (v : A) (n : ℕ) {y : B}
    → g (update f k v n) ≡ y
    → ((n ≡ k) × (g v ≡ y)) ⊎ (g (f n) ≡ y)
update-field g f k v n h = elim (Bool-cases (nat_eq n k)) [
  | inl same ↦ inl ((nat_eq_iff n k).0 same, rw same at h)
  | inr other ↦ inr (rw other at h)
]
