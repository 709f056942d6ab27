-- ===== src/Registry/Entries.antt =====
-- Register and Unregister: the invariant of a registry, and both branches of each operation.
use mcp_module.Common.{
  length-insert_absent, length-delete_bound, ◌+◌, String, false, Option, none, some, [], ◌∷◌,
  insert, delete, All, IsDict, insert-IsDict, delete-IsDict, lookup-insert, lookup-delete, ◌≡◌, ◌≢◌,
  refl, arith, eq_iff, if◌then◌else◌, ◌==◌,
}
use mcp_module.Registry.{Adapter, Registry, new, register, unregister, get, count}

-- A name is bound once, to the adapter of that name, and is not empty.
pub record IsRegistry {W : Type 0} (r : Registry W) : Type 0 where
  pub is_dict : IsDict r
  pub named : All (λ e. (e.1.name ≡ e.0) × (e.0 ≢ "")) r

-- The registries that are made by New, Register and Unregister.
pub data Reached {W : Type 0} : Registry W → Type 0 where
  created : Reached new
  registered : (a : Option (Adapter W)) (r : Registry W) → Reached r → Reached (register a r).0
  unregistered : (name : String) (r : Registry W) → Reached r → Reached (unregister name r).0

module _ {W : Type 0} where
  insert-named :
      (a : Adapter W) (r : Registry W)
      → a.name ≢ ""
      → All (λ e. (e.1.name ≡ e.0) × (e.0 ≢ "")) r
      → All (λ e. (e.1.name ≡ e.0) × (e.0 ≢ "")) (insert a.name a r)
  unfolding insert
  insert-named a [] h _ = ((refl, h), tt)
  insert-named a ((j, b) ∷ r) h (k, ks) = ground (arith, eq_iff j a.name, insert-named a r h ks)

  delete-named :
      (name : String) (r : Registry W)
      → All (λ e. (e.1.name ≡ e.0) × (e.0 ≢ "")) r
      → All (λ e. (e.1.name ≡ e.0) × (e.0 ≢ "")) (delete name r)
  unfolding delete
  delete-named name [] _ = tt
  delete-named name ((j, b) ∷ r) (k, ks) = ground (arith, delete-named name r ks)

  -- Register keeps the invariant, whatever its argument.
  pub register-IsRegistry :
      (a : Option (Adapter W)) (r : Registry W) → IsRegistry r → IsRegistry (register a r).0
  unfolding register
  register-IsRegistry none r h = h
  register-IsRegistry (some a) r h =
      let inserted = λ (k : a.name ≢ ""). insert-named a r k h.named in
      ground (arith, eq_iff a.name "", insert-IsDict a.name a r h.is_dict, inserted)

  pub unregister-IsRegistry :
      (name : String) (r : Registry W) → IsRegistry r → IsRegistry (unregister name r).0
  unfolding unregister
  unregister-IsRegistry name r h =
      ground (arith, delete-IsDict name r h.is_dict, delete-named name r h.named)

  new-IsRegistry : IsRegistry (new {W = W})
  unfolding new
  new-IsRegistry = record { is_dict = tt; named = tt }

  -- Every registry that New, Register and Unregister can make, in whatever order they are called and
  -- whether they fail or not, binds each name once, to the adapter of that name, and no empty name.
  pub Reached-IsRegistry : (r : Registry W) → Reached r → IsRegistry r
  Reached-IsRegistry _ created = new-IsRegistry
  Reached-IsRegistry _ (registered a r h) = register-IsRegistry a r (Reached-IsRegistry r h)
  Reached-IsRegistry _ (unregistered name r h) =
      unregister-IsRegistry name r (Reached-IsRegistry r h)

  -- What Register accepts: an adapter that is not nil, with a name that is free and not empty.
  abbrev pub IsAccepted : Option (Adapter W) → Registry W → Type 0
  IsAccepted none r = ⊥
  IsAccepted (some a) r = (a.name ≢ "") × (get a.name r ≡ none)

  -- Where the adapter is not nil and its name is not empty and free, Register returns nil, the name
  -- leads to the adapter, every other name leads where it did, and there is one entry more.
  pub register_accepts :
      (a : Adapter W) (r : Registry W)
      → IsAccepted (some a) r
      → ((register (some a) r).1 ≡ none)
        × ((k : String) → get k (register (some a) r).0 ≡ (if a.name == k then some a else get k r))
        × (count (register (some a) r).0 ≡ count r + 1)
  unfolding register get count
  register_accepts a r (named, free) =
      let not_empty : (a.name == "") ≡ false = ground (arith, eq_iff a.name "") in
      rw (not_empty, free)
        (refl, λ k. lookup-insert a.name k a r, length-insert_absent a.name a r free)

  -- In every other case, a nil adapter, an empty name or a name in use, Register returns an error and
  -- leaves the registry as it is.
  pub register_rejects :
      (o : Option (Adapter W)) (r : Registry W)
      → ¬ IsAccepted o r
      → ((register o r).0 ≡ r) × ((register o r).1 ≢ none)
  unfolding register get
  register_rejects none r h = ground arith
  register_rejects (some a) r h = ground (arith, eq_iff a.name "")

  unregister_bound :
      (name : String) (r : Registry W)
      → get name r ≢ none
      → unregister name r ≡ (delete name r, none)
  unfolding unregister get
  unregister_bound name r h = ground arith

  -- Where the name is bound in a registry of the invariant, Unregister returns nil, the name is free
  -- afterwards, every other name leads where it did, and there is one entry less.
  pub unregister_removes :
      (name : String) (r : Registry W)
      → IsRegistry r
      → get name r ≢ none
      → ((unregister name r).1 ≡ none)
        × ((k : String) → get k (unregister name r).0 ≡ (if name == k then none else get k r))
        × (count (unregister name r).0 + 1 ≡ count r)
  unfolding get count
  unregister_removes name r h bound =
      rw (unregister_bound name r bound)
        (refl, λ k. lookup-delete name k r, length-delete_bound name r h.is_dict bound)

  pub unregister_rejects :
      (name : String) (r : Registry W)
      → get name r ≡ none
      → ((unregister name r).0 ≡ r) × ((unregister name r).1 ≢ none)
  unfolding unregister get
  unregister_rejects name r h = ground arith
