-- ===== src/Config/Files.antt =====
-- pkg/config/config.go: FileConfig.Validate.
use mcp_module.Common.{
  ℕ, suc, ◌+◌, Option, none, some, List, [], ◌∷◌, ◌++◌, length, All, ◌≡◌, refl, ap, subst, arith,
}
use mcp_module.Config.{
  FileConfig, ConfigError, FileError, validate_server, validate_container, validate_from,
  validate_file, report, server_error, container_error,
}

-- The entry at an index is the first one that the check refuses, with that error.
pub record FirstRefused {ℓ} {A : Type ℓ} (check : A → Option ConfigError) (xs : List A) (i : ℕ)
    (e : ConfigError) : Type ℓ where
  pub before : List A
  pub entry : A
  pub rest : List A
  pub split : xs ≡ before ++ entry ∷ rest
  pub accepted : All (λ x. check x ≡ none) before
  pub refused : check entry ≡ some e
  pub index : i ≡ length before

module _ {ℓ} {A : Type ℓ} (check : A → Option ConfigError) where
  -- What the loop returns, started at an index.
  abbrev Scanned : ℕ → List A → Option (ℕ × ConfigError) → Type ℓ
  Scanned i xs none = All (λ x. check x ≡ none) xs × Unit {ℓ}
  Scanned i xs (some (j, e)) = (k : ℕ) × (j ≡ i + k) × FirstRefused check xs k e

  Scanned-cons :
      (i : ℕ) (x : A) (xs : List A) (r : Option (ℕ × ConfigError))
      → check x ≡ none
      → Scanned (i + 1) xs r
      → Scanned i (x ∷ xs) r
  Scanned-cons i x xs none h s = ((h, s.0), tt)
  Scanned-cons i x xs (some (j, e)) h (k, at, f) = (
    suc k,
    omega arith,
    record {
      before = x ∷ f.before;
      entry = f.entry;
      rest = f.rest;
      split = ap (λ l. x ∷ l) f.split;
      accepted = (h, f.accepted);
      refused = f.refused;
      index = ap suc f.index;
    },
  )

  Scanned-step :
      (i : ℕ) (x : A) (xs : List A) (o : Option ConfigError) (rest : Option (ℕ × ConfigError))
      → check x ≡ o
      → Scanned (i + 1) xs rest
      → Scanned i (x ∷ xs) (elim o [ some e ↦ some (i, e) | none ↦ rest ])
  Scanned-step i x xs none rest h s = Scanned-cons i x xs rest h s
  Scanned-step i x xs (some e) rest h s = (
    0,
    omega arith,
    record {
      before = [];
      entry = x;
      rest = xs;
      split = refl;
      accepted = tt;
      refused = h;
      index = refl;
    },
  )

  validate_from-Scanned : (i : ℕ) (xs : List A) → Scanned i xs (validate_from check i xs)
  unfolding validate_from
  validate_from-Scanned i [] = (tt, tt)
  validate_from-Scanned i (x ∷ xs) =
      Scanned-step i x xs (check x) (validate_from check (i + 1) xs) refl
        (validate_from-Scanned (i + 1) xs)

  refused_at :
      {xs : List A} {j k : ℕ} {e : ConfigError}
      → j ≡ 0 + k
      → FirstRefused check xs k e
      → FirstRefused check xs j e
  refused_at {xs} {j} {k} {e} h f =
      let same : k ≡ j = omega arith in subst (λ n. FirstRefused check xs n e) same f

-- What an answer of FileConfig.Validate says of the file.
abbrev pub Judges : FileConfig → Option FileError → Type 0
Judges f none =
    All (λ c. validate_server c ≡ none) f.servers
    × All (λ c. validate_container c ≡ none) f.containers
Judges f (some (server_error i e)) = FirstRefused validate_server f.servers i e
Judges f (some (container_error i e)) =
    All (λ c. validate_server c ≡ none) f.servers × FirstRefused validate_container f.containers i e

report-Judges :
    (f : FileConfig) (r r' : Option (ℕ × ConfigError))
    → Scanned validate_server 0 f.servers r
    → Scanned validate_container 0 f.containers r'
    → Judges f (report r r')
unfolding report
report-Judges f none none s s' = (s.0, s'.0)
report-Judges f none (some (i, e)) s (k, at, first) = (s.0, refused_at validate_container at first)
report-Judges f (some (i, e)) r' (k, at, first) s' = refused_at validate_server at first

-- FileConfig.Validate returns nil exactly where every entry is valid by itself; otherwise its error
-- names the index of the first invalid server with its error, or, all servers being valid, that of
-- the first invalid container.
pub validate_file-Judges : (f : FileConfig) → Judges f (validate_file f)
unfolding validate_file
validate_file-Judges f =
    report-Judges f _ _ (validate_from-Scanned validate_server 0 f.servers)
      (validate_from-Scanned validate_container 0 f.containers)
