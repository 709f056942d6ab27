-- ===== src/Config/Formats.antt =====
-- pkg/config/config.go, LoadFromFile: the format that the path's extension chooses.
use mcp_module.Common.{
  codes, ℕ, ◌≤◌, Bool, true, false, Bool-cases, All, ◌++◌, ◌≢◌, ap, sym, ◌∙◌, not, ◌&&◌, ◌||◌, List,
  [], ◌∷◌, map, nat_eq, if◌then◌else◌, ◌≡◌, ◌↔◌, ◌⊎◌, inl, inr, refl, arith,
}
use mathlib.Core.List.{append-nil}
use mcp_module.Common.Letters.{
  lower, SameLetter, itself, capital, dotted, kelvin, InAnyCase, AreLow, lowered-InAnyCase,
  InAnyCase-lowered,
}
use mcp_module.Json.{codes_eq}

abbrev no_slash : List ℕ → Bool
no_slash [] = true
no_slash (c ∷ cs) = not (nat_eq c b'/') && no_slash cs

-- filepath.Ext: the last element of the path from its last dot on, or nothing.
unfoldable pub ext : List ℕ → List ℕ
ext [] = []
ext (c ∷ cs) = elim (ext cs) [
  | e ∷ es ↦ e ∷ es
  | [] ↦ if nat_eq c b'.' && no_slash cs then c ∷ cs else []
]

pub data Format : Type 0 where
  json yaml : Format
  unsupported : List ℕ → Format

unfoldable pub format_of_ext : List ℕ → Format
format_of_ext e =
    if codes_eq e (codes ".json")
    then json
    else if codes_eq e (codes ".yaml") || codes_eq e (codes ".yml")
    then yaml
    else unsupported e

unfoldable pub format_of : List ℕ → Format
unfolding ext format_of_ext
format_of path = format_of_ext (map lower (ext path))

-- The path ends in that extension, in any case of letters.
pub record EndsIn (path extension : List ℕ) : Type 0 where
  pub stem : List ℕ
  pub written : List ℕ
  pub split : path ≡ stem ++ written
  pub same : InAnyCase written extension

abbrev Suffixed : List ℕ → List ℕ → Type 0
Suffixed path e = (stem : List ℕ) × (path ≡ stem ++ e)

ext-suffix : (path : List ℕ) → Suffixed path (ext path)
unfolding ext
ext-suffix [] = ([], refl)
ext-suffix (c ∷ cs) = found (ext cs) (ext-suffix cs)
  where
    here : (b : Bool) → Suffixed (c ∷ cs) (if b then c ∷ cs else [])
    here true = ([], refl)
    here false = (c ∷ cs, sym (append-nil (c ∷ cs)))

    found :
        (o : List ℕ)
        → Suffixed cs o
        → Suffixed
            (c ∷ cs)
            (elim o [ e ∷ es ↦ e ∷ es | [] ↦ if nat_eq c b'.' && no_slash cs then c ∷ cs else [] ])
    found [] _ = here (nat_eq c b'.' && no_slash cs)
    found (e ∷ es) (stem, same) = (c ∷ stem, ap (λ l. c ∷ l) same)

abbrev ArePlain : List ℕ → Type 0
ArePlain cs = All (λ c. (c ≢ b'.') × (c ≢ b'/')) cs

plain-no_slash : (cs : List ℕ) → ArePlain cs → no_slash cs ≡ true
plain-no_slash [] _ = refl
plain-no_slash (c ∷ cs) ((_, h), hs) = let rest = plain-no_slash cs hs in ground arith

ext_plain : (cs : List ℕ) → ArePlain cs → ext cs ≡ []
unfolding ext
ext_plain [] _ = refl
ext_plain (c ∷ cs) ((h, _), hs) = rw (ext_plain cs hs) (ground arith)

ext-append : (stem cs : List ℕ) → ArePlain cs → ext (stem ++ b'.' ∷ cs) ≡ b'.' ∷ cs
unfolding ext
ext-append [] cs h = rw (ext_plain cs h, plain-no_slash cs h) refl
ext-append (c ∷ stem) cs h = rw (ext-append stem cs h) refl

abbrev AreLetters : List ℕ → Type 0
AreLetters ps = All (λ p. (97 ≤ p) × (p ≤ 122)) ps

letter_plain : (c p : ℕ) → 97 ≤ p → SameLetter c p → (c ≢ b'.') × (c ≢ b'/')
letter_plain c p h (itself e) = (λ x. omega arith, λ x. omega arith)
letter_plain c p h (capital k _ _) = (λ x. omega arith, λ x. omega arith)
letter_plain c p h (dotted e _) = (λ x. omega arith, λ x. omega arith)
letter_plain c p h (kelvin e _) = (λ x. omega arith, λ x. omega arith)

letters_plain : (cs ps : List ℕ) → AreLetters ps → InAnyCase cs ps → ArePlain cs
letters_plain [] [] _ _ = tt
letters_plain [] (p ∷ ps) _ h = absurd h
letters_plain (c ∷ cs) [] _ h = absurd h
letters_plain (c ∷ cs) (p ∷ ps) ((low, _), lows) (h, hs) =
    (letter_plain c p low h, letters_plain cs ps lows hs)

dot_same : (c : ℕ) → SameLetter c b'.' → c ≡ b'.'
dot_same c (itself e) = e
dot_same c (capital h _ e) = omega arith
dot_same c (dotted _ e) = omega arith
dot_same c (kelvin _ e) = omega arith

ext-InAnyCase :
    (stem written ps : List ℕ)
    → AreLetters ps
    → InAnyCase written (b'.' ∷ ps)
    → ext (stem ++ written) ≡ written
ext-InAnyCase stem [] ps _ h = absurd h
ext-InAnyCase stem (c ∷ cs) ps letters (h, hs) =
    rw (dot_same c h) (ext-append stem cs (letters_plain cs ps letters hs))

-- For an extension of a dot and small letters.
ext-EndsIn_iff :
    (path ps : List ℕ)
    → AreLetters ps
    → AreLow (b'.' ∷ ps)
    → (map lower (ext path) ≡ b'.' ∷ ps) ↔ EndsIn path (b'.' ∷ ps)
ext-EndsIn_iff path ps letters low = (
  λ e.
      let (stem, split) = ext-suffix path in
      record {
        stem = stem;
        written = ext path;
        split = split;
        same = lowered-InAnyCase (ext path) (b'.' ∷ ps) e;
      },
  λ x.
      ap (λ l. map lower (ext l)) x.split
      ∙ (ap (map lower) (ext-InAnyCase x.stem x.written ps letters x.same)
          ∙ InAnyCase-lowered x.written (b'.' ∷ ps) low x.same),
)

codes_eq_iff : (a b : List ℕ) → (codes_eq a b ≡ true) ↔ (a ≡ b)
codes_eq_iff [] [] = (λ _. refl, λ _. refl)
codes_eq_iff [] (y ∷ b) = (λ e. cc, λ e. cc)
codes_eq_iff (x ∷ a) [] = (λ e. cc, λ e. cc)
codes_eq_iff (x ∷ a) (y ∷ b) = (
  λ e. let rest = (codes_eq_iff a b).0 (ground arith) in let first : x ≡ y = ground arith in cc,
  λ e. let rest = (codes_eq_iff a b).1 cc in let first : x ≡ y = cc in ground arith,
)

-- The extensions that LoadFromFile takes.
abbrev pub IsKnown : List ℕ → Type 0
IsKnown path =
    EndsIn path (codes ".json") ⊎ (EndsIn path (codes ".yaml") ⊎ EndsIn path (codes ".yml"))

ends_json : (path : List ℕ) → (map lower (ext path) ≡ codes ".json") ↔ EndsIn path (codes ".json")
unfolding lower
ends_json path =
    ext-EndsIn_iff path (codes "json")
      (
        (omega arith, omega arith),
        (
          (omega arith, omega arith),
          ((omega arith, omega arith), ((omega arith, omega arith), tt)),
        ),
      )
      (refl, (refl, (refl, (refl, (refl, tt)))))

ends_yaml : (path : List ℕ) → (map lower (ext path) ≡ codes ".yaml") ↔ EndsIn path (codes ".yaml")
unfolding lower
ends_yaml path =
    ext-EndsIn_iff path (codes "yaml")
      (
        (omega arith, omega arith),
        (
          (omega arith, omega arith),
          ((omega arith, omega arith), ((omega arith, omega arith), tt)),
        ),
      )
      (refl, (refl, (refl, (refl, (refl, tt)))))

ends_yml : (path : List ℕ) → (map lower (ext path) ≡ codes ".yml") ↔ EndsIn path (codes ".yml")
unfolding lower
ends_yml path =
    ext-EndsIn_iff path (codes "yml")
      ((omega arith, omega arith), ((omega arith, omega arith), ((omega arith, omega arith), tt)))
      (refl, (refl, (refl, (refl, tt))))

abbrev IsOneOf : List ℕ → Type 0
IsOneOf e = (e ≡ codes ".json") ⊎ ((e ≡ codes ".yaml") ⊎ (e ≡ codes ".yml"))

format_of_ext-known : (e : List ℕ) → (format_of_ext e ≡ json) ⊎ (format_of_ext e ≡ yaml) → IsOneOf e
unfolding format_of_ext
format_of_ext-known e h = elim (Bool-cases (codes_eq e (codes ".json"))) [
  | inl j ↦ inl ((codes_eq_iff e (codes ".json")).0 j)
  | inr no_json ↦ elim (Bool-cases (codes_eq e (codes ".yaml"))) [
    | inl y ↦ inr (inl ((codes_eq_iff e (codes ".yaml")).0 y))
    | inr no_yaml ↦ elim (Bool-cases (codes_eq e (codes ".yml"))) [
      | inl y ↦ inr (inr ((codes_eq_iff e (codes ".yml")).0 y))
      | inr no_yml ↦ elim h [
        | inl x ↦ let never = rw (no_json, no_yaml, no_yml) at x in cc
        | inr x ↦ let never = rw (no_json, no_yaml, no_yml) at x in cc
      ]
    ]
  ]
]

known-format_of_ext : (e : List ℕ) → IsOneOf e → (format_of_ext e ≡ json) ⊎ (format_of_ext e ≡ yaml)
unfolding format_of_ext
known-format_of_ext e (inl j) = inl (rw j refl)
known-format_of_ext e (inr (inl y)) = inr (rw y refl)
known-format_of_ext e (inr (inr y)) = inr (rw y refl)

pub format_of-IsKnown :
    (path : List ℕ) → (format_of path ≡ json) ⊎ (format_of path ≡ yaml) → IsKnown path
unfolding format_of
format_of-IsKnown path h = elim (format_of_ext-known (map lower (ext path)) h) [
  | inl j ↦ inl ((ends_json path).0 j)
  | inr (inl y) ↦ inr (inl ((ends_yaml path).0 y))
  | inr (inr y) ↦ inr (inr ((ends_yml path).0 y))
]

pub IsKnown-format_of :
    (path : List ℕ) → IsKnown path → (format_of path ≡ json) ⊎ (format_of path ≡ yaml)
unfolding format_of
IsKnown-format_of path (inl j) =
    known-format_of_ext (map lower (ext path)) (inl ((ends_json path).1 j))
IsKnown-format_of path (inr (inl y)) =
    known-format_of_ext (map lower (ext path)) (inr (inl ((ends_yaml path).1 y)))
IsKnown-format_of path (inr (inr y)) =
    known-format_of_ext (map lower (ext path)) (inr (inr ((ends_yml path).1 y)))
