-- ===== src/Common/Letters.antt =====
-- strings.ToLower, and texts that differ in the case of their letters only.
use mathlib.Core.List.{map-append}
use mcp_module.Common.{
  ℕ, ◌+◌, ◌≤◌, true, false, Bool-cases, ◌&&◌, List, [], ◌∷◌, ◌++◌, map, All, leb, nat_eq,
  nat_eq_iff, if◌then◌else◌, ◌≡◌, ◌≢◌, subst, ◌↔◌, inl, inr, refl, ap, sym, ◌∙◌, arith, contains,
  is_prefix, contains-append,
}

-- unicode.ToLower as far as it yields ASCII letters: those of ASCII, U+0130 and U+212A.
unfoldable pub lower : ℕ → ℕ
lower c =
    if leb b'A' c && leb c b'Z'
    then c + 32
    else if nat_eq c 304
    then b'i'
    else if nat_eq c 8490
    then b'k'
    else c

-- A letter, or the same in its other case; the Turkish capital I and the sign for kelvins count too.
pub data SameLetter (c p : ℕ) : Type 0 where
  itself : c ≡ p → SameLetter c p
  capital : b'A' ≤ c → c ≤ b'Z' → c + 32 ≡ p → SameLetter c p
  dotted : c ≡ 304 → p ≡ b'i' → SameLetter c p
  kelvin : c ≡ 8490 → p ≡ b'k' → SameLetter c p

abbrev pub InAnyCase : List ℕ → List ℕ → Type 0
InAnyCase [] [] = Unit
InAnyCase [] (p ∷ ps) = ⊥
InAnyCase (c ∷ cs) [] = ⊥
InAnyCase (c ∷ cs) (p ∷ ps) = SameLetter c p × InAnyCase cs ps

-- The phrase stands somewhere in the text, in any case of letters.
pub record Says (text phrase : List ℕ) : Type 0 where
  pub before : List ℕ
  pub said : List ℕ
  pub after : List ℕ
  pub split : text ≡ before ++ (said ++ after)
  pub same : InAnyCase said phrase

lower-SameLetter : (c p : ℕ) → lower c ≡ p → SameLetter c p
unfolding lower
lower-SameLetter c p e = elim (Bool-cases (leb b'A' c && leb c b'Z')) [
  | inl upper ↦ capital (ground arith) (ground arith) (rw upper at e)
  | inr small ↦ elim (Bool-cases (nat_eq c 304)) [
    | inl i ↦ dotted ((nat_eq_iff c 304).0 i) (sym (rw (small, i) at e))
    | inr other ↦ elim (Bool-cases (nat_eq c 8490)) [
      | inl k ↦ kelvin ((nat_eq_iff c 8490).0 k) (sym (rw (small, other, k) at e))
      | inr plain ↦ itself (rw (small, other, plain) at e)
    ]
  ]
]

capital_lower : (c : ℕ) → b'A' ≤ c → c ≤ b'Z' → lower c ≡ c + 32
unfolding lower
capital_lower c h k = ground arith

SameLetter-lower : (c p : ℕ) → lower p ≡ p → SameLetter c p → lower c ≡ p
unfolding lower
SameLetter-lower c p low (itself e) = ap lower e ∙ low
SameLetter-lower c p low (capital h k e) = capital_lower c h k ∙ e
SameLetter-lower c p low (dotted e f) = ap lower e ∙ sym f
SameLetter-lower c p low (kelvin e f) = ap lower e ∙ sym f

abbrev pub AreLow : List ℕ → Type 0
AreLow ps = All (λ p. lower p ≡ p) ps

pub lowered-InAnyCase : (cs ps : List ℕ) → map lower cs ≡ ps → InAnyCase cs ps
lowered-InAnyCase [] [] e = tt
lowered-InAnyCase [] (p ∷ ps) e = cc
lowered-InAnyCase (c ∷ cs) [] e = cc
lowered-InAnyCase (c ∷ cs) (p ∷ ps) e =
    let first : lower c ≡ p = cc in
    let rest : map lower cs ≡ ps = cc in (lower-SameLetter c p first, lowered-InAnyCase cs ps rest)

pub InAnyCase-lowered : (cs ps : List ℕ) → AreLow ps → InAnyCase cs ps → map lower cs ≡ ps
InAnyCase-lowered [] [] _ _ = refl
InAnyCase-lowered [] (p ∷ ps) _ h = absurd h
InAnyCase-lowered (c ∷ cs) [] _ h = absurd h
InAnyCase-lowered (c ∷ cs) (p ∷ ps) (low, lows) (h, hs) =
    let first = SameLetter-lower c p low h in let rest = InAnyCase-lowered cs ps lows hs in cc

not_true : false ≢ true
not_true e = cc

no_cons : {x : ℕ} {l : List ℕ} → [] ≢ x ∷ l
no_cons e = cc

is_prefix-split :
    (sub text : List ℕ) → is_prefix sub text ≡ true → (after : List ℕ) × (text ≡ sub ++ after)
is_prefix-split [] text e = (text, refl)
is_prefix-split (p ∷ sub) [] e = absurd (not_true e)
is_prefix-split (p ∷ sub) (c ∷ text) e =
    let (after, same) = is_prefix-split sub text (ground arith) in
    let first : c ≡ p = ground arith in (after, cc)

contains-split :
    (sub text : List ℕ)
    → contains sub text ≡ true
    → (before : List ℕ) × (after : List ℕ) × (text ≡ before ++ (sub ++ after))
unfolding contains
contains-split sub [] e = let (after, same) = is_prefix-split sub [] e in ([], after, same)
contains-split sub (c ∷ text) e = elim (Bool-cases (is_prefix sub (c ∷ text))) [
  | inl here ↦ let (after, same) = is_prefix-split sub (c ∷ text) here in ([], after, same)
  | inr not_here ↦
      let (before, after, same) = contains-split sub text (rw not_here at e) in
      (c ∷ before, after, ap (λ l. c ∷ l) same)
]

-- A text whose image is in two parts.
map-split :
    (cs b r : List ℕ)
    → map lower cs ≡ b ++ r
    → (cs1 : List ℕ) × (cs2 : List ℕ) × (cs ≡ cs1 ++ cs2)
      × (map lower cs1 ≡ b)
      × (map lower cs2 ≡ r)
map-split cs [] r e = ([], cs, refl, refl, e)
map-split [] (x ∷ b) r e = absurd (no_cons e)
map-split (c ∷ cs) (x ∷ b) r e =
    let (cs1, cs2, same, one, two) = map-split cs b r cc in
    let first : lower c ≡ x = cc in (c ∷ cs1, cs2, ap (λ l. c ∷ l) same, cc, two)

-- strings.Contains of a text in lower case finds a phrase in lower case where the text says it in
-- any case of letters.
pub contains-lowered_iff :
    (text phrase : List ℕ)
    → AreLow phrase
    → (contains phrase (map lower text) ≡ true) ↔ Says text phrase
contains-lowered_iff text phrase low = (
  λ e.
      let (b, a, same) = contains-split phrase (map lower text) e in
      let (before, rest, split, _, two) = map-split text b (phrase ++ a) same in
      let (said, after, parts, exact, _) = map-split rest phrase a two in
      record {
        before = before;
        said = said;
        after = after;
        split = split ∙ ap (λ l. before ++ l) parts;
        same = lowered-InAnyCase said phrase exact;
      },
  λ s.
      let exact = InAnyCase-lowered s.said phrase low s.same in
      subst (λ l. contains phrase l ≡ true) (sym (parts_lowered text s exact))
        (contains-append (map lower s.before) phrase (map lower s.after)),
)
  where
    parts_lowered :
        (text : List ℕ) (s : Says text phrase)
        → map lower s.said ≡ phrase
        → map lower text ≡ map lower s.before ++ (phrase ++ map lower s.after)
    parts_lowered text s exact =
        ap (map lower) s.split
        ∙ (map-append lower s.before (s.said ++ s.after)
            ∙ ap (λ l. map lower s.before ++ l)
                (map-append lower s.said s.after ∙ ap (λ l. l ++ map lower s.after) exact))
