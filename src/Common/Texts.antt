-- ===== src/Common/Texts.antt =====
-- Text as the code points of its characters, where the program walks it.
use Prim.Native.Nat.{ℕ}
use Prim.Native.Char.{code}
use Prim.Native.String.{String}
use mathlib.Core.Path.{◌≡◌, refl}
use mathlib.Core.Bool.{Bool, true, false, ◌&&◌, ◌||◌}
use mathlib.Core.Option.{Option, none, some}
use mathlib.Core.List.{List, [], ◌∷◌, ◌++◌}
use native.Mathlib.Omega.{arith}
use mcp_module.Common.Tests.{nat_eq, if◌then◌else◌}

abbrev pub codes : String → List ℕ
codes String.[] = []
codes (String.◌∷◌ c s) = code c ∷ codes s

-- strings.HasPrefix and strings.TrimPrefix together: what follows the prefix, if the text has it.
unfoldable pub strip_prefix : List ℕ → List ℕ → Option (List ℕ)
strip_prefix [] text = some text
strip_prefix (p ∷ prefix) [] = none
strip_prefix (p ∷ prefix) (c ∷ text) = if nat_eq p c then strip_prefix prefix text else none

pub strip_prefix-append : (prefix text : List ℕ) → strip_prefix prefix (prefix ++ text) ≡ some text
unfolding strip_prefix
strip_prefix-append [] text = refl
strip_prefix-append (p ∷ prefix) text = ground (arith, strip_prefix-append prefix text)

abbrev pub is_prefix : List ℕ → List ℕ → Bool
is_prefix [] text = true
is_prefix (p ∷ prefix) [] = false
is_prefix (p ∷ prefix) (c ∷ text) = nat_eq p c && is_prefix prefix text

-- bytes.Contains.
unfoldable pub contains : List ℕ → List ℕ → Bool
contains sub [] = is_prefix sub []
contains sub (c ∷ text) = is_prefix sub (c ∷ text) || contains sub text

is_prefix-append : (sub after : List ℕ) → is_prefix sub (sub ++ after) ≡ true
is_prefix-append [] after = refl
is_prefix-append (c ∷ sub) after = ground (arith, is_prefix-append sub after)

contains-prefix : (sub after : List ℕ) → contains sub (sub ++ after) ≡ true
unfolding contains
contains-prefix [] [] = refl
contains-prefix [] (c ∷ after) = refl
contains-prefix (c ∷ sub) after = rw (is_prefix-append (c ∷ sub) after) refl

pub contains-append : (before sub after : List ℕ) → contains sub (before ++ (sub ++ after)) ≡ true
unfolding contains
contains-append [] sub after = contains-prefix sub after
contains-append (c ∷ before) sub after = ground (arith, contains-append before sub after)

pub contains-nothing : (text : List ℕ) → contains [] text ≡ true
unfolding contains
contains-nothing [] = refl
contains-nothing (c ∷ text) = refl
