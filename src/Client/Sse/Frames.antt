-- ===== src/Client/Sse/Frames.antt =====
-- Reading the events that a server writes, line by line.
use mathlib.Core.List.{append-nil, append_assoc}
use mcp_module.Common.{
  ℕ, ◌+◌, ◌<◌, ◌≤◌, true, false, List, [], ◌∷◌, ◌++◌, length, All, ltb, nat_eq, ◌≡◌, ◌≢◌, refl, sym,
  ap, ◌∙◌, arith, length-append,
}
use mcp_module.Client.Sse.{max_token, drop_cr, scan_lines}

-- A text of one line.
abbrev pub IsLine : List ℕ → Type 0
IsLine line = All (λ c. (c ≢ b'\n') × (c ≢ b'\r')) line

pub All-append {ℓ κ} :
    {A : Type ℓ} (P : A → Type κ) (xs ys : List A) → All P xs → All P ys → All P (xs ++ ys)
All-append P [] ys _ hs = hs
All-append P (x ∷ xs) ys (h, hs) ks = (h, All-append P xs ys hs ks)

drop_cr-IsLine : (line : List ℕ) → IsLine line → drop_cr line ≡ line
unfolding drop_cr
drop_cr-IsLine [] _ = refl
drop_cr-IsLine (c ∷ []) (h, _) = ground arith
drop_cr-IsLine (c ∷ d ∷ line) (h, hs) = ap (λ l. c ∷ l) (drop_cr-IsLine (d ∷ line) hs)

scan_end :
    (start rest : List ℕ)
    → IsLine start
    → length start < max_token
    → scan_lines start (b'\n' ∷ rest) ≡ start ∷ scan_lines [] rest
unfolding scan_lines
scan_end start rest h short =
    let fits : ltb (length start) max_token ≡ true = ground arith in
    rw (fits, drop_cr-IsLine start h) refl

-- A line that is short enough is scanned as it is.
pub scan_line :
    (line start rest : List ℕ)
    → IsLine line
    → IsLine start
    → length start + length line < max_token
    → scan_lines start (line ++ b'\n' ∷ rest) ≡ (start ++ line) ∷ scan_lines [] rest
unfolding scan_lines
scan_line [] start rest _ hs short =
    scan_end start rest hs (omega arith) ∙ ap (λ l. l ∷ scan_lines [] rest) (sym (append-nil start))
scan_line (c ∷ line) start rest (h, hl) hs short =
    let other : nat_eq c b'\n' ≡ false = ground (arith, h.0) in
    rw (other, scan_lines)
      (scan_line line (start ++ c ∷ []) rest hl (All-append _ start (c ∷ []) hs (h, tt))
          (omega (arith, length-append start (c ∷ [])))
        ∙ ap (λ l. l ∷ scan_lines [] rest) (append_assoc start (c ∷ []) line))

-- A line that is too long ends the scan, whatever follows.
pub scan_too_long :
    (line start rest : List ℕ)
    → IsLine line
    → max_token ≤ length start + length line
    → scan_lines start (line ++ b'\n' ∷ rest) ≡ []
unfolding scan_lines
scan_too_long [] start rest _ long =
    let over : ltb (length start) max_token ≡ false = ground arith in rw over refl
scan_too_long (c ∷ line) start rest (h, hl) long =
    let other : nat_eq c b'\n' ≡ false = ground (arith, h.0) in
    rw (other, scan_lines)
      (scan_too_long line (start ++ c ∷ []) rest hl (omega (arith, length-append start (c ∷ []))))
