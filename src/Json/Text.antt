-- ===== src/Json/Text.antt =====
-- encoding/json: the text that json.Marshal writes for a document. Strings are lists of code points;
-- the digits of a number are the runtime's.
use mathlib.Core.List.{append_assoc}
use mcp_module.Common.{
  contains, contains-append, ◌∙◌, ◌-◌, ℕ, ◌+◌, ◌/◌, ◌%◌, String, Bool, true, false, List, [], ◌∷◌,
  ◌++◌, All, codes, ltb, nat_eq, if◌then◌else◌, ◌||◌, ◌≡◌, refl, ap,
}
use mcp_module.Common.Int.{ℤ}
use mcp_module.Json.{
  Float64, Value, null, bool, int, float, str, arr, obj, Items, nil, cons, Members, end, member,
}

pub record Digits : Type 0 where
  pub of_int : ℤ → List ℕ
  pub of_float : Float64 → List ℕ

abbrev hex_digit : ℕ → ℕ
hex_digit n = if ltb n 10 then b'0' + n else b'a' + (n - 10)

-- `\u` and four digits.
abbrev unicode : ℕ → List ℕ
unicode c =
    b'\\'
    ∷ b'u'
    ∷ hex_digit (c / 4096 % 16)
    ∷ hex_digit (c / 256 % 16)
    ∷ hex_digit (c / 16 % 16)
    ∷ hex_digit (c % 16)
    ∷ []

-- The letters of HTML are escaped too, and the two line separators of Unicode.
unfoldable pub is_escaped : ℕ → Bool
is_escaped c =
    ltb c 32
    || nat_eq c b'"'
    || nat_eq c b'\\'
    || nat_eq c b'<'
    || nat_eq c b'>'
    || nat_eq c b'&'
    || nat_eq c 0x2028
    || nat_eq c 0x2029

unfoldable pub escape : ℕ → List ℕ
escape c =
    if nat_eq c b'"' || nat_eq c b'\\'
    then b'\\' ∷ c ∷ []
    else if nat_eq c 8
    then codes "\\b"
    else if nat_eq c 12
    then codes "\\f"
    else if nat_eq c b'\n'
    then codes "\\n"
    else if nat_eq c b'\r'
    then codes "\\r"
    else if nat_eq c b'\t'
    then codes "\\t"
    else unicode c

unfoldable pub quoted : List ℕ → List ℕ
unfolding is_escaped escape
quoted [] = b'"' ∷ []
quoted (c ∷ cs) = if is_escaped c then escape c ++ quoted cs else c ∷ quoted cs

abbrev pub string_text : String → List ℕ
string_text s = b'"' ∷ quoted (codes s)

-- No spaces; a comma between elements.
module _ (digits : Digits) where
  unfoldable mutual
    pub render : Value → List ℕ
    render null = codes "null"
    render (bool b) = if b then codes "true" else codes "false"
    render (int z) = digits.of_int z
    render (float x) = digits.of_float x
    render (str s) = string_text s
    render (arr vs) = b'[' ∷ (render_items vs ++ b']' ∷ [])
    render (obj fs) = b'{' ∷ (render_members fs ++ b'}' ∷ [])

    pub render_items : Items → List ℕ
    render_items nil = []
    render_items (cons v nil) = render v
    render_items (cons v (cons w vs)) = render v ++ b',' ∷ render_items (cons w vs)

    pub render_members : Members → List ℕ
    render_members end = []
    render_members (member k v end) = string_text k ++ b':' ∷ render v
    render_members (member k v (member j w fs)) =
        string_text k ++ b':' ∷ (render v ++ b',' ∷ render_members (member j w fs))

-- A string of whose characters none is escaped.
abbrev pub IsPlain : String → Type 0
IsPlain s = All (λ c. is_escaped c ≡ false) (codes s)

quoted-IsPlain : (cs : List ℕ) → All (λ c. is_escaped c ≡ false) cs → quoted cs ≡ cs ++ b'"' ∷ []
unfolding quoted
quoted-IsPlain [] _ = refl
quoted-IsPlain (c ∷ cs) (h, hs) = rw h (ap (λ l. c ∷ l) (quoted-IsPlain cs hs))

-- The text has the characters of the string in a row.
pub record Shows (s : String) (text : List ℕ) : Type 0 where
  pub before : List ℕ
  pub after : List ℕ
  pub split : text ≡ before ++ (codes s ++ after)

-- A string that is a value in the document.
mutual
  pub data Mentions (s : String) : Value → Type 0 where
    itself : Mentions s (str s)
    in_array : {vs : Items} → MentionsItem s vs → Mentions s (arr vs)
    in_object : {fs : Members} → MentionsMember s fs → Mentions s (obj fs)

  pub data MentionsItem (s : String) : Items → Type 0 where
    first : {v : Value} {vs : Items} → Mentions s v → MentionsItem s (cons v vs)
    next : {v : Value} {vs : Items} → MentionsItem s vs → MentionsItem s (cons v vs)

  pub data MentionsMember (s : String) : Members → Type 0 where
    this : {k : String} {v : Value} {fs : Members} → Mentions s v → MentionsMember s (member k v fs)
    later :
        {k : String} {v : Value} {fs : Members}
        → MentionsMember s fs
        → MentionsMember s (member k v fs)

module _ (s : String) where
  within : (front text rest : List ℕ) → Shows s text → Shows s (front ++ (text ++ rest))
  within front text rest h = record {
    before = front ++ h.before;
    after = h.after ++ rest;
    split = rw h.split (simp append_assoc);
  }

  after_front : (front text : List ℕ) → Shows s text → Shows s (front ++ text)
  after_front front text h = record {
    before = front ++ h.before;
    after = h.after;
    split = rw h.split (simp append_assoc);
  }

module _ (digits : Digits) (s : String) where
  first_item :
      (v : Value) (vs : Items)
      → Shows s (render digits v)
      → Shows s (render_items digits (cons v vs))
  unfolding render_items
  first_item v nil h = h
  first_item v (cons w vs) h = within s [] _ _ h

  next_item :
      (v : Value) (vs : Items)
      → MentionsItem s vs
      → Shows s (render_items digits vs)
      → Shows s (render_items digits (cons v vs))
  unfolding render_items
  next_item v nil m h = elim m [ ]
  next_item v (cons w vs) m h = after_front s (render digits v) _ (after_front s (b',' ∷ []) _ h)

  this_member :
      (k : String) (v : Value) (fs : Members)
      → Shows s (render digits v)
      → Shows s (render_members digits (member k v fs))
  unfolding render_members
  this_member k v end h = after_front s (string_text k) _ (after_front s (b':' ∷ []) _ h)
  this_member k v (member j w fs) h = after_front s (string_text k) _ (within s (b':' ∷ []) _ _ h)

  later_member :
      (k : String) (v : Value) (fs : Members)
      → MentionsMember s fs
      → Shows s (render_members digits fs)
      → Shows s (render_members digits (member k v fs))
  unfolding render_members
  later_member k v end m h = elim m [ ]
  later_member k v (member j w fs) m h = after_front s (string_text k) _ (
      after_front s (b':' ∷ []) _
        (after_front s (render digits v) _ (after_front s (b',' ∷ []) _ h)))

module _ (digits : Digits) (s : String) (plain : IsPlain s) where
  string-Shows : Shows s (string_text s)
  string-Shows = record {
    before = b'"' ∷ [];
    after = b'"' ∷ [];
    split = ap (λ l. b'"' ∷ l) (quoted-IsPlain (codes s) plain);
  }

  mutual
    unfolding render

    pub render-Shows : {v : Value} → Mentions s v → Shows s (render digits v)
    render-Shows itself = string-Shows
    render-Shows (in_array m) = within s (b'[' ∷ []) _ (b']' ∷ []) (items-Shows m)
    render-Shows (in_object m) = within s (b'{' ∷ []) _ (b'}' ∷ []) (members-Shows m)

    items-Shows : {vs : Items} → MentionsItem s vs → Shows s (render_items digits vs)
    items-Shows (first m) = first_item digits s _ _ (render-Shows m)
    items-Shows (next m) = next_item digits s _ _ m (items-Shows m)

    members-Shows : {fs : Members} → MentionsMember s fs → Shows s (render_members digits fs)
    members-Shows (this m) = this_member digits s _ _ _ (render-Shows m)
    members-Shows (later m) = later_member digits s _ _ _ m (members-Shows m)

-- bytes.Contains finds the string in the text.
pub contains-render :
    (digits : Digits) (s : String) (v : Value)
    → IsPlain s
    → Mentions s v
    → contains (codes s) (render digits v) ≡ true
contains-render digits s v plain m =
    let h = render-Shows digits s plain m in
    ap (contains (codes s)) h.split ∙ contains-append h.before (codes s) h.after
