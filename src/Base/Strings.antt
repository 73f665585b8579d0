-- ===== src/Base/Strings.antt =====
-- Rust's `str` and `String` as lists of code points, and the methods of `str` that the program calls.
use Prim.Native.Nat.{ℕ, ◌+◌}
use Prim.Native.Char.{code}
use Prim.Native.String.{String}
use mathlib.Core.Path.{◌≡◌, refl, ap}
use mathlib.Core.Logic.{◌↔◌, ◌⊎◌, inl, inr}
use mathlib.Core.Bool.{Bool, true, false, ◌&&◌, ◌||◌}
use mathlib.Core.Option
use mathlib.Core.Option.{Option, none, some}
use mathlib.Core.List.{List, [], ◌∷◌, ◌++◌}
use native.Mathlib.Omega.{arith}
use aspect_cli.Base.Tests.{if◌then◌else◌, ◌==◌, leb, Bool-cases, eqb→eq}
use aspect_cli.Base.Lists.{is_empty}

abbrev pub Text : Type 0
Text = List ℕ

abbrev pub text : String → Text
text String.[] = []
text (String.◌∷◌ c s) = code c ∷ text s

-- `==` on strings
unfoldable pub text_eq : Text → Text → Bool
text_eq [] [] = true
text_eq [] (d ∷ t) = false
text_eq (c ∷ s) [] = false
text_eq (c ∷ s) (d ∷ t) = c == d && text_eq s t

pub text_eq→eq : (s t : Text) → text_eq s t ≡ true → s ≡ t
unfolding text_eq
text_eq→eq [] [] h = refl
text_eq→eq [] (d ∷ t) h = cc
text_eq→eq (c ∷ s) [] h = cc
text_eq→eq (c ∷ s) (d ∷ t) h = ground (arith, text_eq→eq s t)

pub text_eq_refl : (s : Text) → text_eq s s ≡ true
unfolding text_eq
text_eq_refl [] = refl
text_eq_refl (c ∷ s) = ground (arith, text_eq_refl s)

pub text_eq_iff : (s t : Text) → (text_eq s t ≡ true) ↔ (s ≡ t)
text_eq_iff s t = (text_eq→eq s t, λ e. rw e (text_eq_refl t))

-- `strip_prefix`, with the prefix first
unfoldable pub strip_prefix : Text → Text → Option Text
strip_prefix [] s = some s
strip_prefix (p ∷ ps) [] = none
strip_prefix (p ∷ ps) (c ∷ s) = let rest = strip_prefix ps s in if p == c then rest else none

pub strip_prefix-append : (p s : Text) → strip_prefix p (p ++ s) ≡ some s
unfolding strip_prefix
strip_prefix-append [] s = refl
strip_prefix-append (c ∷ p) s = ground (arith, strip_prefix-append p s)

pub strip_prefix→eq : (p s r : Text) → strip_prefix p s ≡ some r → s ≡ p ++ r
unfolding strip_prefix
strip_prefix→eq [] s r h = ground arith
strip_prefix→eq (c ∷ p) [] r h = cc
strip_prefix→eq (c ∷ p) (d ∷ s) r h = ground (arith, strip_prefix→eq p s r)

-- `starts_with` on a string, with the prefix first
unfoldable pub starts_with : Text → Text → Bool
starts_with [] s = true
starts_with (p ∷ ps) [] = false
starts_with (p ∷ ps) (c ∷ s) = p == c && starts_with ps s

-- `starts_with` on a character
unfoldable pub starts_with_char : ℕ → Text → Bool
starts_with_char c [] = false
starts_with_char c (d ∷ s) = d == c

-- `ends_with` on a character
unfoldable pub ends_with_char : ℕ → Text → Bool
ends_with_char c [] = false
ends_with_char c (d ∷ s) = if is_empty s then d == c else ends_with_char c s

-- `contains` on a character
unfoldable pub contains_char : ℕ → Text → Bool
contains_char c [] = false
contains_char c (d ∷ s) = d == c || contains_char c s

pub contains_char-append :
    (c : ℕ) (s t : Text) → contains_char c (s ++ t) ≡ (contains_char c s || contains_char c t)
unfolding contains_char
contains_char-append c [] t = refl
contains_char-append c (d ∷ s) t = ground (arith, contains_char-append c s t)

-- puts a character in front of the first part
abbrev grow_first : ℕ → Option (Text × Text) → Option (Text × Text)
grow_first d none = none
grow_first d (some (a, b)) = some (d ∷ a, b)

-- `split_once` on a character: the parts before and after its first occurrence
unfoldable pub split_once : ℕ → Text → Option (Text × Text)
split_once c [] = none
split_once c (d ∷ s) =
    let rest = grow_first d (split_once c s) in if d == c then some ([], s) else rest

-- the part before the first `c`, or all: the first item of `split(c)`
unfoldable pub before_char : ℕ → Text → Text
before_char c [] = []
before_char c (d ∷ s) = let rest = before_char c s in if d == c then [] else d ∷ rest

-- `trim_start_matches` on a predicate
unfoldable pub trim_start : (ℕ → Bool) → Text → Text
trim_start p [] = []
trim_start p (c ∷ s) = let rest = trim_start p s in if p c then rest else c ∷ s

-- `trim_end_matches` on a predicate: a matching character stays only before one that stays
unfoldable pub trim_end : (ℕ → Bool) → Text → Text
trim_end p [] = []
trim_end p (c ∷ s) = let rest = trim_end p s in if p c && is_empty rest then [] else c ∷ rest

-- `trim_matches`
unfoldable pub trim_matches : (ℕ → Bool) → Text → Text
unfolding trim_start trim_end
trim_matches p s = trim_end p (trim_start p s)

-- `char::is_whitespace`: the Unicode property White_Space
unfoldable pub is_whitespace : ℕ → Bool
is_whitespace c =
    (leb 9 c && leb c 13)
    || c == 32
    || c == 0x85
    || c == 0xa0
    || c == 0x1680
    || (leb 0x2000 c && leb c 0x200a)
    || c == 0x2028
    || c == 0x2029
    || c == 0x202f
    || c == 0x205f
    || c == 0x3000

-- `trim`
unfoldable pub trim : Text → Text
unfolding trim_matches is_whitespace
trim s = trim_matches is_whitespace s

-- `to_ascii_lowercase` on a character
unfoldable pub to_lower : ℕ → ℕ
to_lower c = if leb b'A' c && leb c b'Z' then c + 32 else c

-- one more character in front of the pieces; the flag tells a separator
abbrev pub split_add : Bool → ℕ → List Text → List Text
split_add true d pieces = [] ∷ pieces
split_add false d [] = (d ∷ []) ∷ []
split_add false d (l ∷ pieces) = (d ∷ l) ∷ pieces

-- `split` on a character: never empty
unfoldable pub split : ℕ → Text → List Text
split c [] = [] ∷ []
split c (d ∷ s) = split_add (d == c) d (split c s)

-- `eq_ignore_ascii_case`
unfoldable pub eq_ignore_case : Text → Text → Bool
eq_ignore_case [] [] = true
eq_ignore_case [] (d ∷ t) = false
eq_ignore_case (c ∷ s) [] = false
eq_ignore_case (c ∷ s) (d ∷ t) = to_lower c == to_lower d && eq_ignore_case s t

-- `find` on a character
unfoldable pub find_char : ℕ → Text → Option ℕ
find_char c [] = none
find_char c (d ∷ s) =
    let rest = Option.map (λ i. i + 1) (find_char c s) in if d == c then some 0 else rest

-- A text is cut at the first `c`, and nowhere before.
pub split_once-append :
    (c : ℕ) (s t : Text) → contains_char c s ≡ false → split_once c (s ++ c ∷ t) ≡ some (s, t)
unfolding split_once contains_char
split_once-append c [] t h = ground arith
split_once-append c (d ∷ s) t h = ground (arith, split_once-append c s t)

-- A text has no `c`, or it is cut at the first.
pub split_once_cases :
    (c : ℕ) (s : Text)
    → ((split_once c s ≡ none) × (contains_char c s ≡ false))
      ⊎ ((a : Text) × (b : Text) × (s ≡ a ++ c ∷ b) × (contains_char c a ≡ false))
unfolding split_once contains_char
split_once_cases c [] = inl (refl, refl)
split_once_cases c (d ∷ s) = elim (Bool-cases (d == c)) [
  | inl same ↦ inr ([], s, ap (λ x. x ∷ s) (eqb→eq d c same), refl)
  | inr other ↦ elim (split_once_cases c s) [
    | inl (h, k) ↦ inl (rw (other, h) refl, rw (other, k) refl)
    | inr (a, b, e, k) ↦ inr (d ∷ a, b, ap (◌∷◌ d) e, rw (other, k) refl)
  ]
]

-- ASCII letters and digits
abbrev pub is_upper : ℕ → Bool
is_upper c = leb b'A' c && leb c b'Z'

abbrev pub is_lower : ℕ → Bool
is_lower c = leb b'a' c && leb c b'z'

abbrev pub is_digit : ℕ → Bool
is_digit c = leb b'0' c && leb c b'9'

-- a test of each character
abbrev pub all : (ℕ → Bool) → Text → Bool
all p [] = true
all p (c ∷ s) = p c && all p s

-- a test of the last character; a text without any fails
abbrev pub last_is : (ℕ → Bool) → Text → Bool
last_is p [] = false
last_is p (c ∷ []) = p c
last_is p (c ∷ d ∷ s) = last_is p (d ∷ s)

-- a test of the first character; a text without any fails
abbrev pub first_is : (ℕ → Bool) → Text → Bool
first_is p [] = false
first_is p (c ∷ s) = p c
