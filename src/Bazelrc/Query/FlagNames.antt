-- ===== src/Bazelrc/Query/FlagNames.antt =====
-- The names of flags that begin with a dash, and how they stand in a text behind which `=` comes.
use aspect_cli.Base.{
  ℕ, ◌≡◌, refl, ap, inl, inr, Bool, true, false, Option, none, some, [], ◌∷◌, ◌++◌, arith,
  Bool-cases, Text, text_eq, text_eq→eq, strip_prefix, starts_with_char, contains_char,
}

-- a name such as `--jobs`: it begins with a dash and holds no `=`
pub record IsFlagName (name : Text) : Type 0 where
  pub dashed : starts_with_char b'-' name ≡ true
  pub plain : contains_char b'=' name ≡ false

pub strip_prefix-plain :
    (name value rest : Text)
    → contains_char b'=' value ≡ false
    → strip_prefix (name ++ b'=' ∷ rest) value ≡ none
unfolding strip_prefix contains_char
strip_prefix-plain [] [] rest h = refl
strip_prefix-plain [] (c ∷ value) rest h = ground arith
strip_prefix-plain (d ∷ name) [] rest h = refl
strip_prefix-plain (d ∷ name) (c ∷ value) rest h =
    ground (arith, strip_prefix-plain name value rest)

abbrev pub value_if : Bool → Text → Option Text
value_if true v = some v
value_if false v = none

pub strip_prefix-folded :
    (name flag v : Text)
    → contains_char b'=' name ≡ false
    → contains_char b'=' flag ≡ false
    → strip_prefix (name ++ b'=' ∷ []) (flag ++ b'=' ∷ v) ≡ value_if (text_eq flag name) v
unfolding strip_prefix contains_char text_eq
strip_prefix-folded [] [] v h k = refl
strip_prefix-folded [] (c ∷ flag) v h k = ground arith
strip_prefix-folded (d ∷ name) [] v h k = ground arith
strip_prefix-folded (d ∷ name) (c ∷ flag) v h k = ground (arith, strip_prefix-folded name flag v)

pub strip_prefix-undashed :
    (name value rest : Text)
    → starts_with_char b'-' name ≡ true
    → starts_with_char b'-' value ≡ false
    → strip_prefix (name ++ rest) value ≡ none
unfolding strip_prefix starts_with_char
strip_prefix-undashed [] value rest h k = cc
strip_prefix-undashed (d ∷ name) [] rest h k = refl
strip_prefix-undashed (d ∷ name) (c ∷ value) rest h k = ground arith

pub contains_folded : (flag v : Text) → contains_char b'=' (flag ++ b'=' ∷ v) ≡ true
unfolding contains_char
contains_folded [] v = refl
contains_folded (c ∷ flag) v = ground (arith, contains_folded flag v)

pub starts_with_char-append :
    (c : ℕ) (s t : Text) → starts_with_char c s ≡ true → starts_with_char c (s ++ t) ≡ true
unfolding starts_with_char
starts_with_char-append c [] t h = cc
starts_with_char-append c (d ∷ s) t h = h

pub text_eq-dash :
    (value name : Text)
    → starts_with_char b'-' value ≡ false
    → starts_with_char b'-' name ≡ true
    → text_eq value name ≡ false
unfolding text_eq starts_with_char
text_eq-dash [] [] h k = cc
text_eq-dash [] (d ∷ name) h k = refl
text_eq-dash (c ∷ value) [] h k = refl
text_eq-dash (c ∷ value) (d ∷ name) h k = ground arith

pub text_eq-plain :
    (value name : Text)
    → contains_char b'=' value ≡ true
    → contains_char b'=' name ≡ false
    → text_eq value name ≡ false
text_eq-plain value name h k = elim (Bool-cases (text_eq value name)) [
  | inl same ↦ let e = text_eq→eq value name same in cc (ap (contains_char b'=') e)
  | inr other ↦ other
]
