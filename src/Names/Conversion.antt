-- ===== src/Names/Conversion.antt =====
-- The names that `to_command_name` makes, and the validation that they meet.
use aspect_cli.Base.{
  ℕ, ◌≡◌, refl, sym, ap, subst, ◌∙◌, ◌↔◌, Bool, true, false, not, ◌||◌, none, some, List, [], ◌∷◌,
  arith, ◌==◌, is_empty, All, All-append, append-nil, keep, Text, text, is_lower, is_upper, all,
  first_is, Bool-cases, inl, inr, to_lower, split, split_add, eqb→eq, contains_char,
}
use aspect_cli.Names.{
  valid, invalid, is_alphanumeric, starts_word, words_from, camel_to_kebab_words, join, flat_map,
  to_command_name, validate_command_name, validate_type_name, validate_with, wrong_first,
}
use aspect_cli.Names.Grammar.{front_of, validate_command_name-join}
use aspect_cli.Names.Spelling.{IsWord, validate_command_name-spells, validate_chars_iff}
use aspect_cli.Names.Words.{words_from-IsWord, words_from-front, keep_words}

-- letters, digits and underscores
abbrev pub is_identifier_char : ℕ → Bool
is_identifier_char c = is_alphanumeric c || c == b'_'

abbrev IsPiece : Text → Type 0
IsPiece l = all is_alphanumeric l ≡ true

pieces-All : (s : Text) → all is_identifier_char s ≡ true → All IsPiece (split b'_' s)
unfolding split
pieces-All [] h = (refl, tt)
pieces-All (c ∷ s) h = added (c == b'_') (split b'_' s) refl (pieces-All s (ground arith))
  where
    added :
        (b : Bool) (pieces : List Text)
        → (c == b'_') ≡ b
        → All IsPiece pieces
        → All IsPiece (split_add b c pieces)
    added true pieces e k = (refl, k)
    added false [] e k = (ground arith, tt)
    added false (l ∷ pieces) e (k, ks) =
        let first : is_alphanumeric c ≡ true = ground arith in (rw first k, ks)

flat_map-words :
    (pieces : List Text) → All IsPiece pieces → All IsWord (flat_map camel_to_kebab_words pieces)
unfolding camel_to_kebab_words
flat_map-words [] h = tt
flat_map-words (l ∷ pieces) (h, hs) =
    All-append IsWord (words_from none [] l) (flat_map camel_to_kebab_words pieces)
      (words_from-IsWord none [] l refl h) (flat_map-words pieces hs)

to_command_name-words :
    (v : Text)
    → all is_identifier_char v ≡ true
    → (words : List Text) × All IsWord words × (to_command_name v ≡ join (text "-") words)
unfolding to_command_name
to_command_name-words v h =
    let words = flat_map camel_to_kebab_words (split b'_' v) in
    let good = flat_map-words (split b'_' v) (pieces-All v h) in
    (words, good, ap (join (text "-")) (keep_words words good))

joined_iff :
    (words : List Text)
    → All IsWord words
    → (validate_command_name (join (text "-") words) ≡ valid)
      ↔ (first_is is_lower (join (text "-") words) ≡ true)
joined_iff [] h = unfold join validate_command_name validate_with in (λ k. cc, λ k. cc)
joined_iff ([] ∷ words) ((any, ws), hs) = cc
joined_iff ((d ∷ w) ∷ words) h =
    let (rest, e) = front_of d w words in
    (
      λ k.
          let (letter, read) =
            (validate_command_name-spells d rest).0
              (subst (λ t. validate_command_name t ≡ valid) e k) in
          ap (first_is is_lower) e ∙ letter,
      λ k. validate_command_name-join (d ∷ w) words h (sym (ap (first_is is_lower) e) ∙ k),
    )

-- The command name that is made of a variable, a text of letters, digits and underscores, is accepted
-- exactly if it begins with a letter.
pub validate_command_name-to_command_name :
    (v : Text)
    → all is_identifier_char v ≡ true
    → (validate_command_name (to_command_name v) ≡ valid)
      ↔ (first_is is_lower (to_command_name v) ≡ true)
validate_command_name-to_command_name v h =
    let (words, good, e) = to_command_name-words v h in
    subst (λ t. (validate_command_name t ≡ valid) ↔ (first_is is_lower t ≡ true)) (sym e)
      (joined_iff words good)

no_underscore :
    (p : ℕ → Bool) (s : Text) → p b'_' ≡ false → all p s ≡ true → contains_char b'_' s ≡ false
unfolding contains_char
no_underscore p [] out h = refl
no_underscore p (c ∷ s) out h = elim (Bool-cases (c == b'_')) [
  | inl same ↦ let e = eqb→eq c b'_' same in let bad : p c ≡ false = ap p e ∙ out in ground arith
  | inr other ↦ rw other (no_underscore p s out (ground arith))
]

split_none : (s : Text) → contains_char b'_' s ≡ false → split b'_' s ≡ s ∷ []
unfolding split contains_char
split_none [] h = refl
split_none (c ∷ s) h =
    let other : (c == b'_') ≡ false = ground arith in rw (other, split_none s (ground arith)) refl

-- without an underscore, the words are those of the whole
pub to_command_name-whole :
    (p : ℕ → Bool) (v : Text)
    → p b'_' ≡ false
    → all p v ≡ true
    → to_command_name v ≡ join (text "-") (keep (λ w. not (is_empty w)) (camel_to_kebab_words v))
unfolding to_command_name
to_command_name-whole p v out h =
    let e = split_none v (no_underscore p v out h) in
    ap
      (λ pieces.
        join (text "-") (keep (λ w. not (is_empty w)) (flat_map camel_to_kebab_words pieces)))
      e
    ∙ ap (λ words. join (text "-") (keep (λ w. not (is_empty w)) words))
        (append-nil (camel_to_kebab_words v))

type_name-chars :
    (c : ℕ) (s : Text)
    → validate_type_name (c ∷ s) ≡ valid
    → (is_upper c ≡ true) × (all is_alphanumeric s ≡ true)
unfolding validate_type_name validate_with
type_name-chars c s h = elim (Bool-cases (is_upper c)) [
  | inl capital ↦ (capital, (validate_chars_iff is_alphanumeric s).0 (rw capital at h))
  | inr other ↦ let bad : invalid wrong_first ≡ valid = rw other at h in cc
]

lowered : (c : ℕ) → is_upper c ≡ true → is_lower (to_lower c) ≡ true
unfolding to_lower
lowered c h = ground arith

identifier : (s : Text) → all is_alphanumeric s ≡ true → all is_identifier_char s ≡ true
identifier [] h = refl
identifier (c ∷ s) h =
    let first : is_identifier_char c ≡ true = ground arith in rw first (identifier s (ground arith))

first_capital :
    (c : ℕ) (s : Text)
    → is_upper c ≡ true
    → camel_to_kebab_words (c ∷ s) ≡ words_from (some c) (c ∷ []) s
unfolding camel_to_kebab_words words_from starts_word
first_capital c s capital = rw capital refl

-- The name of a type, such as a feature, gives the name of a command: what `export_as` derives from an
-- accepted variable is accepted where the name is given by hand.
pub to_command_name-IsValid :
    (v : Text) → validate_type_name v ≡ valid → validate_command_name (to_command_name v) ≡ valid
to_command_name-IsValid [] h = unfold validate_type_name validate_with in cc
to_command_name-IsValid (c ∷ s) h =
    let (capital, later) = type_name-chars c s h in
    let first : is_alphanumeric c ≡ true = ground arith in
    let chars : all is_alphanumeric (c ∷ s) ≡ true = rw first later in
    let (w, ws, e) = words_from-front (some c) c [] s in
    let split_at : camel_to_kebab_words (c ∷ s) ≡ (to_lower c ∷ w) ∷ ws =
      first_capital c s capital ∙ e in
    let words : All IsWord (camel_to_kebab_words (c ∷ s)) =
      unfold camel_to_kebab_words in words_from-IsWord none [] (c ∷ s) refl chars in
    let whole =
      to_command_name-whole is_alphanumeric (c ∷ s) refl chars
      ∙ ap (join (text "-")) (keep_words (camel_to_kebab_words (c ∷ s)) words ∙ split_at) in
    let (rest, f) = front_of (to_lower c) w ws in
    (validate_command_name-to_command_name (c ∷ s) (identifier (c ∷ s) chars)).1
      (ap (first_is is_lower) (whole ∙ f) ∙ lowered c capital)
