-- ===== src/Names/Fixed.antt =====
-- `to_command_name` on the names of commands.
use aspect_cli.Base.{
  ℕ, ◌≡◌, refl, sym, ap, ◌∙◌, Bool, true, false, not, ◌&&◌, ◌||◌, Option, some, [], ◌∷◌, ◌++◌,
  arith, ◌==◌, is_empty, append-nil, append_assoc, map, keep, Text, text, is_upper, all, Bool-cases,
  inl, inr, to_lower,
}
use aspect_cli.Names.{
  valid, invalid, is_word_char, starts_word, words_from, camel_to_kebab_words, join,
  to_command_name, validate_command_name, validate_with, name_empty,
}
use aspect_cli.Names.Spelling.{spells, validate_command_name-spells}
use aspect_cli.Names.Conversion.{to_command_name-whole}

abbrev is_small : ℕ → Bool
is_small c = is_word_char c || c == b'-'

spells-small : (begun : Bool) (s : Text) → spells begun s ≡ true → all is_small s ≡ true
spells-small begun [] h = refl
spells-small begun (c ∷ s) h = elim (Bool-cases (c == b'-')) [
  | inl dash ↦
      let read : spells false s ≡ true = rest begun (spells false s) (rw dash at h) in
      rw dash (later (is_word_char c) (spells-small false s read))
  | inr plain ↦
      let (word, read) = both (is_word_char c) (spells true s) (rw plain at h) in
      rw word (spells-small true s read)
]
  where
    rest : (a b : Bool) → (a && b) ≡ true → b ≡ true
    rest a b e = ground arith

    both : (a b : Bool) → (a && b) ≡ true → (a ≡ true) × (b ≡ true)
    both a b e = (ground arith, ground arith)

    later : (a : Bool) → all is_small s ≡ true → ((a || true) && all is_small s) ≡ true
    later a e = ground arith

small : (c : ℕ) → is_small c ≡ true → (is_upper c ≡ false) × (to_lower c ≡ c)
unfolding to_lower
small c h = (ground arith, ground arith)

map_small : (s : Text) → all is_small s ≡ true → map to_lower s ≡ s
map_small [] h = refl
map_small (c ∷ s) h =
    let (plain, same) = small c (ground arith) in
    let rest = map_small s (ground arith) in rw (same, rest) refl

words_from-small :
    (prev : Option ℕ) (d : ℕ) (current s : Text)
    → all is_small s ≡ true
    → words_from prev (d ∷ current) s ≡ map to_lower ((d ∷ current) ++ s) ∷ []
unfolding words_from
words_from-small prev d current [] h =
    ap (λ t. map to_lower t ∷ []) (sym (append-nil (d ∷ current)))
words_from-small prev d current (c ∷ s) h =
    let (plain, same) = small c (ground arith) in
    let later : all is_small s ≡ true = ground arith in
    rw plain (
      words_from-small (some c) d (current ++ c ∷ []) s later
      ∙ ap (λ t. map to_lower t ∷ []) (append_assoc (d ∷ current) (c ∷ []) s))

camel_to_kebab_words-small :
    (c : ℕ) (s : Text) → all is_small (c ∷ s) ≡ true → camel_to_kebab_words (c ∷ s) ≡ (c ∷ s) ∷ []
unfolding camel_to_kebab_words words_from starts_word
camel_to_kebab_words-small c s h =
    let (plain, same) = small c (ground arith) in
    let later : all is_small s ≡ true = ground arith in
    rw plain (words_from-small (some c) c [] s later ∙ ap (λ t. t ∷ []) (map_small (c ∷ s) h))

-- A valid command name is its own command name.
pub to_command_name-validate_command_name :
    (name : Text) → validate_command_name name ≡ valid → to_command_name name ≡ name
to_command_name-validate_command_name [] h =
    let bad : invalid name_empty ≡ valid = unfold validate_command_name validate_with in h in cc
to_command_name-validate_command_name (c ∷ s) h =
    let (letter, read) = (validate_command_name-spells c s).0 h in
    let first : is_small c ≡ true = ground arith in
    let chars : all is_small (c ∷ s) ≡ true = rw first (spells-small true s read) in
    to_command_name-whole is_small (c ∷ s) refl chars
    ∙ ap (λ words. join (text "-") (keep (λ w. not (is_empty w)) words))
        (camel_to_kebab_words-small c s chars)
    ∙ (unfold join in refl)
