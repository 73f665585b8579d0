-- ===== src/Names/Spelling.antt =====
-- The checks of a command name read it from left to right.
use aspect_cli.Base.{
  ap, sym, ◌∙◌, ℕ, ◌≡◌, refl, ◌↔◌, Bool, true, false, not, ◌&&◌, ◌||◌, List, [], ◌∷◌, arith, ◌==◌,
  if◌then◌else◌, is_empty, All, Text, text, is_lower, all, last_is, first_is, Bool-cases, inl, ap,
  sym, inr,
}
use aspect_cli.Names.{
  valid, is_word_char, validate_chars, has_dashes, join, validate_command_name, validate_with,
  invalid, wrong_first, Validity, and_then, trailing_dash, consecutive_dashes,
}

abbrev pub IsWord : Text → Type 0
IsWord w = (is_empty w ≡ false) × (all is_word_char w ≡ true)

-- words with a dash between each two, the first of which begins with a letter
abbrev pub IsCommandName : Text → Type 0
IsCommandName name =
    (word : Text) × (words : List Text) × (name ≡ join (text "-") (word ∷ words))
    × All IsWord (word ∷ words)
    × (first_is is_lower word ≡ true)

-- reads words and dashes; the flag tells that a word has begun
abbrev pub spells : Bool → Text → Bool
spells begun [] = begun
spells begun (c ∷ s) =
    if c == b'-' then begun && spells false s else is_word_char c && spells true s

abbrev allowed : ℕ → Bool
allowed c = is_word_char c || c == b'-'

abbrev is_dash : ℕ → Bool
is_dash c = c == b'-'

pub validate_chars_iff : (p : ℕ → Bool) (s : Text) → (validate_chars p s ≡ valid) ↔ (all p s ≡ true)
unfolding validate_chars
validate_chars_iff p [] = (λ h. refl, λ h. refl)
validate_chars_iff p (c ∷ s) = ground (arith, validate_chars_iff p s)

begun_by :
    (dash : Bool) (s : Text)
    → spells (not dash) s ≡ (if dash then spells false s else spells true s)
begun_by true s = refl
begun_by false s = refl

-- one character more, by what the tests say of it and of the rest
one_more :
    (word dash before rest last double begun new : Bool)
    → (rest && not last && not double) ≡ (if dash then new else begun)
    → (((word || dash) && rest) && not last && not ((before && dash) || double))
      ≡ (if dash then not before && new else word && begun)
one_more word true true rest last double begun new h = ground arith
one_more word true false rest last double begun new h = ground arith
one_more true false before rest last double begun new h = ground arith
one_more false false before rest last double begun new h = ground arith

-- the three checks behind a character are the reading of the rest
checks_are_spells :
    (c : ℕ) (s : Text)
    → (all allowed s && not (last_is is_dash (c ∷ s)) && not (has_dashes (c ∷ s)))
      ≡ spells (not (is_dash c)) s
unfolding has_dashes
checks_are_spells c [] = ground arith
checks_are_spells c (d ∷ s) =
    one_more (is_word_char d) (is_dash d) (is_dash c) (all allowed s) (last_is is_dash (d ∷ s))
      (has_dashes (d ∷ s)) (spells true s) (spells false s)
      (checks_are_spells d s ∙ begun_by (is_dash d) s)

pub lower_is_word : (c : ℕ) → is_lower c ≡ true → (is_word_char c ≡ true) × (is_dash c ≡ false)
lower_is_word c h = (ground arith, ground arith)

-- the checks of a name that begins with a letter
behind_letter :
    (c : ℕ) (s : Text)
    → is_lower c ≡ true
    → (validate_command_name (c ∷ s) ≡ valid)
      ↔ ((all allowed s && not (last_is is_dash (c ∷ s)) && not (has_dashes (c ∷ s))) ≡ true)
unfolding validate_command_name validate_with
behind_letter c s h = rw h (
    by_checks (all allowed s) (last_is is_dash (c ∷ s)) (has_dashes (c ∷ s))
      (validate_chars allowed s) (validate_chars_iff allowed s))
  where
    by_checks :
        (chars last double : Bool) (v : Validity)
        → (v ≡ valid) ↔ (chars ≡ true)
        → (and_then v (
              if last
              then invalid trailing_dash
              else if double
              then invalid consecutive_dashes
              else valid)
            ≡ valid)
          ↔ ((chars && not last && not double) ≡ true)
    by_checks chars last double valid e = ground arith
    by_checks chars last double (invalid x) e = ground arith

pub validate_command_name-spells :
    (c : ℕ) (s : Text)
    → (validate_command_name (c ∷ s) ≡ valid) ↔ ((is_lower c ≡ true) × (spells true s ≡ true))
validate_command_name-spells c s = elim (Bool-cases (is_lower c)) [
  | inl letter ↦
      let (word, no_dash) = lower_is_word c letter in
      let e = checks_are_spells c s ∙ ap (λ b. spells (not b) s) no_dash in
      let (there, back) = behind_letter c s letter in
      (λ h. (letter, sym e ∙ there h), λ h. back (e ∙ h.1))
  | inr other ↦ (λ h. absurd (not_first other h), λ h. let bad = sym other ∙ h.0 in cc)
]
  where
    not_first : is_lower c ≡ false → validate_command_name (c ∷ s) ≡ valid → ⊥
    not_first other h =
        let bad : invalid wrong_first ≡ valid =
          unfold validate_command_name validate_with in rw other at h in
        cc
