-- ===== src/Names/Grammar.antt =====
-- The form of a command name, as words between dashes.
use aspect_cli.Base.{
  append-nil, subst, ◌++◌, eqb→eq, ap, sym, ◌∙◌, split, split_add, ℕ, ◌≡◌, refl, ◌↔◌, Bool, true,
  false, not, ◌&&◌, ◌||◌, List, [], ◌∷◌, arith, ◌==◌, is_empty, All, Text, text, is_lower, all,
  first_is, Bool-cases, inl, eqb→eq, ap, sym, inr,
}
use aspect_cli.Names.{
  name_empty, valid, is_word_char, join, validate_command_name, validate_with, invalid,
}
use aspect_cli.Names.Spelling.{
  IsWord, IsCommandName, spells, lower_is_word, validate_command_name-spells,
}

-- what the pieces between the dashes are; the flag tells that the first may be empty
abbrev Pieces : Bool → List Text → Type 0
Pieces begun [] = ⊥
Pieces begun (l ∷ pieces) =
    ((begun || not (is_empty l)) ≡ true) × (all is_word_char l ≡ true) × All IsWord pieces

Pieces-add :
    (begun : Bool) (c : ℕ) (pieces : List Text)
    → is_word_char c ≡ true
    → Pieces true pieces
    → Pieces begun (split_add false c pieces)
Pieces-add begun c [] w h = absurd h
Pieces-add begun c (l ∷ pieces) w (h, ws, rest) = (ground arith, rw w ws, rest)

Pieces-cut : (pieces : List Text) → Pieces false pieces → Pieces true ([] ∷ pieces)
Pieces-cut [] h = absurd h
Pieces-cut (l ∷ pieces) (h, ws, rest) = (refl, refl, ((ground arith, ws), rest))

split-Pieces : (begun : Bool) (s : Text) → spells begun s ≡ true → Pieces begun (split b'-' s)
unfolding split
split-Pieces true [] h = (refl, refl, tt)
split-Pieces false [] h = cc
split-Pieces begun (c ∷ s) h = elim (Bool-cases (c == b'-')) [
  | inl dash ↦ cut begun dash (rw dash at h) (split-Pieces false s)
  | inr plain ↦
      let (word, rest) = both (is_word_char c) (spells true s) (rw plain at h) in
      rw plain (Pieces-add begun c (split b'-' s) word (split-Pieces true s rest))
]
  where
    both : (a b : Bool) → (a && b) ≡ true → (a ≡ true) × (b ≡ true)
    both a b e = (ground arith, ground arith)

    cut :
        (b : Bool)
        → (c == b'-') ≡ true
        → (b && spells false s) ≡ true
        → (spells false s ≡ true → Pieces false (split b'-' s))
        → Pieces b (split b'-' (c ∷ s))
    cut true dash e k = rw dash (Pieces-cut (split b'-' s) (k e))
    cut false dash e k = cc

split_any : (s : Text) → is_empty (split b'-' s) ≡ false
unfolding split
split_any [] = refl
split_any (c ∷ s) = added (c == b'-') (split b'-' s)
  where
    added : (b : Bool) (pieces : List Text) → is_empty (split_add b c pieces) ≡ false
    added true pieces = refl
    added false [] = refl
    added false (l ∷ pieces) = refl

-- splitting at a character and joining again
pub join-split : (s : Text) → join (text "-") (split b'-' s) ≡ s
unfolding join split
join-split [] = refl
join-split (c ∷ s) = again (c == b'-') (split b'-' s) refl (split_any s) (join-split s)
  where
    again :
        (b : Bool) (pieces : List Text)
        → (c == b'-') ≡ b
        → is_empty pieces ≡ false
        → join (text "-") pieces ≡ s
        → join (text "-") (split_add b c pieces) ≡ c ∷ s
    again true [] e any h = cc
    again true (l ∷ pieces) e any h = let same = eqb→eq c b'-' e in rw (same, h) refl
    again false [] e any h = ap (◌∷◌ c) h
    again false (l ∷ []) e any h = ap (◌∷◌ c) h
    again false (l ∷ m ∷ pieces) e any h = ap (◌∷◌ c) h

word_spells :
    (begun : Bool) (w rest : Text) → IsWord w → spells begun (w ++ rest) ≡ spells true rest
word_spells begun [] rest (any, ws) = cc
word_spells begun (c ∷ []) rest (any, ws) = ground arith
word_spells begun (c ∷ d ∷ w) rest (any, ws) =
    let plain : (c == b'-') ≡ false = ground arith in
    let word : is_word_char c ≡ true = ground arith in
    let later : all is_word_char (d ∷ w) ≡ true = ground arith in
    rw (plain, word) (word_spells true (d ∷ w) rest (refl, later))

join-spells :
    (begun : Bool) (w : Text) (words : List Text)
    → All IsWord (w ∷ words)
    → spells begun (join (text "-") (w ∷ words)) ≡ true
unfolding join
join-spells begun w [] h = ap (spells begun) (sym (append-nil w)) ∙ word_spells begun w [] h.0
join-spells begun w (v ∷ words) h =
    word_spells begun w (text "-" ++ join (text "-") (v ∷ words)) h.0
    ∙ join-spells false v words h.1

-- the first character of a joined text
pub front_of :
    (d : ℕ) (w : Text) (words : List Text)
    → (rest : Text) × (join (text "-") ((d ∷ w) ∷ words) ≡ d ∷ rest)
unfolding join
front_of d w [] = (w, refl)
front_of d w (v ∷ words) = (w ++ (text "-" ++ join (text "-") (v ∷ words)), refl)

-- words that begin with a letter are a valid name
pub validate_command_name-join :
    (word : Text) (words : List Text)
    → All IsWord (word ∷ words)
    → first_is is_lower word ≡ true
    → validate_command_name (join (text "-") (word ∷ words)) ≡ valid
validate_command_name-join [] words h letter = cc
validate_command_name-join (d ∷ w) words h letter =
    let (rest, e) = front_of d w words in
    let (chars, no_dash) = lower_is_word d letter in
    let read : spells false (d ∷ rest) ≡ true =
      subst (λ t. spells false t ≡ true) e (join-spells false (d ∷ w) words h) in
    subst (λ t. validate_command_name t ≡ valid) (sym e)
      ((validate_command_name-spells d rest).1 (letter, rw (chars, no_dash) at read))

named_by :
    (c : ℕ) (s : Text) (pieces : List Text)
    → is_lower c ≡ true
    → join (text "-") pieces ≡ c ∷ s
    → Pieces false pieces
    → IsCommandName (c ∷ s)
named_by c s [] letter e h = absurd h
named_by c s ([] ∷ pieces) letter e (any, ws, rest) = cc
named_by c s ((d ∷ l) ∷ pieces) letter e (any, ws, rest) =
    let (r, f) = front_of d l pieces in
    let same : is_lower d ≡ is_lower c = ap (first_is is_lower) (sym f ∙ e) in
    (d ∷ l, pieces, sym e, ((refl, ws), rest), same ∙ letter)

-- A name is accepted as the name of a command exactly if it is words of small letters and digits, none
-- of them empty, with one dash between each two, and begins with a letter.
pub validate_command_name_iff :
    (name : Text) → (validate_command_name name ≡ valid) ↔ IsCommandName name
validate_command_name_iff name = (there name, λ h. back h)
  where
    there : (name : Text) → validate_command_name name ≡ valid → IsCommandName name
    there [] h =
        let bad : invalid name_empty ≡ valid = unfold validate_command_name validate_with in h in cc
    there (c ∷ s) h =
        let (letter, read) = (validate_command_name-spells c s).0 h in
        let (chars, no_dash) = lower_is_word c letter in
        let all_read : spells false (c ∷ s) ≡ true = rw (no_dash, chars) read in
        named_by c s (split b'-' (c ∷ s)) letter (join-split (c ∷ s))
          (split-Pieces false (c ∷ s) all_read)

    back : {name : Text} → IsCommandName name → validate_command_name name ≡ valid
    back (word, words, e, h, letter) =
        subst (λ t. validate_command_name t ≡ valid) (sym e)
          (validate_command_name-join word words h letter)
