-- ===== src/Names/Words.antt =====
-- What `to_command_name` makes of the name of a variable.
use aspect_cli.Base.{
  ℕ, ◌≡◌, refl, ap, Bool, true, false, not, ◌&&◌, Option, some, List, [], ◌∷◌, ◌++◌, arith,
  if◌then◌else◌, is_empty, All, map, keep, Text, is_upper, all, to_lower,
}
use aspect_cli.Names.{is_word_char, is_alphanumeric, starts_word, push_word, words_from}
use aspect_cli.Names.Spelling.{IsWord}

lower_is_word_char : (c : ℕ) → is_alphanumeric c ≡ true → is_word_char (to_lower c) ≡ true
unfolding to_lower
lower_is_word_char c h = ground arith

lowered-IsWord :
    (current : Text)
    → is_empty current ≡ false
    → all is_alphanumeric current ≡ true
    → IsWord (map to_lower current)
lowered-IsWord [] any h = cc
lowered-IsWord (c ∷ []) any h =
    let word = lower_is_word_char c (ground arith) in (refl, rw word refl)
lowered-IsWord (c ∷ d ∷ s) any h =
    let word = lower_is_word_char c (ground arith) in
    let (e, rest) = lowered-IsWord (d ∷ s) refl (ground arith) in (refl, rw word rest)

all-append :
    (p : ℕ → Bool) (s : Text) (c : ℕ) → all p s ≡ true → p c ≡ true → all p (s ++ c ∷ []) ≡ true
all-append p [] c h k = rw k refl
all-append p (d ∷ s) c h k =
    let first : p d ≡ true = ground arith in rw first (all-append p s c (ground arith) k)

pub words_from-IsWord :
    (prev : Option ℕ) (current s : Text)
    → all is_alphanumeric current ≡ true
    → all is_alphanumeric s ≡ true
    → All IsWord (words_from prev current s)
unfolding words_from
words_from-IsWord prev [] [] h k = tt
words_from-IsWord prev (c ∷ current) [] h k = (lowered-IsWord (c ∷ current) refl h, tt)
words_from-IsWord prev current (c ∷ s) h k =
    let first : is_alphanumeric c ≡ true = ground arith in
    let later : all is_alphanumeric s ≡ true = ground arith in
    cut_or_not (is_upper c) (starts_word prev s) (is_empty current) refl h
      (words_from-IsWord (some c) (c ∷ []) s (rw first refl) later)
      (words_from-IsWord (some c) (current ++ c ∷ []) s
        (all-append is_alphanumeric current c h first) later)
  where
    cut_or_not :
        (a b e : Bool)
        → is_empty current ≡ e
        → all is_alphanumeric current ≡ true
        → All IsWord (words_from (some c) (c ∷ []) s)
        → All IsWord (words_from (some c) (current ++ c ∷ []) s)
        → All IsWord (
            push_word
              (a && b && not e)
              (map to_lower current)
              (words_from (some c) (if a && b && not e then c ∷ [] else current ++ c ∷ []) s))
    cut_or_not true true false e h x y = (lowered-IsWord current e h, x)
    cut_or_not true true true e h x y = y
    cut_or_not true false e' e h x y = y
    cut_or_not false b e' e h x y = y

pub words_from-front :
    (prev : Option ℕ) (d : ℕ) (current s : Text)
    → (w : Text) × (ws : List Text) × (words_from prev (d ∷ current) s ≡ (to_lower d ∷ w) ∷ ws)
unfolding words_from
words_from-front prev d current [] = (map to_lower current, [], refl)
words_from-front prev d current (c ∷ s) =
    cut_or_not (is_upper c && starts_word prev s && true)
      (words_from-front (some c) d (current ++ c ∷ []) s)
  where
    cut_or_not :
        (b : Bool)
        → (w : Text) × (ws : List Text) × (words_from (some c) (d ∷ (current ++ c ∷ [])) s
            ≡ (to_lower d ∷ w) ∷ ws)
        → (w : Text) × (ws : List Text) × (push_word b
              (map to_lower (d ∷ current))
              (words_from (some c) (if b then c ∷ [] else (d ∷ current) ++ c ∷ []) s)
            ≡ (to_lower d ∷ w) ∷ ws)
    cut_or_not true x = (map to_lower current, words_from (some c) (c ∷ []) s, refl)
    cut_or_not false x = x

pub keep_words : (words : List Text) → All IsWord words → keep (λ w. not (is_empty w)) words ≡ words
keep_words [] h = refl
keep_words (w ∷ words) (h, hs) = rw h.0 (ap (◌∷◌ w) (keep_words words hs))
