-- ===== src/Redaction/Glob/Sound.antt =====
-- What a match means.
use aspect_cli.Redaction.Glob.{Lowercase}
use mathlib.Core.Bool.{true≢false}
use aspect_cli.Base.{
  ℕ, ◌≡◌, sym, subst, ◌⊎◌, inl, inr, Bool, true, false, ◌&&◌, [], ◌∷◌, arith, ◌==◌, Bool-cases,
  eqb→eq, Text,
}
use aspect_cli.Redaction.Glob.{only_stars, retry, walk, match_lower, glob_match}

-- `Matches pattern name`: `*` stands for any text and `?` for one character
pub data Matches : Text → Text → Type 0 where
  empty : Matches [] []
  literal : {c : ℕ} {p n : Text} → Matches p n → Matches (c ∷ p) (c ∷ n)
  question : {d : ℕ} {p n : Text} → Matches p n → Matches (b'?' ∷ p) (d ∷ n)
  star_nothing : {p n : Text} → Matches p n → Matches (b'*' ∷ p) n
  star_more : {d : ℕ} {p n : Text} → Matches (b'*' ∷ p) n → Matches (b'*' ∷ p) (d ∷ n)

only_stars-Matches : (p : Text) → only_stars p ≡ true → Matches p []
unfolding only_stars
only_stars-Matches [] h = empty
only_stars-Matches (c ∷ p) h = elim (Bool-cases (c == b'*')) [
  | inl same ↦
      let rest : only_stars p ≡ true = subst (λ b. (b && only_stars p) ≡ true) same h in
      rw (eqb→eq c b'*' same) (star_nothing (only_stars-Matches p rest))
  | inr other ↦ absurd (true≢false (sym (subst (λ b. (b && only_stars p) ≡ true) other h)))
]

either_left {ℓ κ ι} : {A : Type ℓ} {B : Type κ} {C : Type ι} → (A → B) → A ⊎ C → B ⊎ C
either_left f (inl a) = inl (f a)
either_left f (inr c) = inr c

-- what a walk from a position of the pattern finds: a match, unless the return to the star does
abbrev Finds : Text → Type 0
Finds p = (back : Bool) (n : Text) → walk p back n ≡ true → Matches p n ⊎ (back ≡ true)

retry-Matches : (p : Text) → Finds p → (n : Text) → retry (walk p) n ≡ true → Matches (b'*' ∷ p) n
unfolding retry
retry-Matches p finds [] h = absurd (true≢false (sym h))
retry-Matches p finds (d ∷ n) h = elim (finds (retry (walk p) n) n h) [
  | inl m ↦ star_more (star_nothing m)
  | inr again ↦ star_more (retry-Matches p finds n again)
]

walk-Matches : (p : Text) → Finds p
unfolding walk
walk-Matches [] back [] h = inl empty
walk-Matches [] back (d ∷ n) h = inr h
walk-Matches (c ∷ p) back [] h = inl (only_stars-Matches (c ∷ p) h)
walk-Matches (c ∷ p) back (d ∷ n) h = elim (Bool-cases (c == b'?')) [
  | inl question_mark ↦
      let e : walk p back n ≡ true = ground (arith, h) in
      rw (eqb→eq c b'?' question_mark) (either_left question (walk-Matches p back n e))
  | inr no_question ↦ elim (Bool-cases (c == d)) [
    | inl same ↦
        let e : walk p back n ≡ true = ground (arith, h) in
        rw (eqb→eq c d same) (either_left literal (walk-Matches p back n e))
    | inr other ↦ elim (Bool-cases (c == b'*')) [
      | inl star ↦
          let e : walk p (retry (walk p) (d ∷ n)) (d ∷ n) ≡ true = ground (arith, h) in
          rw (eqb→eq c b'*' star) (
            inl (elim (walk-Matches p (retry (walk p) (d ∷ n)) (d ∷ n) e) [
              | inl m ↦ star_nothing m
              | inr again ↦ retry-Matches p (walk-Matches p) (d ∷ n) again
            ]))
      | inr no_star ↦ inr (ground (arith, h))
    ]
  ]
]

match_lower-Matches : (p n : Text) → match_lower p n ≡ true → Matches p n
unfolding match_lower
match_lower-Matches [] n h = absurd (true≢false (sym h))
match_lower-Matches (c ∷ p) n h = elim (walk-Matches (c ∷ p) false n h) [
  | inl m ↦ m
  | inr e ↦ absurd (true≢false (sym e))
]

module _ ⦃letters : Lowercase⦄ where
  -- A pattern that `glob_match` accepts for a name stands for it, in lower case on both sides: `*` for any
  -- text and `?` for one character of the name in lower case. Whatever the lower case of a text is, no other
  -- name is let through.
  pub glob_match-Matches :
      (pattern name : Text)
      → glob_match pattern name ≡ true
      → Matches (letters.to_lowercase pattern) (letters.to_lowercase name)
  unfolding glob_match
  glob_match-Matches pattern name h = match_lower-Matches _ _ h
