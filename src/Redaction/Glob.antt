-- ===== src/Redaction/Glob.antt =====
-- `glob_match` of redaction.rs: patterns with `*` and `?`, without regard to case. The
-- lower case of a text, `str::to_lowercase`, stands on the tables of Unicode and is a parameter; it may
-- change the number of the characters.
pub mod Sound
use aspect_cli.Base.{
  all, ltb, ℕ, ◌≡◌, ◌*◌, Bool, true, false, ◌&&◌, ◌||◌, [], ◌∷◌, map, ◌==◌, if◌then◌else◌, Text,
  to_lower,
}

-- `str::to_lowercase`, with what it is for a text of ASCII characters
pub record Lowercase : Type 0 where
  pub to_lowercase : Text → Text
  pub of_ascii : (s : Text) → all (λ c. ltb c 128) s ≡ true → to_lowercase s ≡ map to_lower s

-- the pattern is at its end, but for stars
unfoldable pub only_stars : Text → Bool
only_stars [] = true
only_stars (c ∷ p) = c == b'*' && only_stars p

-- the position of the loop: the rest of the pattern, and what a return to the last star would give
abbrev pub Walk : Type 0
Walk = Bool → Text → Bool

-- the returns to a star with the pattern `walk` behind it: the star takes one character more each time
unfoldable pub retry : Walk → Text → Bool
retry walk [] = false
retry walk (d ∷ name) = walk (retry walk name) name

-- the loop, from a position in the pattern; the return to the last star is `back`
unfoldable pub walk : Text → Walk
unfolding only_stars retry
walk [] back [] = true
walk [] back (d ∷ name) = back
walk (c ∷ p) back [] = only_stars (c ∷ p)
walk (c ∷ p) back (d ∷ name) =
    let next = walk p back name in
    let behind_star = walk p (retry (walk p) (d ∷ name)) (d ∷ name) in
    if c == b'?' || c == d then next else if c == b'*' then behind_star else back

-- the first round of the loop has no star to return to, and an empty pattern fails there
unfoldable pub match_lower : Text → Text → Bool
unfolding walk
match_lower [] name = false
match_lower (c ∷ p) name = walk (c ∷ p) false name

module _ ⦃letters : Lowercase⦄ where
  unfoldable pub glob_match : Text → Text → Bool
  unfolding match_lower
  glob_match pattern name = match_lower (letters.to_lowercase pattern) (letters.to_lowercase name)
