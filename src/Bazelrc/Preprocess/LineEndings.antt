-- ===== src/Bazelrc/Preprocess/LineEndings.antt =====
-- A bazelrc file with CRLF line ends, and the same file with LF line ends.
use aspect_cli.Bazelrc.Preprocess.{
  remove_from, crlf_continuation, lf_continuation, is_line_blank, trim_line, process,
}
use aspect_cli.Base.{
  ℕ, ◌≡◌, refl, sym, ap₂, ◌≢◌, inl, inr, Bool, true, false, List, [], ◌∷◌, ◌++◌, map, arith, ◌==◌,
  if◌then◌else◌, Bool-cases, Text, contains_char, trim_end, trim_matches, split_add, split,
}

-- the text with each LF written as CRLF
abbrev pub to_crlf : Text → Text
to_crlf [] = []
to_crlf (c ∷ s) = if c == b'\n' then b'\r' ∷ b'\n' ∷ to_crlf s else c ∷ to_crlf s

remove_crlf_self :
    (s : Text) → contains_char b'\r' s ≡ false → remove_from crlf_continuation 0 s ≡ s
unfolding remove_from contains_char
remove_crlf_self [] h = refl
remove_crlf_self (c ∷ []) h = ground arith
remove_crlf_self (c ∷ d ∷ s) h = ground (arith, remove_crlf_self (d ∷ s))

remove_crlf-to_crlf :
    (s : Text)
    → contains_char b'\r' s ≡ false
    → remove_from crlf_continuation 0 (to_crlf s) ≡ to_crlf (remove_from lf_continuation 0 s)
unfolding remove_from contains_char
remove_crlf-to_crlf [] h = refl
remove_crlf-to_crlf (c ∷ []) h = ground arith
remove_crlf-to_crlf (c ∷ d ∷ s) h =
    ground (arith, remove_crlf-to_crlf (d ∷ s), remove_crlf-to_crlf s)

remove_lf-to_crlf : (s : Text) → remove_from lf_continuation 0 (to_crlf s) ≡ to_crlf s
unfolding remove_from
remove_lf-to_crlf [] = refl
remove_lf-to_crlf (c ∷ []) = ground arith
remove_lf-to_crlf (c ∷ d ∷ s) = ground (arith, remove_lf-to_crlf (d ∷ s))

-- a CR behind each line but the last
abbrev cr_lines : List Text → List Text
cr_lines [] = []
cr_lines (l ∷ []) = l ∷ []
cr_lines (l ∷ m ∷ r) = (l ++ b'\r' ∷ []) ∷ cr_lines (m ∷ r)

split-ne-nil : (c : ℕ) (s : Text) → split c s ≢ []
unfolding split
split-ne-nil c [] e = cc
split-ne-nil c (d ∷ s) e = split_add-ne-nil (d == c) (split c s) e
  where
    split_add-ne-nil : (b : Bool) (l : List Text) → split_add b d l ≢ []
    split_add-ne-nil true l e = cc
    split_add-ne-nil false [] e = cc
    split_add-ne-nil false (x ∷ l) e = cc

cr_lines-cons : (l : List Text) → l ≢ [] → cr_lines ([] ∷ l) ≡ (b'\r' ∷ []) ∷ cr_lines l
cr_lines-cons [] h = absurd (h refl)
cr_lines-cons (m ∷ r) h = refl

cr_lines-split_add :
    (c : ℕ) (l : List Text) → cr_lines (split_add false c l) ≡ split_add false c (cr_lines l)
cr_lines-split_add c [] = refl
cr_lines-split_add c (l ∷ []) = refl
cr_lines-split_add c (l ∷ m ∷ r) = refl

split-to_crlf : (s : Text) → split b'\n' (to_crlf s) ≡ cr_lines (split b'\n' s)
unfolding split
split-to_crlf [] = refl
split-to_crlf (c ∷ s) = elim (Bool-cases (c == b'\n')) [
  | inl end ↦
      rw end (rw (split-to_crlf s) (sym (cr_lines-cons (split b'\n' s) (split-ne-nil b'\n' s))))
  | inr other ↦
      rw other (rw other (rw (split-to_crlf s) (sym (cr_lines-split_add c (split b'\n' s)))))
]

trim_end-blank :
    (p : ℕ → Bool) (c : ℕ) (l : Text) → p c ≡ true → trim_end p (l ++ c ∷ []) ≡ trim_end p l
unfolding trim_end
trim_end-blank p c [] h = ground arith
trim_end-blank p c (d ∷ l) h = ground (arith, trim_end-blank p c l)

trim_matches-blank :
    (p : ℕ → Bool) (c : ℕ) (l : Text) → p c ≡ true → trim_matches p (l ++ c ∷ []) ≡ trim_matches p l
unfolding trim_matches
trim_matches-blank p c [] h = ground arith
trim_matches-blank p c (d ∷ l) h =
    ground (arith, trim_matches-blank p c l, trim_end-blank p c (d ∷ l))

map_trim-cr_lines : (l : List Text) → map trim_line (cr_lines l) ≡ map trim_line l
map_trim-cr_lines [] = refl
map_trim-cr_lines (l ∷ []) = refl
map_trim-cr_lines (l ∷ m ∷ r) =
    ap₂ ◌∷◌ (unfold trim_line in trim_matches-blank is_line_blank b'\r' l refl)
      (map_trim-cr_lines (m ∷ r))

-- A file with LF line ends gives the same lines when its line ends are turned into CRLF.
pub process-to_crlf : (s : Text) → contains_char b'\r' s ≡ false → process (to_crlf s) ≡ process s
unfolding process
process-to_crlf s h =
    rw (remove_crlf-to_crlf s h)
      (rw remove_lf-to_crlf (rw split-to_crlf (rw map_trim-cr_lines (rw (remove_crlf_self s h)))))
