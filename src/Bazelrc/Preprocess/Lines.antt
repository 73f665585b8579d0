-- ===== src/Bazelrc/Preprocess/Lines.antt =====
-- The lines that `process` returns, and the text that gives a list of lines back.
use aspect_cli.Bazelrc.Preprocess.{
  remove_from, crlf_continuation, lf_continuation, join_continuations, is_line_blank, trim_line,
  process,
}
use aspect_cli.Base.{
  ℕ, ◌≡◌, refl, ap, ◌∙◌, Bool, true, false, not, ◌&&◌, ◌||◌, List, [], ◌∷◌, ◌++◌, map, arith, ◌==◌,
  is_empty, keep, All, All-map, Text, contains_char, trim_start, trim_end, trim_matches, split_add,
  split,
}

-- whether a text ends with a character that passes the test
unfoldable pub ends_with : (ℕ → Bool) → Text → Bool
ends_with p [] = false
ends_with p (c ∷ s) = (is_empty s && p c) || ends_with p s

unfoldable pub begins_with : (ℕ → Bool) → Text → Bool
begins_with p [] = false
begins_with p (c ∷ s) = p c

-- a line that a caller of `process` can see
pub record IsLine (l : Text) : Type 0 where
  pub ne_nil : is_empty l ≡ false
  pub one_line : contains_char b'\n' l ≡ false
  pub head_kept : begins_with is_line_blank l ≡ false
  pub last_kept : ends_with is_line_blank l ≡ false

begins_with-trim_end :
    (p : ℕ → Bool) (s : Text) → begins_with p s ≡ false → begins_with p (trim_end p s) ≡ false
unfolding begins_with trim_end
begins_with-trim_end p [] h = refl
begins_with-trim_end p (c ∷ s) h = ground arith

begins_with-trim_start : (p : ℕ → Bool) (s : Text) → begins_with p (trim_start p s) ≡ false
unfolding begins_with trim_start
begins_with-trim_start p [] = refl
begins_with-trim_start p (c ∷ s) = ground (arith, begins_with-trim_start p s)

ends_with-trim_end : (p : ℕ → Bool) (s : Text) → ends_with p (trim_end p s) ≡ false
unfolding ends_with trim_end
ends_with-trim_end p [] = refl
ends_with-trim_end p (c ∷ s) = ground (arith, ends_with-trim_end p s)

contains_char-trim_start :
    (c : ℕ) (p : ℕ → Bool) (s : Text)
    → contains_char c s ≡ false
    → contains_char c (trim_start p s) ≡ false
unfolding contains_char trim_start
contains_char-trim_start c p [] h = refl
contains_char-trim_start c p (d ∷ s) h = ground (arith, contains_char-trim_start c p s)

contains_char-trim_end :
    (c : ℕ) (p : ℕ → Bool) (s : Text)
    → contains_char c s ≡ false
    → contains_char c (trim_end p s) ≡ false
unfolding contains_char trim_end
contains_char-trim_end c p [] h = refl
contains_char-trim_end c p (d ∷ s) h = ground (arith, contains_char-trim_end c p s)

abbrev pub OneLine : Text → Type 0
OneLine l = contains_char b'\n' l ≡ false

OneLine-split_add :
    (b : Bool) (c : ℕ) (ls : List Text)
    → (b ≡ false → (c == b'\n') ≡ false)
    → All OneLine ls
    → All OneLine (split_add b c ls)
unfolding contains_char
OneLine-split_add true c ls h a = (refl, a)
OneLine-split_add false c [] h a = (ground (arith, h refl), tt)
OneLine-split_add false c (l ∷ ls) h a = (ground (arith, h refl), a.1)

OneLine-split : (s : Text) → All OneLine (split b'\n' s)
unfolding split
OneLine-split [] = (unfold contains_char in refl, tt)
OneLine-split (c ∷ s) = OneLine-split_add (c == b'\n') c (split b'\n' s) (λ e. e) (OneLine-split s)

-- what trimming a piece gives, apart from being non-empty
abbrev IsTrimmed : Text → Type 0
IsTrimmed l =
    OneLine l × (begins_with is_line_blank l ≡ false) × (ends_with is_line_blank l ≡ false)

IsTrimmed-trim_line : (l : Text) → OneLine l → IsTrimmed (trim_line l)
unfolding trim_line trim_matches
IsTrimmed-trim_line l h = (
  contains_char-trim_end b'\n' is_line_blank _ (contains_char-trim_start b'\n' is_line_blank l h),
  begins_with-trim_end is_line_blank _ (begins_with-trim_start is_line_blank l),
  ends_with-trim_end is_line_blank (trim_start is_line_blank l),
)

IsLine-keep :
    (ls : List Text) → All IsTrimmed ls → All IsLine (keep (λ line. not (is_empty line)) ls)
IsLine-keep [] a = tt
IsLine-keep ([] ∷ ls) (h, a) = IsLine-keep ls a
IsLine-keep ((c ∷ l) ∷ ls) (h, a) =
    (record { ne_nil = refl; one_line = h.0; head_kept = h.1; last_kept = h.2 }, IsLine-keep ls a)

-- Every line that `process` returns is non-empty, has no newline in it, and neither begins nor ends
-- with a space, a tab or a carriage return.
pub process-IsLine : (content : Text) → All IsLine (process content)
unfolding process
process-IsLine content =
    let pieces = split b'\n' (join_continuations content) in
    let trimmed =
      All-map OneLine IsTrimmed trim_line IsTrimmed-trim_line pieces
        (OneLine-split (join_continuations content)) in
    IsLine-keep (map trim_line pieces) trimmed

-- the lines of a file, each ended by a newline
abbrev pub unlines : List Text → Text
unlines [] = []
unlines (l ∷ ls) = l ++ b'\n' ∷ unlines ls

abbrev pub is_backslash : ℕ → Bool
is_backslash c = c == b'\\'

remove_crlf-line :
    (l rest : Text)
    → OneLine l
    → ends_with is_line_blank l ≡ false
    → remove_from crlf_continuation 0 (l ++ b'\n' ∷ rest)
      ≡ l ++ b'\n' ∷ remove_from crlf_continuation 0 rest
unfolding remove_from contains_char ends_with is_line_blank
remove_crlf-line [] [] h k = refl
remove_crlf-line [] (c ∷ rest) h k = refl
remove_crlf-line (a ∷ []) rest h k = ground (arith, remove_crlf-line [] rest)
remove_crlf-line (a ∷ b ∷ []) rest h k = ground (arith, remove_crlf-line (b ∷ []) rest)
remove_crlf-line (a ∷ b ∷ c ∷ l) rest h k = ground (arith, remove_crlf-line (b ∷ c ∷ l) rest)

remove_lf-line :
    (l rest : Text)
    → OneLine l
    → ends_with is_backslash l ≡ false
    → remove_from lf_continuation 0 (l ++ b'\n' ∷ rest)
      ≡ l ++ b'\n' ∷ remove_from lf_continuation 0 rest
unfolding remove_from contains_char ends_with
remove_lf-line [] rest h k = ground arith
remove_lf-line (a ∷ []) rest h k = ground (arith, remove_lf-line [] rest)
remove_lf-line (a ∷ b ∷ l) rest h k = ground (arith, remove_lf-line (b ∷ l) rest)

pub split-line :
    (l rest : Text) → OneLine l → split b'\n' (l ++ b'\n' ∷ rest) ≡ l ∷ split b'\n' rest
unfolding split contains_char
split-line [] rest h = refl
split-line (c ∷ l) rest h = ground (arith, split-line l rest)

pub trim_start_self : (p : ℕ → Bool) (s : Text) → begins_with p s ≡ false → trim_start p s ≡ s
unfolding begins_with trim_start
trim_start_self p [] h = refl
trim_start_self p (c ∷ s) h = ground arith

pub trim_end_self : (p : ℕ → Bool) (s : Text) → ends_with p s ≡ false → trim_end p s ≡ s
unfolding ends_with trim_end
trim_end_self p [] h = refl
trim_end_self p (c ∷ s) h = ground (arith, trim_end_self p s)

trim_line_self : (l : Text) → IsLine l → trim_line l ≡ l
unfolding trim_line trim_matches
trim_line_self l h =
    rw (trim_start_self is_line_blank l h.head_kept) (trim_end_self is_line_blank l h.last_kept)

abbrev pub IsWritable : Text → Type 0
IsWritable l = IsLine l × (ends_with is_backslash l ≡ false)

join_continuations-unlines :
    (ls : List Text) → All IsWritable ls → join_continuations (unlines ls) ≡ unlines ls
unfolding join_continuations
join_continuations-unlines [] a = unfold remove_from in refl
join_continuations-unlines (l ∷ ls) ((h, k), a) =
    rw (remove_crlf-line l (unlines ls) h.one_line h.last_kept) (
      rw (remove_lf-line l _ h.one_line k)
        (ap (λ t. l ++ b'\n' ∷ t) (join_continuations-unlines ls a)))

keep_cons :
    (l : Text) (ls : List Text)
    → IsLine l
    → keep (λ line. not (is_empty line)) (l ∷ ls) ≡ l ∷ keep (λ line. not (is_empty line)) ls
keep_cons l ls h = rw h.ne_nil

lines-unlines :
    (ls : List Text)
    → All IsWritable ls
    → keep (λ line. not (is_empty line)) (map trim_line (split b'\n' (unlines ls))) ≡ ls
lines-unlines [] a = unfold split trim_line in refl
lines-unlines (l ∷ ls) ((h, k), a) = rw (split-line l (unlines ls) h.one_line) (
    rw (trim_line_self l h)
      (keep_cons l (map trim_line (split b'\n' (unlines ls))) h ∙ ap (◌∷◌ l) (lines-unlines ls a)))

-- Lines that are trimmed, non-empty and not ended by a backslash are read back from the file that
-- holds them, as they were and in order.
pub process-unlines : (ls : List Text) → All IsWritable ls → process (unlines ls) ≡ ls
unfolding process
process-unlines ls a = rw (join_continuations-unlines ls a) (lines-unlines ls a)
