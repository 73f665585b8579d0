-- ===== src/Bazelrc/Preprocess/Layout.antt =====
-- The lines that are read from a file as it is laid out.
use aspect_cli.Base.{
  ℕ, ◌≡◌, refl, sym, ap, ◌∙◌, Bool, true, false, not, List, [], ◌∷◌, ◌++◌, map, append_assoc, arith,
  if◌then◌else◌, is_empty, keep, All, Text, contains_char, trim_start, trim_end, trim_matches,
  split, all,
}
use aspect_cli.Bazelrc.Preprocess.{
  remove_from, lf_continuation, join_continuations, is_line_blank, trim_line, process,
}
use aspect_cli.Bazelrc.Preprocess.Lines.{
  ends_with, begins_with, OneLine, split-line, trim_start_self, trim_end_self,
}
use aspect_cli.Bazelrc.Preprocess.Continuations.{
  Line, joined, content, write, IsLaidOut, ArePieces, plain, crlf-write, lf-half_written,
}

joined-append : (ps : List (Text × Bool)) (s t : Text) → joined ps (s ++ t) ≡ joined ps s ++ t
joined-append [] s t = refl
joined-append ((p, crlf) ∷ ps) s t =
    ap (λ u. p ++ u) (joined-append ps s t) ∙ sym (append_assoc p (joined ps s) t)

-- a line with its blanks, without joints
abbrev whole : Line → Text
whole l = l.lead ++ (content l ++ l.trail)

plain-whole : (l : Line) (ls : List Line) → plain (l ∷ ls) ≡ whole l ++ b'\n' ∷ plain ls
plain-whole l ls =
    let rest = b'\n' ∷ plain ls in
    ap (λ s. l.lead ++ s)
      (joined-append l.pieces l.last (l.trail ++ rest)
        ∙ sym (append_assoc (content l) l.trail rest))
    ∙ sym (append_assoc l.lead (content l ++ l.trail) rest)

OneLine-append : (s t : Text) → OneLine s → OneLine t → OneLine (s ++ t)
unfolding contains_char
OneLine-append [] t h k = k
OneLine-append (c ∷ s) t h k = ground (arith, OneLine-append s t)

OneLine-blanks : (s : Text) → all is_line_blank s ≡ true → OneLine s
unfolding contains_char is_line_blank
OneLine-blanks [] h = refl
OneLine-blanks (c ∷ s) h = ground (arith, OneLine-blanks s)

OneLine-joined :
    (ps : List (Text × Bool)) (t : Text) → ArePieces ps → OneLine t → OneLine (joined ps t)
OneLine-joined [] t a h = h
OneLine-joined ((p, crlf) ∷ ps) t (k, a) h =
    OneLine-append p (joined ps t) k.one_line (OneLine-joined ps t a h)

trim_start-blanks :
    (p : ℕ → Bool) (s t : Text) → all p s ≡ true → trim_start p (s ++ t) ≡ trim_start p t
unfolding trim_start
trim_start-blanks p [] t h = refl
trim_start-blanks p (c ∷ s) t h = ground (arith, trim_start-blanks p s t)

trim_start-all : (p : ℕ → Bool) (s : Text) → all p s ≡ true → trim_start p s ≡ []
unfolding trim_start
trim_start-all p [] h = refl
trim_start-all p (c ∷ s) h = ground (arith, trim_start-all p s)

trim_end-all : (p : ℕ → Bool) (s : Text) → all p s ≡ true → trim_end p s ≡ []
unfolding trim_end
trim_end-all p [] h = refl
trim_end-all p (c ∷ s) h = ground (arith, trim_end-all p s)

trim_end-blanks : (p : ℕ → Bool) (s t : Text) → all p t ≡ true → trim_end p (s ++ t) ≡ trim_end p s
unfolding trim_end
trim_end-blanks p [] t h = trim_end-all p t h
trim_end-blanks p (c ∷ s) t h = ground (arith, trim_end-blanks p s t h)

trim_inner :
    (p : ℕ → Bool) (s t : Text)
    → begins_with p s ≡ false
    → ends_with p s ≡ false
    → all p t ≡ true
    → trim_end p (trim_start p (s ++ t)) ≡ s
unfolding begins_with
trim_inner p [] t h k blank = ap (trim_end p) (trim_start-all p t blank) ∙ unfold trim_end in refl
trim_inner p (c ∷ s) t h k blank =
    ap (trim_end p) (trim_start_self p ((c ∷ s) ++ t) h)
    ∙ trim_end-blanks p (c ∷ s) t blank
    ∙ trim_end_self p (c ∷ s) k

trim_line-whole : (l : Line) → IsLaidOut l → trim_line (whole l) ≡ content l
unfolding trim_line trim_matches
trim_line-whole l h =
    ap (trim_end is_line_blank)
      (trim_start-blanks is_line_blank l.lead (content l ++ l.trail) h.lead_blank)
    ∙ trim_inner is_line_blank (content l) l.trail h.begins h.ends h.trail_blank

trimmed-plain :
    (ls : List Line)
    → All IsLaidOut ls
    → keep (λ line. not (is_empty line)) (map trim_line (split b'\n' (plain ls)))
      ≡ keep (λ line. not (is_empty line)) (map content ls)
trimmed-plain [] a = unfold split trim_line in refl
trimmed-plain (l ∷ ls) (h, a) =
    let one : OneLine (whole l) =
      OneLine-append l.lead (content l ++ l.trail) (OneLine-blanks l.lead h.lead_blank) (
        OneLine-append (content l) l.trail
          (OneLine-joined l.pieces l.last h.pieces_kept h.last_kept.one_line)
          (OneLine-blanks l.trail h.trail_blank)) in
    ap (λ s. keep (λ line. not (is_empty line)) (map trim_line (split b'\n' s))) (plain-whole l ls)
    ∙ ap (λ ps. keep (λ line. not (is_empty line)) (map trim_line ps))
        (split-line (whole l) (plain ls) one)
    ∙ ap (λ c. keep (λ line. not (is_empty line)) (c ∷ map trim_line (split b'\n' (plain ls))))
        (trim_line-whole l h)
    ∙ ap (λ rest. if not (is_empty (content l)) then content l ∷ rest else rest)
        (trimmed-plain ls a)

-- A file is read as the lines that it lays out, but for the empty ones, in their order: blanks before and
-- behind a line are taken off, CRLF ends a line as LF does, and a line that is continued by a backslash
-- before an LF or a CRLF, any number of times, is one line again. The pieces of a line hold no newline and
-- do not end with a backslash or a carriage return; the text of a line neither begins nor ends with a
-- space, a tab or a carriage return.
pub process-write :
    (ls : List Line)
    → All IsLaidOut ls
    → process (write ls) ≡ keep (λ line. not (is_empty line)) (map content ls)
unfolding process join_continuations
process-write ls a =
    ap (λ s. keep (λ line. not (is_empty line)) (map trim_line (split b'\n' s)))
      (ap (remove_from lf_continuation 0) (crlf-write ls a) ∙ lf-half_written ls a)
    ∙ trimmed-plain ls a
