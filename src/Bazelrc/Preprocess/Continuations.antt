-- ===== src/Bazelrc/Preprocess/Continuations.antt =====
-- A bazelrc file as it is laid out, indented lines, blanks behind them, line ends of both kinds and lines
-- that are continued with a backslash, and what the removal of the continuations leaves of it.
use aspect_cli.Base.{
  ℕ, ◌≡◌, refl, ap, ◌∙◌, Bool, true, false, ◌||◌, List, [], ◌∷◌, ◌++◌, arith, ◌==◌, All, Text,
  contains_char, all,
}
use aspect_cli.Bazelrc.Preprocess.{remove_from, crlf_continuation, lf_continuation, is_line_blank}
use aspect_cli.Bazelrc.Preprocess.Lines.{ends_with, begins_with}

-- a line of the caller: blanks, pieces that are each continued (with CRLF or with LF), the last piece, and
-- blanks, among which the carriage return of a CRLF
pub record Line : Type 0 where
  pub lead : Text
  pub pieces : List (Text × Bool)
  pub last : Text
  pub trail : Text

abbrev pub joint : Bool → Text
joint true = crlf_continuation
joint false = lf_continuation

-- the pieces with their joints, before some text
abbrev pub continued : List (Text × Bool) → Text → Text
continued [] t = t
continued ((p, crlf) ∷ ps) t = p ++ (joint crlf ++ continued ps t)

-- the pieces without joints
abbrev pub joined : List (Text × Bool) → Text → Text
joined [] t = t
joined ((p, crlf) ∷ ps) t = p ++ joined ps t

abbrev pub content : Line → Text
content l = joined l.pieces l.last

-- the file
abbrev pub write : List Line → Text
write [] = []
write (l ∷ ls) = l.lead ++ continued l.pieces (l.last ++ (l.trail ++ b'\n' ∷ write ls))

-- a character that could begin a continuation with what follows
abbrev pub is_loose : ℕ → Bool
is_loose c = c == b'\\' || c == b'\r'

pub record IsPiece (p : Text) : Type 0 where
  pub one_line : contains_char b'\n' p ≡ false
  pub closed : ends_with is_loose p ≡ false

-- a line that reads as its pieces: they hold no line end, none ends with a backslash or a carriage return,
-- and their text neither begins nor ends with a blank
pub record IsLaidOut (l : Line) : Type 0 where
  pub lead_blank : all is_line_blank l.lead ≡ true
  pub trail_blank : all is_line_blank l.trail ≡ true
  pub pieces_kept : All (λ (p : Text × Bool). IsPiece p.0) l.pieces
  pub last_kept : IsPiece l.last
  pub begins : begins_with is_line_blank (content l) ≡ false
  pub ends : ends_with is_line_blank (content l) ≡ false

-- the removal of a continuation passes over a piece, and over blanks
crlf-piece :
    (p t : Text)
    → contains_char b'\n' p ≡ false
    → ends_with is_loose p ≡ false
    → remove_from crlf_continuation 0 (p ++ t) ≡ p ++ remove_from crlf_continuation 0 t
unfolding remove_from contains_char ends_with
crlf-piece [] t h k = refl
crlf-piece (a ∷ []) t h k = ground arith
crlf-piece (a ∷ b ∷ []) t h k = ground (arith, crlf-piece (b ∷ []) t)
crlf-piece (a ∷ b ∷ c ∷ p) t h k = ground (arith, crlf-piece (b ∷ c ∷ p) t)

lf-piece :
    (p t : Text)
    → contains_char b'\n' p ≡ false
    → ends_with is_loose p ≡ false
    → remove_from lf_continuation 0 (p ++ t) ≡ p ++ remove_from lf_continuation 0 t
unfolding remove_from contains_char ends_with
lf-piece [] t h k = refl
lf-piece (a ∷ []) t h k = ground arith
lf-piece (a ∷ b ∷ p) t h k = ground (arith, lf-piece (b ∷ p) t)

crlf-blanks :
    (s t : Text)
    → all is_line_blank s ≡ true
    → remove_from crlf_continuation 0 (s ++ t) ≡ s ++ remove_from crlf_continuation 0 t
unfolding remove_from is_line_blank
crlf-blanks [] t h = refl
crlf-blanks (c ∷ s) t h = ground (arith, crlf-blanks s t)

lf-blanks :
    (s t : Text)
    → all is_line_blank s ≡ true
    → remove_from lf_continuation 0 (s ++ t) ≡ s ++ remove_from lf_continuation 0 t
unfolding remove_from is_line_blank
lf-blanks [] t h = refl
lf-blanks (c ∷ s) t h = ground (arith, lf-blanks s t)

-- the pieces with the joints that the first removal leaves
abbrev half_joined : List (Text × Bool) → Text → Text
half_joined [] t = t
half_joined ((p, true) ∷ ps) t = p ++ half_joined ps t
half_joined ((p, false) ∷ ps) t = p ++ (lf_continuation ++ half_joined ps t)

abbrev pub ArePieces : List (Text × Bool) → Type 0
ArePieces ps = All (λ (p : Text × Bool). IsPiece p.0) ps

crlf-continued :
    (ps : List (Text × Bool)) (t : Text)
    → ArePieces ps
    → remove_from crlf_continuation 0 (continued ps t)
      ≡ half_joined ps (remove_from crlf_continuation 0 t)
unfolding remove_from
crlf-continued [] t a = refl
crlf-continued ((p, true) ∷ ps) t (h, a) =
    crlf-piece p (joint true ++ continued ps t) h.one_line h.closed
    ∙ ap (λ s. p ++ s) (crlf-continued ps t a)
crlf-continued ((p, false) ∷ ps) t (h, a) =
    crlf-piece p (joint false ++ continued ps t) h.one_line h.closed
    ∙ ap (λ s. p ++ (lf_continuation ++ s)) (crlf-continued ps t a)

lf-half_joined :
    (ps : List (Text × Bool)) (t : Text)
    → ArePieces ps
    → remove_from lf_continuation 0 (half_joined ps t) ≡ joined ps (remove_from lf_continuation 0 t)
unfolding remove_from
lf-half_joined [] t a = refl
lf-half_joined ((p, true) ∷ ps) t (h, a) =
    lf-piece p (half_joined ps t) h.one_line h.closed ∙ ap (λ s. p ++ s) (lf-half_joined ps t a)
lf-half_joined ((p, false) ∷ ps) t (h, a) =
    lf-piece p (lf_continuation ++ half_joined ps t) h.one_line h.closed
    ∙ ap (λ s. p ++ s) (lf-half_joined ps t a)

-- the file after the first removal, and after both
abbrev pub half_written : List Line → Text
half_written [] = []
half_written (l ∷ ls) =
    l.lead ++ half_joined l.pieces (l.last ++ (l.trail ++ b'\n' ∷ half_written ls))

abbrev pub plain : List Line → Text
plain [] = []
plain (l ∷ ls) = l.lead ++ joined l.pieces (l.last ++ (l.trail ++ b'\n' ∷ plain ls))

pub crlf-write :
    (ls : List Line)
    → All IsLaidOut ls
    → remove_from crlf_continuation 0 (write ls) ≡ half_written ls
unfolding remove_from
crlf-write [] a = refl
crlf-write (l ∷ ls) (h, a) =
    crlf-blanks l.lead _ h.lead_blank
    ∙ ap (λ s. l.lead ++ s) (crlf-continued l.pieces _ h.pieces_kept)
    ∙ ap (λ s. l.lead ++ half_joined l.pieces s)
        (crlf-piece l.last _ h.last_kept.one_line h.last_kept.closed
          ∙ ap (λ s. l.last ++ s)
              (crlf-blanks l.trail _ h.trail_blank
                ∙ ap (λ s. l.trail ++ b'\n' ∷ s) (crlf-write ls a)))

pub lf-half_written :
    (ls : List Line) → All IsLaidOut ls → remove_from lf_continuation 0 (half_written ls) ≡ plain ls
unfolding remove_from
lf-half_written [] a = refl
lf-half_written (l ∷ ls) (h, a) =
    lf-blanks l.lead _ h.lead_blank
    ∙ ap (λ s. l.lead ++ s) (lf-half_joined l.pieces _ h.pieces_kept)
    ∙ ap (λ s. l.lead ++ joined l.pieces s)
        (lf-piece l.last _ h.last_kept.one_line h.last_kept.closed
          ∙ ap (λ s. l.last ++ s)
              (lf-blanks l.trail _ h.trail_blank
                ∙ ap (λ s. l.trail ++ b'\n' ∷ s) (lf-half_written ls a)))
