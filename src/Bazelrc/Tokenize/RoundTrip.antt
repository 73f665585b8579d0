-- ===== src/Bazelrc/Tokenize/RoundTrip.antt =====
-- Ways to write a token that `tokenize` reads back: a backslash before each character, single
-- quotes, or double quotes. Each piece is written in front of the text that follows it.
use aspect_cli.Bazelrc.Tokenize.{tokenize}
use aspect_cli.Base.{
  ℕ, ◌≡◌, refl, ◌∙◌, inl, inr, Bool, true, false, ◌||◌, List, [], ◌∷◌, ◌++◌, map, append-nil,
  append_assoc, arith, ◌==◌, if◌then◌else◌, Bool-cases, Text,
}
use aspect_cli.Bazelrc.Tokenize.{
  State, normal, single_quoted, double_quoted, Lexer, push_char, begin_escape, is_comment, step,
  run,
}

pub data Style : Type 0 where
  bare single double : Style

abbrev pub backslashed : Text → Text → Text
backslashed [] rest = rest
backslashed (c ∷ w) rest = b'\\' ∷ c ∷ backslashed w rest

-- the inside of a quoted token and its closing quote `q`
abbrev pub inside : ℕ → Text → Text → Text
inside q [] rest = q ∷ rest
inside q (c ∷ w) rest =
    if c == q || c == b'\\' then b'\\' ∷ c ∷ inside q w rest else c ∷ inside q w rest

-- an empty token has to be quoted
abbrev pub write_token : Style → Text → Text → Text
write_token bare [] rest = b'\'' ∷ b'\'' ∷ rest
write_token bare (c ∷ w) rest = backslashed (c ∷ w) rest
write_token single w rest = b'\'' ∷ inside b'\'' w rest
write_token double w rest = b'"' ∷ inside b'"' w rest

-- the tokens of a line with a blank behind each
abbrev pub write_line : List (Style × Text) → Text → Text
write_line [] rest = rest
write_line ((style, w) ∷ ws) rest = write_token style w (b' ' ∷ write_line ws rest)

abbrev at : State → Text → Bool → List Text → Lexer
at s cur b ts = record { state = s; current = cur; in_token = b; tokens = ts }

run-step :
    (l : Lexer) (c : ℕ) (rest : Text)
    → is_comment l.state c ≡ false
    → (c == b'\\') ≡ false
    → run l (c ∷ rest) ≡ run (step l.state c l) rest
unfolding run
run-step l c [] h k = rw (h, k)
run-step l c (d ∷ s) h k = rw (h, k)

is_comment-backslash : (s : State) → is_comment s b'\\' ≡ false
unfolding is_comment
is_comment-backslash normal = refl
is_comment-backslash single_quoted = refl
is_comment-backslash double_quoted = refl

run-escape :
    (l : Lexer) (c : ℕ) (rest : Text)
    → run l (b'\\' ∷ c ∷ rest) ≡ run (push_char c (begin_escape l.state l)) rest
unfolding run
run-escape l c rest = rw (is_comment-backslash l.state)

run-backslashed :
    (w cur rest : Text) (ts : List Text)
    → run (at normal cur true ts) (backslashed w rest) ≡ run (at normal (cur ++ w) true ts) rest
unfolding begin_escape
run-backslashed [] cur rest ts = rw append-nil
run-backslashed (c ∷ w) cur rest ts =
    run-escape _ c _ ∙ run-backslashed w (cur ++ c ∷ []) rest ts ∙ rw append_assoc

-- the quoted state that a quote character opens
data Quotes : State → ℕ → Type 0 where
  by_single : Quotes single_quoted b'\''
  by_double : Quotes double_quoted b'"'

run_open :
    {s : State} {q : ℕ} (cur rest : Text) (b : Bool) (ts : List Text)
    → Quotes s q
    → run (at normal cur b ts) (q ∷ rest) ≡ run (at s cur true ts) rest
unfolding step is_comment
run_open cur rest b ts by_single = run-step _ _ rest refl refl
run_open cur rest b ts by_double = run-step _ _ rest refl refl

run_close :
    {s : State} {q : ℕ} (cur rest : Text) (ts : List Text)
    → Quotes s q
    → run (at s cur true ts) (q ∷ rest) ≡ run (at normal cur true ts) rest
unfolding step is_comment
run_close cur rest ts by_single = run-step _ _ rest refl refl
run_close cur rest ts by_double = run-step _ _ rest refl refl

run_plain :
    {s : State} {q : ℕ} (c : ℕ) (cur rest : Text) (ts : List Text)
    → Quotes s q
    → (c == q || c == b'\\') ≡ false
    → run (at s cur true ts) (c ∷ rest) ≡ run (at s (cur ++ c ∷ []) true ts) rest
unfolding step is_comment
run_plain c cur rest ts by_single h = run-step _ c rest refl (ground arith) ∙ ground arith
run_plain c cur rest ts by_double h = run-step _ c rest refl (ground arith) ∙ ground arith

escape_quoted :
    {s : State} {q : ℕ} (c : ℕ) (cur rest : Text) (ts : List Text)
    → Quotes s q
    → run (at s cur true ts) (b'\\' ∷ c ∷ rest) ≡ run (at s (cur ++ c ∷ []) true ts) rest
escape_quoted c cur rest ts by_single = run-escape _ c rest ∙ unfold begin_escape in refl
escape_quoted c cur rest ts by_double = run-escape _ c rest ∙ unfold begin_escape in refl

run-inside :
    {s : State} {q : ℕ} (w cur rest : Text) (ts : List Text)
    → Quotes s q
    → run (at s cur true ts) (inside q w rest) ≡ run (at normal (cur ++ w) true ts) rest
run-inside [] cur rest ts o = rw append-nil (run_close cur rest ts o)
run-inside {s} {q} (c ∷ w) cur rest ts o =
    let later = run-inside w (cur ++ c ∷ []) rest ts o ∙ rw append_assoc in
    elim (Bool-cases (c == q || c == b'\\')) [
      | inl special ↦ rw special (escape_quoted c cur _ ts o ∙ later)
      | inr plain ↦ rw plain (run_plain c cur _ ts o plain ∙ later)
    ]

-- Between tokens, one written token is read whole.
run-write_token :
    (style : Style) (w rest : Text) (ts : List Text)
    → run (at normal [] false ts) (write_token style w rest) ≡ run (at normal w true ts) rest
run-write_token bare [] rest ts = run_open [] _ false ts by_single ∙ run_close [] rest ts by_single
run-write_token bare (c ∷ w) rest ts =
    run-escape _ c _ ∙ unfold begin_escape in run-backslashed w (c ∷ []) rest ts
run-write_token single w rest ts =
    run_open [] _ false ts by_single ∙ run-inside w [] rest ts by_single
run-write_token double w rest ts =
    run_open [] _ false ts by_double ∙ run-inside w [] rest ts by_double

run_blank :
    (w rest : Text) (ts : List Text)
    → run (at normal w true ts) (b' ' ∷ rest) ≡ run (at normal [] false (ts ++ w ∷ [])) rest
unfolding step is_comment
run_blank w rest ts = run-step _ _ rest refl refl

run-write_line :
    (ws : List (Style × Text)) (rest : Text) (ts : List Text)
    → run (at normal [] false ts) (write_line ws rest)
      ≡ run (at normal [] false (ts ++ map (λ p. p.1) ws)) rest
run-write_line [] rest ts = rw append-nil
run-write_line ((style, w) ∷ ws) rest ts =
    run-write_token style w _ ts
    ∙ run_blank w _ ts
    ∙ run-write_line ws rest (ts ++ w ∷ [])
    ∙ rw append_assoc

-- Every list of tokens, each written in any of the three styles, is read back as it was.
pub tokenize-write_line :
    (ws : List (Style × Text)) → tokenize (write_line ws []) ≡ map (λ p. p.1) ws
unfolding tokenize
tokenize-write_line ws = run-write_line ws [] [] ∙ unfold run in refl

-- A `#` behind the tokens hides the rest of the line, whatever it is.
pub tokenize-write_line_comment :
    (ws : List (Style × Text)) (rest : Text)
    → tokenize (write_line ws (b'#' ∷ rest)) ≡ map (λ p. p.1) ws
unfolding tokenize
tokenize-write_line_comment ws [] = run-write_line ws _ [] ∙ unfold run in refl
tokenize-write_line_comment ws (d ∷ rest) = run-write_line ws _ [] ∙ unfold run in refl
