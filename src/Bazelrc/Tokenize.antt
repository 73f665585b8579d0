-- ===== src/Bazelrc/Tokenize.antt =====
-- crates/bazelrc/src/tokenize.rs: the shell-like tokenizer of one line.
pub mod RoundTrip
use aspect_cli.Base.{
  ℕ, Bool, true, false, not, ◌||◌, List, [], ◌∷◌, ◌++◌, ◌==◌, if◌then◌else◌, is_empty, Text,
}

pub data State : Type 0 where
  normal single_quoted double_quoted : State

pub record Lexer : Type 0 where
  pub state : State
  pub current : Text
  pub in_token : Bool
  pub tokens : List Text

-- the start of a line
abbrev pub start : Lexer
start = record { state = normal; current = []; in_token = false; tokens = [] }

abbrev pub push_char : ℕ → Lexer → Lexer
push_char c l = record l { current = l.current ++ c ∷ [] }

-- a blank ends the token, if one has started
abbrev pub end_token : Lexer → Lexer
end_token l =
    if l.in_token
    then record l { tokens = l.tokens ++ l.current ∷ []; current = []; in_token = false }
    else l

-- what `\` does before it takes the next character
unfoldable pub begin_escape : State → Lexer → Lexer
begin_escape normal l = record l { in_token = true }
begin_escape single_quoted l = l
begin_escape double_quoted l = l

-- a `#` stops the line outside quotes
unfoldable pub is_comment : State → ℕ → Bool
is_comment normal c = c == b'#'
is_comment single_quoted c = false
is_comment double_quoted c = false

-- one character that is neither an escape nor the start of a comment
unfoldable pub step : State → ℕ → Lexer → Lexer
step normal c l =
    if c == b' ' || c == b'\t'
    then end_token l
    else if c == b'\''
    then record l { in_token = true; state = single_quoted }
    else if c == b'"'
    then record l { in_token = true; state = double_quoted }
    else push_char c (record l { in_token = true })
step single_quoted c l = if c == b'\'' then record l { state = normal } else push_char c l
step double_quoted c l = if c == b'"' then record l { state = normal } else push_char c l

-- an unterminated quote or a trailing token
unfoldable pub finish : Lexer → List Text
finish l = if l.in_token || not (is_empty l.current) then l.tokens ++ l.current ∷ [] else l.tokens

-- The loop over the characters; `\` takes the next one with it, and is dropped at the end of the line.
unfoldable pub run : Lexer → Text → List Text
unfolding begin_escape is_comment step finish
run l [] = finish l
run l (c ∷ []) =
    if is_comment l.state c
    then finish l
    else if c == b'\\'
    then finish (begin_escape l.state l)
    else finish (step l.state c l)
run l (c ∷ d ∷ s) =
    let stopped = finish l in
    let escaped = run (push_char d (begin_escape l.state l)) s in
    let onward = run (step l.state c l) (d ∷ s) in
    if is_comment l.state c then stopped else if c == b'\\' then escaped else onward

unfoldable pub tokenize : Text → List Text
unfolding run
tokenize line = run start line
