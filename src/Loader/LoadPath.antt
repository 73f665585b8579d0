-- ===== src/Loader/LoadPath.antt =====
-- crates/axl-runtime/src/eval/load_path.rs: the path of a `load` statement is checked and sorted.
-- Reserved names are compared by their ASCII letters: no other letter has an upper case among theirs.
use aspect_cli.Base.{
  ℕ, ◌+◌, Bool, true, false, not, ◌&&◌, ◌||◌, List, [], ◌∷◌, ◌++◌, ltb, leb, ◌==◌, if◌then◌else◌,
  is_empty, any, pop, Text, text, text_eq, contains_char, before_char, trim, eq_ignore_case,
  is_lower, is_digit, all, first_is, last_is,
}
use aspect_cli.Loader.{
  Component, root_dir, cur_dir, parent_dir, normal, LoadError, invalid_module_name, invalid_segment,
  Result, ok, err,
}

-- `LoadPath`
pub data LoadPath : Type 0 where
  module_specifier : Text → List Component → LoadPath
  module_subpath : List Component → LoadPath
  relative_path : List Component → LoadPath

abbrev pub guard : Bool → LoadError → Result (Unit {0})
guard true e = ok tt
guard false e = err e

unfoldable pub is_module_char : ℕ → Bool
is_module_char c = is_lower c || is_digit c || c == b'.' || c == b'-' || c == b'_'

unfoldable pub validate_module_name : Text → Result (Unit {0})
unfolding is_module_char
validate_module_name name =
    guard
      (first_is is_lower name
        && last_is (λ c. is_lower c || is_digit c) name
        && all is_module_char name)
      invalid_module_name

-- the length in bytes of a character, and of a text, in UTF-8
abbrev pub utf8_width : ℕ → ℕ
utf8_width c = if ltb c 0x80 then 1 else if ltb c 0x800 then 2 else if ltb c 0x10000 then 3 else 4

unfoldable pub byte_length : Text → ℕ
byte_length [] = 0
byte_length (c ∷ s) = utf8_width c + byte_length s

abbrev pub reserved_names : List Text
reserved_names =
    text "CON"
    ∷ text "PRN"
    ∷ text "AUX"
    ∷ text "NUL"
    ∷ text "COM0"
    ∷ text "COM1"
    ∷ text "COM2"
    ∷ text "COM3"
    ∷ text "COM4"
    ∷ text "COM5"
    ∷ text "COM6"
    ∷ text "COM7"
    ∷ text "COM8"
    ∷ text "COM9"
    ∷ text "LPT0"
    ∷ text "LPT1"
    ∷ text "LPT2"
    ∷ text "LPT3"
    ∷ text "LPT4"
    ∷ text "LPT5"
    ∷ text "LPT6"
    ∷ text "LPT7"
    ∷ text "LPT8"
    ∷ text "LPT9"
    ∷ []

-- the base name without regard to case, with the first dot as its end
unfoldable pub is_reserved : Text → Bool
unfolding eq_ignore_case before_char
is_reserved segment = any (eq_ignore_case (before_char b'.' segment)) reserved_names

-- `char::is_control`: the Unicode category Cc
abbrev pub is_control : ℕ → Bool
is_control c = ltb c 0x20 || (leb 0x7f c && leb c 0x9f)

unfoldable pub is_path_char : ℕ → Bool
is_path_char c =
    not (is_control c) && not (contains_char c (92 ∷ 47 ∷ 58 ∷ 42 ∷ 63 ∷ 34 ∷ 60 ∷ 62 ∷ 124 ∷ []))

unfoldable pub validate_path_segment : Text → Result (Unit {0})
unfolding is_reserved is_path_char
validate_path_segment segment =
    guard
      (not (is_empty segment)
        && text_eq (trim segment) segment
        && leb (byte_length segment) 255
        && not (last_is (λ c. c == b' ' || c == b'.') segment)
        && not (is_reserved segment)
        && all is_path_char segment)
      invalid_segment

-- `Path::components` on the pieces between slashes: a dot counts only in front
unfoldable pub later_components : List Text → List Component
unfolding text_eq
later_components [] = []
later_components (s ∷ segments) =
    let rest = later_components segments in
    if is_empty s || text_eq s (text ".")
    then rest
    else if text_eq s (text "..")
    then parent_dir ∷ rest
    else normal s ∷ rest

unfoldable pub components : List Text → List Component
unfolding later_components
components [] = []
components (s ∷ segments) =
    if is_empty s && not (is_empty segments)
    then root_dir ∷ later_components segments
    else if text_eq s (text ".")
    then cur_dir ∷ later_components segments
    else later_components (s ∷ segments)

abbrev pub is_normal : Component → Bool
is_normal (normal s) = true
is_normal _ = false

abbrev pub ends_normal : List Component → Bool
ends_normal [] = false
ends_normal (c ∷ []) = is_normal c
ends_normal (c ∷ d ∷ cs) = ends_normal (d ∷ cs)

-- the loop of `normalize_rel_path_lexically`, with the components so far
unfoldable pub normalize_from : List Component → List Component → List Component
unfolding pop
normalize_from done [] = done
normalize_from done (parent_dir ∷ cs) =
    normalize_from (if ends_normal done then pop done else done ++ parent_dir ∷ []) cs
normalize_from done (cur_dir ∷ cs) = normalize_from done cs
normalize_from done (root_dir ∷ cs) = normalize_from (done ++ root_dir ∷ []) cs
normalize_from done (normal s ∷ cs) = normalize_from (done ++ normal s ∷ []) cs

abbrev pub starts_with_dots : List Component → Bool
starts_with_dots (cur_dir ∷ cs) = true
starts_with_dots (parent_dir ∷ cs) = true
starts_with_dots _ = false

abbrev pub starts_with_cur : List Component → Bool
starts_with_cur (cur_dir ∷ cs) = true
starts_with_cur _ = false

unfoldable pub normalize_rel_path_lexically : List Component → List Component
unfolding normalize_from
normalize_rel_path_lexically path =
    let result = normalize_from [] path in
    if starts_with_cur path && not (starts_with_dots result) then cur_dir ∷ result else result
