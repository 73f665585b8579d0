-- ===== src/Loader/Sanitize.antt =====
-- `TryFrom<&str> for LoadPath` of crates/axl-runtime/src/eval/load_path.rs.
pub mod Segments
pub mod Shape
use aspect_cli.Base.{
  ℕ, zero, suc, ◌+◌, ◌-◌, ◌*◌, ◌/◌, ◌%◌, ◌^◌, ◌≤◌, ◌<◌, ◌≡◌, refl, sym, ap, ap₂, ◌∙◌, subst, ◌≢◌,
  ◌↔◌, ◌⊎◌, inl, inr, Bool, true, false, not, ◌&&◌, ◌||◌, Option, none, some, List, [], ◌∷◌, ◌++◌,
  map, append-nil, append_assoc, arith, ltb, leb, ◌==◌, if◌then◌else◌, Bool-cases, leb→le, ltb→lt,
  ltb→le, eqb→eq, eqb_refl, if_either, length, get_elem?, is_empty, any, keep, pop, pop-append,
  length-append, keep-append, any-append, get_elem?-append_left, get_elem?-append_right, All,
  All-append, All-append_inv, All-keep, All-map, All-imp, Text, text, text_eq, text_eq→eq,
  text_eq_refl, text_eq_iff, strip_prefix, strip_prefix-append, strip_prefix→eq, starts_with,
  starts_with_char, ends_with_char, contains_char, contains_char-append, split_once, before_char,
  trim_start, trim_end, trim_matches, is_whitespace, trim, to_lower, split_add, split,
  eq_ignore_case, find_char, drop, split_once-append, split_once_cases,
}
use aspect_cli.Loader.{
  Component, LoadError, invalid_module_name, invalid_segment, surrounding_whitespace, leading_slash,
  backslash, double_at, no_axl_filename, double_slash, repeated_dot, Result, ok, err, ◌>>=◌,
}
use aspect_cli.Loader.LoadPath.{
  LoadPath, module_specifier, module_subpath, relative_path, guard, validate_module_name,
  validate_path_segment, components, normalize_rel_path_lexically, starts_with_dots,
}

-- the text behind the last slash, or all
unfoldable pub filename : Text → Text
unfolding contains_char
filename [] = []
filename (c ∷ s) =
    let rest = filename s in if contains_char b'/' s then rest else if c == b'/' then s else c ∷ s

-- `ends_with` on a string, with the suffix first
unfoldable pub ends_with : Text → Text → Bool
unfolding text_eq
ends_with p [] = is_empty p
ends_with p (c ∷ s) = text_eq (c ∷ s) p || ends_with p s

abbrev grow_first : ℕ → Option (Text × Text) → Option (Text × Text)
grow_first d none = none
grow_first d (some (a, b)) = some (d ∷ a, b)

-- the texts around the first double slash
unfoldable pub split_double : Text → Option (Text × Text)
split_double [] = none
split_double (c ∷ []) = none
split_double (c ∷ d ∷ s) =
    let rest = grow_first c (split_double (d ∷ s)) in
    if c == b'/' && d == b'/' then some ([], s) else rest

unfoldable pub has_double : Text → Bool
unfolding split_double
has_double s = elim (split_double s) [ none ↦ false | some p ↦ true ]

abbrev pub tail : Text → Text
tail [] = []
tail (c ∷ s) = s

-- the module name of a specifier, behind the `@`, and the path to validate
abbrev pub named_part : Text → Option (Text × Text) → Result (Option Text × Text)
named_part raw none = ok (none, raw)
named_part raw (some (front, rest)) =
    if contains_char b'/' (tail front)
    then ok (none, raw)
    else validate_module_name (tail front) >>= λ valid. ok (some (tail front), rest)

unfoldable pub module_part : Text → Result (Option Text × Text)
unfolding split_double
module_part raw =
    if starts_with_char b'@' raw then named_part raw (split_double raw) else ok (none, raw)

-- the loop over the segments: whether dots are allowed still, and whether one was seen
unfoldable pub validate_segments : Bool → Bool → List Text → Result (Unit {0})
unfolding text_eq
validate_segments allowing seen [] = ok tt
validate_segments false seen (s ∷ segments) =
    validate_path_segment s >>= λ valid. validate_segments false seen segments
validate_segments true seen (s ∷ segments) =
    let dot = validate_segments true true segments in
    let dots = validate_segments true seen segments in
    let name = validate_path_segment s >>= λ valid. validate_segments false seen segments in
    if text_eq s (text ".")
    then (if seen then err repeated_dot else dot)
    else if text_eq s (text "..")
    then dots
    else name

abbrev pub sorted : Option Text → List Component → LoadPath
sorted (some name) subpath = module_specifier name subpath
sorted none subpath =
    if starts_with_dots subpath then relative_path subpath else module_subpath subpath

-- from the checks of the whole text on
abbrev pub sanitize_part : Option Text × Text → Result LoadPath
sanitize_part (name, path) = guard (not (has_double path)) double_slash >>= λ single.
    validate_segments true false (split b'/' path) >>= λ valid.
    ok (sorted name (normalize_rel_path_lexically (components (split b'/' path))))

unfoldable pub try_from : Text → Result LoadPath
unfolding module_part validate_segments has_double filename ends_with
try_from raw = guard (text_eq (trim raw) raw) surrounding_whitespace >>= λ trimmed.
    guard (not (starts_with_char b'/' raw)) leading_slash >>= λ relative.
    guard (not (contains_char 92 raw)) backslash >>= λ slashes.
    guard (not (starts_with (text "@@") raw)) double_at >>= λ single.
    guard (ends_with (text ".axl") (filename raw)) no_axl_filename >>= λ named.
    module_part raw >>= sanitize_part
