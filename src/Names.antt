-- ===== src/Names.antt =====
-- crates/axl-runtime/src/engine/names.rs: names of tasks, features, traits, arguments and commands, and
-- how task.rs and feature.rs beside it name what a variable is bound to. Only ASCII letters have a case:
-- a variable of Starlark has no other.
pub mod Metadata
pub mod Args
mod Tests
pub mod Fixed
pub mod Conversion
pub mod Words
pub mod Spelling
pub mod Grammar
use aspect_cli.Base.{
  ℕ, zero, suc, ◌+◌, ◌-◌, ◌*◌, ◌/◌, ◌%◌, ◌^◌, ◌≤◌, ◌<◌, ◌≡◌, refl, sym, ap, ap₂, ◌∙◌, subst, ◌≢◌,
  ◌↔◌, ◌⊎◌, inl, inr, Bool, true, false, not, ◌&&◌, ◌||◌, Option, none, some, List, [], ◌∷◌, ◌++◌,
  map, append-nil, append_assoc, arith, ltb, leb, ◌==◌, if◌then◌else◌, Bool-cases, leb→le, ltb→lt,
  ltb→le, eqb→eq, eqb_refl, if_either, length, get_elem?, is_empty, any, keep, pop, pop-append,
  length-append, keep-append, any-append, get_elem?-append_left, get_elem?-append_right, All,
  All-append, All-append_inv, All-keep, All-map, All-imp, In-append, In-last, Text, text, text_eq,
  text_eq→eq, text_eq_refl, text_eq_iff, strip_prefix, strip_prefix-append, strip_prefix→eq,
  starts_with, starts_with_char, ends_with_char, contains_char, contains_char-append, split_once,
  before_char, trim_start, trim_end, trim_matches, is_whitespace, trim, to_lower, split_add, split,
  eq_ignore_case, find_char, drop, split_once-append, split_once_cases, is_upper, is_lower,
  is_digit, all, last_is, first_is,
}

-- the errors of a validation, without their texts
pub data NameError : Type 0 where
  name_empty only_underscore wrong_first trailing_dash consecutive_dashes too_many_groups :
      NameError
  invalid_character : ℕ → NameError

pub data Validity : Type 0 where
  valid : Validity
  invalid : NameError → Validity

-- the next check, where the one before passed
abbrev pub and_then : Validity → Validity → Validity
and_then valid v = v
and_then (invalid e) v = invalid e

abbrev pub is_alphanumeric : ℕ → Bool
is_alphanumeric c = is_upper c || is_lower c || is_digit c

abbrev pub is_word_char : ℕ → Bool
is_word_char c = is_lower c || is_digit c

-- the loop over the characters behind the first
unfoldable pub validate_chars : (ℕ → Bool) → Text → Validity
validate_chars allowed [] = valid
validate_chars allowed (c ∷ s) =
    let rest = validate_chars allowed s in if allowed c then rest else invalid (invalid_character c)

-- the first character, and the loop
unfoldable pub validate_with : (ℕ → Bool) → (ℕ → Bool) → Text → Validity
unfolding validate_chars
validate_with first allowed [] = invalid name_empty
validate_with first allowed (c ∷ s) =
    if first c then validate_chars allowed s else invalid wrong_first

unfoldable pub validate_type_name : Text → Validity
unfolding validate_with
validate_type_name name = validate_with is_upper is_alphanumeric name

abbrev pub without_underscore : Text → Text
without_underscore [] = []
without_underscore (c ∷ s) = if c == b'_' then s else c ∷ s

unfoldable pub validate_trait_name : Text → Validity
unfolding validate_with
validate_trait_name name =
    let rest = validate_with is_upper is_alphanumeric (without_underscore name) in
    if is_empty (without_underscore name) then invalid only_underscore else rest

unfoldable pub validate_arg_name : Text → Validity
unfolding validate_with
validate_arg_name name = validate_with is_lower (λ c. is_word_char c || c == b'_') name

-- `contains("--")`
unfoldable pub has_dashes : Text → Bool
has_dashes [] = false
has_dashes (c ∷ s) = (c == b'-' && first_is (λ d. d == b'-') s) || has_dashes s

unfoldable pub validate_command_name : Text → Validity
unfolding validate_with has_dashes
validate_command_name name =
    and_then (validate_with is_lower (λ c. is_word_char c || c == b'-') name) (
      if last_is (λ c. c == b'-') name
      then invalid trailing_dash
      else if has_dashes name
      then invalid consecutive_dashes
      else valid)

-- whether a capital starts a word, from the characters around it
unfoldable pub starts_word : Option ℕ → Text → Bool
starts_word none next = false
starts_word (some p) next = is_lower p || is_digit p || (is_upper p && first_is is_lower next)

-- a word in front, or none
abbrev pub push_word : Bool → Text → List Text → List Text
push_word true word words = word ∷ words
push_word false word words = words

-- the loop of `camel_to_kebab_words`: the character before, the word so far, and the rest
unfoldable pub words_from : Option ℕ → Text → Text → List Text
unfolding starts_word to_lower
words_from prev current [] = push_word (not (is_empty current)) (map to_lower current) []
words_from prev current (c ∷ s) =
    let cut = is_upper c && starts_word prev s && not (is_empty current) in
    push_word cut (map to_lower current)
      (words_from (some c) (if cut then c ∷ [] else current ++ c ∷ []) s)

unfoldable pub camel_to_kebab_words : Text → List Text
unfolding words_from
camel_to_kebab_words s = words_from none [] s

-- `join` on strings
unfoldable pub join : Text → List Text → Text
join separator [] = []
join separator (w ∷ []) = w
join separator (w ∷ v ∷ words) = w ++ (separator ++ join separator (v ∷ words))

abbrev pub flat_map : (Text → List Text) → List Text → List Text
flat_map f [] = []
flat_map f (s ∷ segments) = f s ++ flat_map f segments

unfoldable pub to_command_name : Text → Text
unfolding split camel_to_kebab_words join
to_command_name var_name =
    join (text "-")
      (keep (λ w. not (is_empty w)) (flat_map camel_to_kebab_words (split b'_' var_name)))

-- `to_uppercase` of a first letter
unfoldable pub capitalize : Text → Text
capitalize [] = []
capitalize (c ∷ s) = (if is_lower c then c - 32 else c) ∷ s

-- `split` at underscores and dashes
unfoldable pub split_either : Text → List Text
split_either [] = [] ∷ []
split_either (c ∷ s) = split_add (c == b'_' || c == b'-') c (split_either s)

unfoldable pub to_display_name : Text → Text
unfolding split_either capitalize join
to_display_name name =
    join (text " ") (map capitalize (keep (λ w. not (is_empty w)) (split_either name)))

unfoldable pub camel_to_display_name : Text → Text
unfolding camel_to_kebab_words capitalize join
camel_to_display_name camel = join (text " ") (map capitalize (camel_to_kebab_words camel))
