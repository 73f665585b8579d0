-- ===== src/Names/Tests.antt =====
-- The properties of names at concrete texts.
use aspect_cli.Base.{
  Text, none, some, Option, Bool, true, false, text_eq, split_once, ◌≡◌, refl, ◌↔◌, [], ◌∷◌, text,
  split, to_lower,
}
use aspect_cli.Names.{
  validate_command_name, valid, invalid, trailing_dash, to_command_name, validate_type_name,
  validate_with, validate_chars, has_dashes, camel_to_kebab_words, words_from, starts_word, join,
  to_display_name, split_either, capitalize, camel_to_display_name,
}
use aspect_cli.Names.Args.{Arg, string, Values, with_default, validated_long, valid_segment, custom}
use aspect_cli.Names.Args.Overlay.{IsOverlay, with_default-IsOverlay}
use aspect_cli.Names.Spelling.{IsCommandName}
use aspect_cli.Names.Grammar.{validate_command_name_iff}
use aspect_cli.Names.Conversion.{to_command_name-IsValid}
use aspect_cli.Names.Fixed.{to_command_name-validate_command_name}
use aspect_cli.Names.Metadata.{Task, export_task, validate_task, validate_groups}
use aspect_cli.Names.Metadata.Exports.{IsNamedTask, export_task-IsNamedTask}

capitals : to_command_name (text "HTTPSRedirect") ≡ text "https-redirect"
unfolding to_command_name camel_to_kebab_words words_from starts_word to_lower split join
capitals = refl

snakes : to_command_name (text "s3__upload") ≡ text "s3-upload"
unfolding to_command_name camel_to_kebab_words words_from starts_word to_lower split join
snakes = refl

displayed : to_display_name (text "github-status_checks") ≡ text "Github Status Checks"
unfolding to_display_name split_either capitalize join
displayed = refl

displayed_type : camel_to_display_name (text "CIBuild") ≡ text "Ci Build"
unfolding camel_to_display_name capitalize camel_to_kebab_words words_from starts_word to_lower join
displayed_type = refl

dash_at_end : validate_command_name (text "ci-") ≡ invalid trailing_dash
unfolding validate_command_name validate_with validate_chars has_dashes
dash_at_end = refl

validate_command_name_iff_example :
    (validate_command_name (text "ci--build") ≡ valid) ↔ IsCommandName (text "ci--build")
validate_command_name_iff_example = validate_command_name_iff (text "ci--build")

ci_build-IsType : validate_type_name (text "CIBuild") ≡ valid
unfolding validate_type_name validate_with validate_chars
ci_build-IsType = refl

to_command_name-IsValid_example : validate_command_name (to_command_name (text "CIBuild")) ≡ valid
to_command_name-IsValid_example = to_command_name-IsValid (text "CIBuild") ci_build-IsType

ci_build-IsCommand : validate_command_name (text "ci-build") ≡ valid
unfolding validate_command_name validate_with validate_chars has_dashes
ci_build-IsCommand = refl

to_command_name-validate_command_name_example : to_command_name (text "ci-build") ≡ text "ci-build"
to_command_name-validate_command_name_example =
    to_command_name-validate_command_name (text "ci-build") ci_build-IsCommand

abbrev unnamed : Task
unnamed = record { kind = []; friendly_kind = [] }

group_is_accepted : validate_task unnamed.kind (text "ci" ∷ []) ≡ valid
unfolding validate_task validate_groups validate_command_name validate_with validate_chars
    has_dashes
group_is_accepted = refl

export_task-IsNamedTask_example :
    IsNamedTask (text "ci_build") unnamed (export_task (text "ci_build") unnamed)
export_task-IsNamedTask_example =
    export_task-IsNamedTask (text "ci_build") unnamed (text "ci" ∷ []) group_is_accepted

-- values that are texts
abbrev texts : Values Text
texts = record {
  to_string = λ v. some v;
  to_bool = λ v. none;
  to_int = λ v. none;
  to_uint = λ v. none;
  to_strings = λ v. some (v ∷ []);
  to_bools = λ v. none;
  to_ints = λ v. none;
  to_uints = λ v. none;
  matches = λ typ v. none;
  unpack_frozen = λ v. some v;
}

abbrev mode : Arg Text
mode =
    string
      (record {
        required = false;
        default = text "fast";
        short = none;
        long = some (text "build:mode");
        description = none;
      })
      (some (text "fast" ∷ text "full" ∷ [])) none

abbrev is_overlaid : Option (Arg Text) → Bool
is_overlaid none = false
is_overlaid (some a) = true

other_default : is_overlaid (with_default texts mode (text "full")) ≡ true
unfolding with_default text_eq
other_default = refl

not_allowed : with_default texts mode (text "slow") ≡ none
unfolding with_default text_eq
not_allowed = refl

accepted_long : validated_long (some (text "build:mode")) ≡ true
unfolding validated_long split_once valid_segment
accepted_long = refl

with_default-IsOverlay_example :
    IsOverlay texts mode (text "full") (with_default texts mode (text "full"))
with_default-IsOverlay_example = with_default-IsOverlay texts mode (text "full")

-- a value is its own type
abbrev sized : Values Text
sized = record texts { matches = λ typ value. some (text_eq typ value) }

abbrev untyped : Arg Text
untyped = custom none none none

untyped_takes_any : is_overlaid (with_default sized untyped (text "full")) ≡ true
unfolding with_default
untyped_takes_any = refl
