-- ===== src/Bazelrc/Tests/Queries.antt =====
-- The properties of the expansion, the queries and the version gates at concrete inputs.
use aspect_cli.Bazelrc.Expand.{expand_args, Context}
use aspect_cli.Base.{
  ◌≡◌, refl, ◌↔◌, false, not, none, some, List, [], ◌∷◌, map, arith, leb, if◌then◌else◌, keep, text,
  text_eq, starts_with_char,
}
use aspect_cli.Bazelrc.Query.{last_bool_flag, flag_value_list, partition_expand_all, is_common}
use aspect_cli.Bazelrc.Query.LastWins.{last_said, says, last_bool_flag-last_said}
use aspect_cli.Bazelrc.Query.Overrides.{applies}
use aspect_cli.Base.{Option, Bool, true, Text, before_char, strip_prefix}
use aspect_cli.Bazelrc.Query.Partition.{as_flag, partition_expand_all-regular}
use aspect_cli.Bazelrc.Resolve.{Semver, filter_gated, failed, invalid_constraint}
use aspect_cli.Bazelrc.Resolve.Gates.{filter_gated-invalid}
use aspect_cli.Bazelrc.Expand.Relation.{Expands}
use aspect_cli.Bazelrc.Expand.Termination.{expand_args_iff}
use aspect_cli.Bazelrc.Samples.{file_rc, option_at, gated_at}
use aspect_cli.Bazelrc.Options.{release, RcOption, BazelRc, ok, common, default_rc, raw_options}

abbrev build_context : Context
build_context = record {
  rc = file_rc;
  command = text "build";
  platform = text "linux";
  implicit_platform_config = false;
  skip_config_if_missing = [];
}

expand_args_iff_example :
    (expand_args 16 build_context [] (raw_options file_rc (text "build")) []
      ≡ ok (
          option_at 0 (text "build") (text "--jobs=4")
          ∷ option_at 0 (text "build:ci") (text "--keep_going")
          ∷ []))
    ↔ Expands build_context [] (raw_options file_rc (text "build")) (
        option_at 0 (text "build") (text "--jobs=4")
        ∷ option_at 0 (text "build:ci") (text "--keep_going")
        ∷ [])
unfolding text_eq
expand_args_iff_example =
    expand_args_iff 16 build_context (raw_options file_rc (text "build")) _ (omega arith)

abbrev overrides : List RcOption
overrides =
    option_at 0 common (text "--remote_download_outputs")
    ∷ option_at 0 common (text "minimal")
    ∷ option_at 0 (text "build") (text "--jobs")
    ∷ option_at 0 (text "build") (text "8")
    ∷ []

partition_expand_all-regular_example :
    (partition_expand_all overrides).1 ≡ map as_flag (keep (λ o. not (is_common o)) overrides)
partition_expand_all-regular_example = partition_expand_all-regular overrides

-- the options of every version
abbrev unconditional : Option Text → Bool
unconditional none = true
unconditional (some c) = false

folded_value :
    flag_value_list (keep (applies unconditional) overrides) (text "--remote_download_outputs")
    ≡ text "minimal" ∷ []
unfolding starts_with_char before_char text_eq strip_prefix flag_value_list
folded_value = refl

abbrev switches : List RcOption
switches =
    option_at 0 common (text "--cache")
    ∷ option_at 0 common (text "--nocache")
    ∷ option_at 0 common (text "--cache=maybe")
    ∷ []

last_bool_flag-last_said_example :
    last_bool_flag switches (text "--cache") ≡ last_said (map (says (text "cache")) switches)
last_bool_flag-last_said_example = last_bool_flag-last_said switches (text "cache")

-- constraints are the names of major versions that are admitted from on
abbrev major_versions : Semver
major_versions = record {
  parse_req = λ c. if text_eq c (text ">=7") then some (λ v. leb 7 v.major) else none;
  parse_version = λ s. none;
}

abbrev gated_rc : BazelRc
gated_rc = record default_rc {
  sources = text "/w/.bazelrc" ∷ [];
  version = some (release 6 0 0);
  options =
      (
        text "build",
        option_at 0 (text "build") (text "--a")
            ∷ gated_at 0 (text "build") (text "--b") (text ">=7")
            ∷ [],
      )
      ∷ [];
}

filter_gated-invalid_example :
    filter_gated major_versions (release 6 0 0) (
      option_at 0 common (text "--a")
      ∷ gated_at 0 common (text "--b") (text "seven")
      ∷ option_at 0 common (text "--c")
      ∷ [])
    ≡ failed (invalid_constraint (text "seven"))
unfolding text_eq
filter_gated-invalid_example =
    filter_gated-invalid major_versions (release 6 0 0) (option_at 0 common (text "--a") ∷ [])
      (option_at 0 common (text "--c") ∷ []) (gated_at 0 common (text "--b") (text "seven"))
      (text "seven") (tt, tt) refl refl
