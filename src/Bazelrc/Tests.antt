-- ===== src/Bazelrc/Tests.antt =====
-- The properties of crates/bazelrc at concrete inputs, and runs of its functions.
mod Queries
use aspect_cli.Bazelrc.Expand.Termination.{expand_args_iff}
use aspect_cli.Bazelrc.Query.Partition.{as_flag, partition_expand_all-regular}
use aspect_cli.Bazelrc.Expand.Relation.{Expands}
use aspect_cli.Base.Dict.{has_key, get}
use aspect_cli.Bazelrc.Options.LastFlag.{options_for-push_flag}
use aspect_cli.Bazelrc.Load.Laws.{new-Ends, new-IsWellFormed}
use aspect_cli.Bazelrc.Resolve.Gates.{is_admitted, applicable_options-keep, filter_gated-invalid}
use aspect_cli.Bazelrc.Options.Flags.{flag_at}
use aspect_cli.Bazelrc.Options.Order.{
  from_files, moved, stacked, stacked_all, from_caller, options_for-merge,
}
use aspect_cli.Bazelrc.Options.Merge.{merge-IsWellFormed}
use aspect_cli.Bazelrc.Query.LastWins.{
  last_said, says, last_bool_flag-last_said, last-flag_value_list,
}
use aspect_cli.Bazelrc.Query.Folding.{as_override, partition_expand_all-overrides}
use aspect_cli.Bazelrc.Expand.Outcome.{IsResolved, expand_configs-IsResolved}
use aspect_cli.Bazelrc.Samples.{
  cli_rc, disk, file_rc, option_at, gated_at, one_file, no_environment, files, disk-files,
}
use aspect_cli.Bazelrc.Discover.Laws.{
  IsDistinct, is_member, discover_rc_files-IsDistinct, member-discover_rc_files,
  discover_rc_files-ignore_all, is_canonical_of,
}
use aspect_cli.Bazelrc.Load.{new}
use aspect_cli.Bazelrc.Parse.Gating.{Appends, IsGated, IsGated-parse_file}
use aspect_cli.Bazelrc.Preprocess.LineEndings.{to_crlf, process-to_crlf}
use aspect_cli.Bazelrc.Query.{is_common}
use aspect_cli.Bazelrc.Resolve.{value, failed, invalid_constraint}
use aspect_cli.Bazelrc.Options.{
  default_rc, merge, push_flag, always, common, ok, command_line, command_ancestors,
}
use aspect_cli.Bazelrc.Parse.{parse_file, path_join}
use aspect_cli.Bazelrc.Tokenize.RoundTrip.{bare, write_line, tokenize-write_line, single, double}
use aspect_cli.Base.{is_empty, true}
use aspect_cli.Bazelrc.Preprocess.Continuations.{Line, write, content, IsLaidOut}
use aspect_cli.Bazelrc.Preprocess.Layout.{process-write}
use aspect_cli.Bazelrc.Preprocess.Lines.{begins_with, ends_with}
use aspect_cli.Base.{
  ℕ, ◌≡◌, refl, ◌↔◌, false, not, none, some, List, [], ◌∷◌, ◌++◌, map, arith, leb, if◌then◌else◌,
  get_elem?, keep, All, Text, text, text_eq, strip_prefix, starts_with_char, ends_with_char,
  contains_char,
}
use aspect_cli.Bazelrc.Resolve.{Semver, applicable_options, filter_gated}
use aspect_cli.Bazelrc.Query.{flag_value_list, last?, last_bool_flag, partition_expand_all}
use aspect_cli.Bazelrc.Expand.{Context, expand_args, expand_configs}
use aspect_cli.Bazelrc.Options.WellFormed.{HasSource, IsWellFormed}
use aspect_cli.Bazelrc.Discover.{discover_rc_files, candidates, read_flags, read_flag}
use aspect_cli.Bazelrc.Parse.Termination.{Finishes, parse_file-Finishes}
use aspect_cli.Bazelrc.Options.{BazelRc, Ends, OnOk, RcOption, options_for, raw_options}
use aspect_cli.Bazelrc.Parse.{Parsed}
use aspect_cli.Bazelrc.Tokenize.RoundTrip.{Style}
use aspect_cli.Bazelrc.Preprocess.{process, is_line_blank}
use aspect_cli.Bazelrc.Tokenize.{tokenize}

tokenize_simple :
    (tokenize (text "build --jobs=4") ≡ text "build" ∷ text "--jobs=4" ∷ [])
    × (tokenize (text "build --flag#val") ≡ text "build" ∷ text "--flag" ∷ [])
    × (tokenize (text "build '--flag=hello world'") ≡ text "build" ∷ text "--flag=hello world" ∷ [])
    × (tokenize (text "build --flag\\") ≡ text "build" ∷ text "--flag" ∷ [])
    × (tokenize (text "build \"unterminated") ≡ text "build" ∷ text "unterminated" ∷ [])
unfolding tokenize
tokenize_simple = (refl, refl, refl, refl, refl)

process_continuation :
    process (text "build \\\n  --jobs=4 \n\nbuild --v\r\n")
    ≡ text "build   --jobs=4" ∷ text "build --v" ∷ []
unfolding process
process_continuation = refl

abbrev two_lines : Text
two_lines = text "build --a \\\n  --b\n\ntest --c\n"

-- an indented line in two pieces with a CRLF in between, a blank line, and a line in three pieces
abbrev laid_out : List Line
laid_out =
    record {
      lead = text "  ";
      pieces = (text "build --a ", true) ∷ [];
      last = text "--b";
      trail = text " \r";
    }
    ∷ record { lead = []; pieces = []; last = []; trail = text "\t" }
    ∷ record {
      lead = [];
      pieces = (text "test", false) ∷ (text " --c", true) ∷ [];
      last = text "=d";
      trail = [];
    }
    ∷ []

laid_out-IsLaidOut : All IsLaidOut laid_out
unfolding contains_char begins_with is_line_blank ends_with
laid_out-IsLaidOut = (
  record {
    lead_blank = refl;
    trail_blank = refl;
    pieces_kept = (record { one_line = refl; closed = refl }, tt);
    last_kept = record { one_line = refl; closed = refl };
    begins = refl;
    ends = refl;
  },
  (
    record {
      lead_blank = refl;
      trail_blank = refl;
      pieces_kept = tt;
      last_kept = record { one_line = refl; closed = refl };
      begins = refl;
      ends = refl;
    },
    (
      record {
        lead_blank = refl;
        trail_blank = refl;
        pieces_kept = (
          record { one_line = refl; closed = refl },
          (record { one_line = refl; closed = refl }, tt),
        );
        last_kept = record { one_line = refl; closed = refl };
        begins = refl;
        ends = refl;
      },
      tt,
    ),
  ),
)

process-write_example :
    process (write laid_out) ≡ keep (λ line. not (is_empty line)) (map content laid_out)
process-write_example = process-write laid_out laid_out-IsLaidOut

two_contents :
    keep (λ line. not (is_empty line)) (map content laid_out)
    ≡ text "build --a --b" ∷ text "test --c=d" ∷ []
two_contents = refl

abbrev styled : List (Style × Text)
styled = (bare, text "build") ∷ (single, text "--f=a b") ∷ (double, text "\"#\\") ∷ (bare, []) ∷ []

tokenize-write_line_example : tokenize (write_line styled []) ≡ map (λ p. p.1) styled
tokenize-write_line_example = tokenize-write_line styled

abbrev opening : Parsed
opening = record { sources = []; options = []; import_stack = [] }

IsGated-parse_file_example :
    OnOk
      (Appends IsGated opening)
      (parse_file 3 one_file (text "/w") (text "/w/x.rc") (some (text ">=7")) opening)
IsGated-parse_file_example =
    IsGated-parse_file 3 one_file (text "/w") (text "/w/x.rc") (text ">=7") opening

new-Ends_example : Ends (new 3 disk no_environment (text "/w") [] [])
new-Ends_example = new-Ends 3 disk (text "/w") files disk-files (omega arith) no_environment [] []

new-IsWellFormed_example :
    OnOk IsWellFormed
      (new 3 one_file no_environment (text "/w") [] (option_at 0 always (text "--v") ∷ []))
new-IsWellFormed_example =
    new-IsWellFormed 3 one_file no_environment (text "/w") [] (option_at 0 always (text "--v") ∷ [])

abbrev named_twice : List Text
named_twice = text "--bazelrc=/w/x.rc" ∷ text "--nohome_rc" ∷ text "--bazelrc=/w/x.rc" ∷ []

abbrev ignoring : List Text
ignoring = text "--bazelrc=/missing" ∷ text "--ignore_all_rc_files" ∷ []

pub file_rc-IsWellFormed : IsWellFormed file_rc
unfolding has_key text_eq
file_rc-IsWellFormed = record {
  keys = (refl, (refl, tt));
  entries = (((refl, omega arith), ((refl, omega arith), tt)), ((((refl, omega arith), tt)), tt));
}

cli_rc-IsWellFormed : IsWellFormed cli_rc
unfolding has_key
cli_rc-IsWellFormed = record { keys = (refl, tt); entries = (((refl, omega arith), tt), tt) }

options_for-merge_example :
    options_for (merge file_rc cli_rc) (text "build")
    ≡ (from_files file_rc cli_rc file_rc ++ moved file_rc cli_rc (from_files file_rc cli_rc cli_rc))
      ++ (stacked file_rc cli_rc common
          ++ (stacked_all file_rc cli_rc (command_ancestors (text "build"))
              ++ (stacked file_rc cli_rc (text "build")
                  ++ (from_caller file_rc cli_rc file_rc
                      ++ moved file_rc cli_rc (from_caller file_rc cli_rc cli_rc)))))
options_for-merge_example =
    options_for-merge file_rc cli_rc (text "build") file_rc-IsWellFormed cli_rc-IsWellFormed
