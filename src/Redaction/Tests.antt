-- ===== src/Redaction/Tests.antt =====
-- The properties of the redaction at concrete inputs.
use aspect_cli.Redaction.Glob.{Lowercase}
use aspect_cli.Redaction.AllowList.{is_allowed_env}
use aspect_cli.Redaction.Glob.Sound.{Matches, glob_match-Matches}
use aspect_cli.Redaction.Events.Unmodified.{redact_event-unmodified}
use aspect_cli.Redaction.Glob.{glob_match}
use aspect_cli.Redaction.Secrets.{redact_flag-env}
use aspect_cli.Redaction.Idempotent.{redact_flag_idempotent}
use aspect_cli.Base.{
  ◌≡◌, refl, none, some, [], ◌∷◌, map, Text, text, text_eq, strip_prefix, contains_char, to_lower,
  false,
}
use aspect_cli.Redaction.{into_owned, redact_flag, strip_url_creds, contains}
use aspect_cli.Redaction.Events.{CmdOption, Json, Payload, workspace_status, redact_event}

-- the lower case of texts of ASCII letters
instance abbrev ascii : Lowercase
ascii = record { to_lowercase = λ s. map to_lower s; of_ascii = λ s h. refl }

abbrev url_flag : Text
url_flag = text "--bes_backend=grpcs://user:pw@host:1985"

redact_flag_idempotent_example :
    into_owned (redact_flag [] (into_owned (redact_flag [] url_flag)))
    ≡ into_owned (redact_flag [] url_flag)
redact_flag_idempotent_example = redact_flag_idempotent [] url_flag

redact_flag-env_example :
    into_owned (redact_flag [] (text "--action_env=TOKEN=abc"))
    ≡ text "--action_env=TOKEN=<REDACTED>"
unfolding contains contains_char is_allowed_env text_eq
redact_flag-env_example =
    redact_flag-env [] (text "action_env") (text "TOKEN") (text "abc") refl refl refl refl refl

glob_match-Matches_example : Matches (map to_lower (text "CI_*")) (map to_lower (text "ci_id"))
unfolding glob_match to_lower
glob_match-Matches_example = glob_match-Matches (text "CI_*") (text "ci_id") refl

-- a star in the name is taken for a literal match of the star in the pattern, to which the loop then does
-- not return
star_in_name : glob_match (text "*a") (text "*ba") ≡ false
unfolding glob_match to_lower
star_in_name = refl

abbrev no_json : Json
no_json = record { from_str = λ s. none; to_string = λ l. none }

abbrev plain_status : Payload
plain_status = workspace_status ((text "BUILD_USER", text "me") ∷ [])

redact_event-unmodified_example : (redact_event no_json (some plain_status)).0 ≡ some plain_status
unfolding redact_event strip_url_creds strip_prefix
redact_event-unmodified_example = redact_event-unmodified no_json (some plain_status) refl

abbrev token_option : CmdOption
token_option = record {
  option_name = text "repo_env";
  option_value = text "TOKEN=abc";
  combined_form = text "--repo_env=TOKEN=abc";
}
