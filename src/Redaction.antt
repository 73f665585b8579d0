-- ===== src/Redaction.antt =====
-- crates/axl-runtime/src/engine/bazel/stream/redaction.rs: secrets are taken out of the flags and the
-- events of a build before anything else sees them.
pub mod Glob
pub mod AllowList
pub mod Urls
pub mod Secrets
pub mod Idempotent
pub mod Events
mod Tests
use aspect_cli.Redaction.Glob.{Lowercase}
use mathlib.Core.Option
use aspect_cli.Base.{
  ℕ, ◌+◌, ◌/◌, ◌<◌, Bool, ◌||◌, Option, none, some, List, [], ◌∷◌, ◌++◌, map, ◌==◌, if◌then◌else◌,
  any, Text, text, text_eq, strip_prefix, split_once, before_char, find_char, drop,
}
use aspect_cli.Redaction.AllowList.{is_allowed_env}

-- `Cow`: a borrowed text is the input itself
pub data Cow : Type 0 where
  borrowed owned : Text → Cow

abbrev pub into_owned : Cow → Text
into_owned (borrowed s) = s
into_owned (owned s) = s

-- puts a part in front of an owned text, and gives the whole input otherwise
abbrev pub or_input : Text → Text → Cow → Cow
or_input input front (borrowed s) = borrowed input
or_input input front (owned s) = owned (front ++ s)

abbrev pub redacted : Text
redacted = text "<REDACTED>"

abbrev pub header_option_names : List Text
header_option_names =
    text "remote_header"
    ∷ text "remote_cache_header"
    ∷ text "remote_exec_header"
    ∷ text "remote_downloader_header"
    ∷ text "bes_header"
    ∷ []

abbrev pub env_var_option_names : List Text
env_var_option_names =
    text "action_env"
    ∷ text "client_env"
    ∷ text "host_action_env"
    ∷ text "repo_env"
    ∷ text "test_env"
    ∷ []

abbrev pub known_git_repo_url_keys : List Text
known_git_repo_url_keys =
    text "REPO_URL"
    ∷ text "GIT_URL"
    ∷ text "TRAVIS_REPO_SLUG"
    ∷ text "BUILDKITE_REPO"
    ∷ text "GIT_REPOSITORY_URL"
    ∷ text "CIRCLE_REPOSITORY_URL"
    ∷ text "GITHUB_REPOSITORY"
    ∷ text "CI_REPOSITORY_URL"
    ∷ []

abbrev pub safe_env_values : List Text
safe_env_values =
    text ""
    ∷ text "0"
    ∷ text "1"
    ∷ text "true"
    ∷ text "false"
    ∷ text "True"
    ∷ text "False"
    ∷ text "TRUE"
    ∷ text "FALSE"
    ∷ []

-- `contains` on a list of words
unfoldable pub contains : List Text → Text → Bool
contains words s = any (text_eq s) words

abbrev pub scheme_mark : Text
scheme_mark = text "://"

abbrev pub or_later : ℕ → Option Text → Option (Text × Text) → Option (Text × Text)
or_later c (some rest) later = some (scheme_mark, rest)
or_later c none none = none
or_later c none (some (a, b)) = some (c ∷ a, b)

-- `find("://")`: the text through the mark, and the rest behind it
unfoldable pub split_scheme : Text → Option (Text × Text)
split_scheme [] = none
split_scheme (c ∷ s) = or_later c (strip_prefix scheme_mark (c ∷ s)) (split_scheme s)

-- what is kept of the text behind the mark, if its authority has an `@`: from there on
unfoldable pub host_part : Text → Option Text
unfolding find_char before_char
host_part rest = Option.map (λ at. drop at rest) (find_char b'@' (before_char b'/' rest))

abbrev pub replace_user : Text → Text → Option Text → Cow
replace_user s front none = borrowed s
replace_user s front (some host) = owned (front ++ (redacted ++ host))

abbrev pub strip_behind : Text → Option (Text × Text) → Cow
strip_behind s none = borrowed s
strip_behind s (some (front, rest)) = replace_user s front (host_part rest)

unfoldable pub strip_url_creds : Text → Cow
unfolding split_scheme host_part
strip_url_creds s = strip_behind s (split_scheme s)

abbrev pub is_separator : ℕ → Bool
is_separator c = c == b'=' || c == b':'

-- the text through the first `=` or `:`
unfoldable pub header_name : Text → Option Text
header_name [] = none
header_name (c ∷ s) =
    let rest = Option.map (◌∷◌ c) (header_name s) in if is_separator c then some (c ∷ []) else rest

abbrev pub hide_behind : Option Text → Text
hide_behind none = redacted
hide_behind (some name) = name ++ redacted

unfoldable pub redact_header_value : Text → Text
unfolding header_name
redact_header_value value = hide_behind (header_name value)

module _ ⦃letters : Lowercase⦄ where
  -- from the split at the first `=` on
  unfoldable pub redact_pair : List Text → Text → Option (Text × Text) → Cow
  redact_pair allow value none = strip_url_creds value
  redact_pair allow value (some (key, val)) =
      if contains safe_env_values val
      then borrowed value
      else if is_allowed_env key allow
      then or_input value (key ++ b'=' ∷ []) (strip_url_creds val)
      else if contains known_git_repo_url_keys key
      then or_input value (key ++ b'=' ∷ []) (strip_url_creds val)
      else owned (key ++ b'=' ∷ redacted)

  unfoldable pub redact_env_value : List Text → Text → Cow
  unfolding redact_pair
  redact_env_value allow value = redact_pair allow value (split_once b'=' value)

  unfoldable pub redact_option_value : List Text → Text → Text → Cow
  redact_option_value allow name value =
      if contains header_option_names name
      then owned (redact_header_value value)
      else if contains env_var_option_names name
      then redact_env_value allow value
      else strip_url_creds value

  -- from the split at the first `=` on; the dashes are off
  unfoldable pub redact_named : List Text → Text → Option (Text × Text) → Cow
  redact_named allow arg none = borrowed arg
  redact_named allow arg (some (name, value)) =
      let front = text "--" ++ (name ++ b'=' ∷ []) in
      if contains header_option_names name
      then owned (front ++ redact_header_value value)
      else if contains env_var_option_names name
      then or_input arg front (redact_env_value allow value)
      else or_input arg front (strip_url_creds value)

  unfoldable pub redact_dashed : List Text → Text → Option Text → Cow
  unfolding redact_named
  redact_dashed allow arg none = strip_url_creds arg
  redact_dashed allow arg (some body) = redact_named allow arg (split_once b'=' body)

  -- `redact_flag`; the first `=` is behind the dashes, which have none
  unfoldable pub redact_flag : List Text → Text → Cow
  unfolding redact_dashed
  redact_flag allow arg = redact_dashed allow arg (strip_prefix (text "--") arg)
