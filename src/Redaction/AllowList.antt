-- ===== src/Redaction/AllowList.antt =====
-- The names of environment variables whose values may be shown, in redaction.rs.
use aspect_cli.Redaction.Glob.{Lowercase}
use aspect_cli.Base.{
  Bool, not, ◌||◌, Option, none, some, List, [], ◌∷◌, ◌++◌, map, if◌then◌else◌, is_empty, any, keep,
  Text, text, strip_prefix, contains_char, split_once, trim, split, eq_ignore_case,
}
use aspect_cli.Redaction.Glob.{glob_match}

abbrev pub default_allow_env : List Text
default_allow_env =
    text "USER"
    ∷ text "GITHUB_ACTOR"
    ∷ text "BUILDKITE_BUILD_CREATOR"
    ∷ text "GITLAB_USER_NAME"
    ∷ text "CIRCLE_USERNAME"
    ∷ text "GITHUB_REPOSITORY"
    ∷ text "BUILDKITE_REPO"
    ∷ text "TRAVIS_REPO_SLUG"
    ∷ text "GIT_URL"
    ∷ text "GIT_REPOSITORY_URL"
    ∷ text "CI_REPOSITORY_URL"
    ∷ text "REPO_URL"
    ∷ text "CIRCLE_REPOSITORY_URL"
    ∷ text "GITHUB_SHA"
    ∷ text "CIRCLE_SHA1"
    ∷ text "BUILDKITE_COMMIT"
    ∷ text "TRAVIS_COMMIT"
    ∷ text "BITRISE_GIT_COMMIT"
    ∷ text "GIT_COMMIT"
    ∷ text "VOLATILE_GIT_COMMIT"
    ∷ text "CI_COMMIT_SHA"
    ∷ text "COMMIT_SHA"
    ∷ text "GITHUB_RUN_ID"
    ∷ text "BUILDKITE_BUILD_URL"
    ∷ text "BUILDKITE_JOB_ID"
    ∷ text "GITHUB_HEAD_REF"
    ∷ text "GITHUB_REF"
    ∷ text "CIRCLE_BRANCH"
    ∷ text "BUILDKITE_BRANCH"
    ∷ text "TRAVIS_BRANCH"
    ∷ text "BITRISE_GIT_BRANCH"
    ∷ text "GIT_BRANCH"
    ∷ text "CI_COMMIT_BRANCH"
    ∷ text "CI_MERGE_REQUEST_SOURCE_BRANCH_NAME"
    ∷ text "CI"
    ∷ text "CI_RUNNER"
    ∷ []

module _ ⦃letters : Lowercase⦄ where
  -- one entry of the list: a glob, or a name
  unfoldable pub allows : Text → Text → Bool
  unfolding glob_match eq_ignore_case contains_char
  allows name pat =
      if contains_char b'*' pat || contains_char b'?' pat
      then glob_match pat name
      else eq_ignore_case pat name

  unfoldable pub is_allowed_env : Text → List Text → Bool
  unfolding allows
  is_allowed_env name allow = any (allows name) allow

abbrev pub patterns : Text → List Text
patterns value = keep (λ s. not (is_empty s)) (map trim (split b',' value))

-- the list behind `ALLOW_ENV=`, from the split at the first `=` on
abbrev pub allow_list : Option (Text × Text) → Option (List Text)
allow_list none = none
allow_list (some (key, value)) =
    if eq_ignore_case key (text "ALLOW_ENV") then some (patterns value) else none

abbrev pub metadata_list : Option Text → Option (List Text)
metadata_list none = none
metadata_list (some rest) = allow_list (split_once b'=' rest)

unfoldable pub parse_allow_env_flag : Text → Option (List Text)
parse_allow_env_flag flag = metadata_list (strip_prefix (text "--build_metadata=") flag)

abbrev pub or_nothing : Option (List Text) → List Text
or_nothing none = []
or_nothing (some v) = v

unfoldable pub collect_allow_env : List Text → List Text
unfolding parse_allow_env_flag
collect_allow_env [] = []
collect_allow_env (f ∷ flags) = or_nothing (parse_allow_env_flag f) ++ collect_allow_env flags

unfoldable pub effective_allow_env : List Text → List Text
effective_allow_env user_patterns = default_allow_env ++ user_patterns
