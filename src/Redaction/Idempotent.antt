-- ===== src/Redaction/Idempotent.antt =====
-- The redaction of a flag that is redacted already.
mod Values
use aspect_cli.Redaction.Glob.{Lowercase}
use mathlib.Core.Bool.{true≢false}
use aspect_cli.Redaction.Secrets.{
  behind_name, into_owned-or_input, strip_url_creds-Keeps, redact_flag-redact_option_value,
}
use aspect_cli.Base.{
  ◌≡◌, refl, sym, ap, ◌∙◌, subst, ◌⊎◌, inl, inr, Bool, true, false, ◌||◌, Option, none, some, List,
  [], ◌∷◌, ◌++◌, arith, if◌then◌else◌, Bool-cases, Text, text, text_eq, strip_prefix,
  strip_prefix-append, strip_prefix→eq, contains_char, contains_char-append, split_once,
  split_once-append, split_once_cases,
}
use aspect_cli.Redaction.{
  into_owned, or_input, redacted, header_option_names, env_var_option_names,
  known_git_repo_url_keys, safe_env_values, contains, is_separator, header_name,
  redact_header_value, redact_env_value, redact_pair, redact_option_value, redact_flag,
  strip_url_creds, is_allowed_env, redact_named,
}
use aspect_cli.Redaction.Urls.{strip_url_creds_cases, strip_prefix-front}
use aspect_cli.Redaction.Idempotent.Values.{
  stripped, strip_url_creds_idempotent, redact_header_value_idempotent, choice_idempotent,
  redacted_unsafe, or_input-stripped, contains_char-stripped, split_once-absent,
}

module _ ⦃letters : Lowercase⦄ where
  module _ (allow : List Text) where
    abbrev is_shown : Text → Bool
    is_shown key = is_allowed_env key allow || contains known_git_repo_url_keys key

    -- what stands behind `KEY=`
    abbrev new_value : Text → Text → Text
    new_value key val =
        if contains safe_env_values val
        then val
        else if is_shown key
        then stripped val
        else redacted

    redact_env_value-pair :
        (key val : Text)
        → contains_char b'=' key ≡ false
        → into_owned (redact_env_value allow (key ++ b'=' ∷ val)) ≡ key ++ b'=' ∷ new_value key val
    unfolding redact_env_value redact_pair
    redact_env_value-pair key val plain =
        rw (split_once-append b'=' key val plain)
          (elim (Bool-cases (contains safe_env_values val)) [
            | inl safe ↦ rw safe refl
            | inr unsafe ↦ elim (Bool-cases (is_allowed_env key allow)) [
              | inl allowed ↦ rw (unsafe, allowed) (or_input-stripped key val)
              | inr not_allowed ↦ elim (Bool-cases (contains known_git_repo_url_keys key)) [
                | inl git ↦ rw (unsafe, not_allowed, git) (or_input-stripped key val)
                | inr other ↦ rw (unsafe, not_allowed, other) refl
              ]
            ]
          ])

    new_value_idempotent : (key val : Text) → new_value key (new_value key val) ≡ new_value key val
    new_value_idempotent key val =
        choice_idempotent (contains safe_env_values) stripped (is_shown key) redacted val
          strip_url_creds_idempotent redacted_unsafe

    redact_env_value-plain :
        (value : Text)
        → contains_char b'=' value ≡ false
        → into_owned (redact_env_value allow value) ≡ stripped value
    unfolding redact_env_value redact_pair
    redact_env_value-plain value plain = rw (split_once-absent value plain) refl

    redact_env_value_idempotent :
        (value : Text)
        → into_owned (redact_env_value allow (into_owned (redact_env_value allow value)))
          ≡ into_owned (redact_env_value allow value)
    redact_env_value_idempotent value = elim (split_once_cases b'=' value) [
      | inl (h, plain) ↦
          ap (λ s. into_owned (redact_env_value allow s)) (redact_env_value-plain value plain)
          ∙ (redact_env_value-plain (stripped value) (contains_char-stripped value plain)
              ∙ (strip_url_creds_idempotent value ∙ sym (redact_env_value-plain value plain)))
      | inr (key, val, same, plain) ↦ rw same (
          ap (λ s. into_owned (redact_env_value allow s)) (redact_env_value-pair key val plain)
          ∙ (redact_env_value-pair key (new_value key val) plain
              ∙ (ap (λ v. key ++ b'=' ∷ v) (new_value_idempotent key val)
                  ∙ sym (redact_env_value-pair key val plain))))
    ]

    redact_option_value_idempotent :
        (name value : Text)
        → into_owned
            (redact_option_value allow name (into_owned (redact_option_value allow name value)))
          ≡ into_owned (redact_option_value allow name value)
    unfolding redact_option_value
    redact_option_value_idempotent name value =
        elim (Bool-cases (contains header_option_names name)) [
          | inl header ↦ rw header (redact_header_value_idempotent value)
          | inr no_header ↦ elim (Bool-cases (contains env_var_option_names name)) [
            | inl env ↦ rw (no_header, env) (redact_env_value_idempotent value)
            | inr other ↦ rw (no_header, other) (strip_url_creds_idempotent value)
          ]
        ]

    -- what stays of an argument that is no flag is no flag
    strip_prefix-stripped :
        (arg : Text)
        → strip_prefix (text "--") arg ≡ none
        → strip_prefix (text "--") (stripped arg) ≡ none
    strip_prefix-stripped arg h = elim (strip_url_creds_cases arg) [
      | inl e ↦ rw e h
      | inr (front, user, host, same, le, e, again) ↦ rw e (
          strip_prefix-front (text "--") front (user ++ host) (redacted ++ host) (omega arith)
            (subst (λ x. strip_prefix (text "--") x ≡ none) same h))
    ]

    redact_flag-positional :
        (arg : Text)
        → strip_prefix (text "--") arg ≡ none
        → into_owned (redact_flag allow arg) ≡ stripped arg
    unfolding redact_flag
    redact_flag-positional arg h = rw h refl

    redact_flag-bare :
        (body : Text)
        → split_once b'=' body ≡ none
        → into_owned (redact_flag allow (text "--" ++ body)) ≡ text "--" ++ body
    unfolding redact_flag redact_named
    redact_flag-bare body h = rw (strip_prefix-append (text "--") body) (rw h refl)

    -- Redacting an argument twice is the same as doing it once, for every argument and every allowlist.
    pub redact_flag_idempotent :
        (arg : Text)
        → into_owned (redact_flag allow (into_owned (redact_flag allow arg)))
          ≡ into_owned (redact_flag allow arg)
    redact_flag_idempotent arg = dashed (strip_prefix (text "--") arg) refl
      where
        again : Text → Text
        again s = into_owned (redact_flag allow s)

        dashed :
            (o : Option Text) → strip_prefix (text "--") arg ≡ o → again (again arg) ≡ again arg
        dashed none h =
            ap again (redact_flag-positional arg h)
            ∙ (redact_flag-positional (stripped arg) (strip_prefix-stripped arg h)
                ∙ (strip_url_creds_idempotent arg ∙ sym (redact_flag-positional arg h)))
        dashed (some body) h =
            rw (strip_prefix→eq (text "--") arg body h) (elim (split_once_cases b'=' body) [
              | inl (e, plain) ↦ ap again (redact_flag-bare body e)
              | inr (name, value, same, plain) ↦ rw same (
                  ap again (redact_flag-redact_option_value allow name value plain)
                  ∙ (redact_flag-redact_option_value allow name
                        (into_owned (redact_option_value allow name value)) plain
                      ∙ (ap (λ v. text "--" ++ (name ++ b'=' ∷ v))
                            (redact_option_value_idempotent name value)
                          ∙ sym (redact_flag-redact_option_value allow name value plain))))
            ])
