-- ===== src/Redaction/Secrets.antt =====
-- What the redaction of a flag hides, and its two forms.
use aspect_cli.Redaction.Glob.{Lowercase}
use mathlib.Core.Bool.{true≢false}
use aspect_cli.Base.{
  ℕ, ◌≡◌, refl, sym, ap, ◌∙◌, subst, inl, inr, true, false, ◌||◌, Option, none, some, List, [], ◌∷◌,
  ◌++◌, Bool-cases, any, All, Text, text, text_eq, text_eq→eq, strip_prefix-append, contains_char,
  split_once, split_once-append,
}
use aspect_cli.Redaction.{
  Cow, borrowed, owned, into_owned, or_input, redacted, header_option_names, env_var_option_names,
  known_git_repo_url_keys, safe_env_values, contains, is_separator, header_name,
  redact_header_value, redact_env_value, redact_option_value, redact_flag, strip_url_creds,
  redact_pair, is_allowed_env, redact_named,
}
use aspect_cli.Redaction.Urls.{borrowed-strip_url_creds}

-- a borrowed result is the input
abbrev pub Keeps : Text → Cow → Type 0
Keeps s (borrowed t) = t ≡ s
Keeps s (owned t) = Unit

Keeps-of : (s : Text) (c : Cow) → ((t : Text) → c ≡ borrowed t → t ≡ s) → Keeps s c
Keeps-of s (borrowed t) h = h t refl
Keeps-of s (owned t) h = tt

pub strip_url_creds-Keeps : (s : Text) → Keeps s (strip_url_creds s)
strip_url_creds-Keeps s = Keeps-of s (strip_url_creds s) (borrowed-strip_url_creds s)

pub or_input-Keeps : (s front : Text) (c : Cow) → Keeps s (or_input s front c)
or_input-Keeps s front (borrowed t) = refl
or_input-Keeps s front (owned t) = tt

module _ ⦃letters : Lowercase⦄ where
  redact_pair-Keeps :
      (allow : List Text) (value : Text) (o : Option (Text × Text))
      → Keeps value (redact_pair allow value o)
  unfolding redact_pair
  redact_pair-Keeps allow value none = strip_url_creds-Keeps value
  redact_pair-Keeps allow value (some (key, val)) =
      let front = key ++ b'=' ∷ [] in
      elim (Bool-cases (contains safe_env_values val)) [
        | inl safe ↦ rw safe refl
        | inr unsafe ↦ elim (Bool-cases (is_allowed_env key allow)) [
          | inl allowed ↦ rw (unsafe, allowed) (or_input-Keeps value front (strip_url_creds val))
          | inr not_allowed ↦ elim (Bool-cases (contains known_git_repo_url_keys key)) [
            | inl git ↦
                rw (unsafe, not_allowed, git) (or_input-Keeps value front (strip_url_creds val))
            | inr other ↦ rw (unsafe, not_allowed, other) tt
          ]
        ]
      ]

  pub redact_env_value-Keeps :
      (allow : List Text) (value : Text) → Keeps value (redact_env_value allow value)
  unfolding redact_env_value
  redact_env_value-Keeps allow value = redact_pair-Keeps allow value (split_once b'=' value)

-- what a part of a text in front of a redacted part gives
pub into_owned-or_input :
    (front s : Text) (c : Cow)
    → Keeps s c
    → into_owned (or_input (front ++ s) front c) ≡ front ++ into_owned c
into_owned-or_input front s (borrowed t) h = rw h refl
into_owned-or_input front s (owned t) h = refl

module _ ⦃letters : Lowercase⦄ where
  redact_named-option :
      (allow : List Text) (name value : Text)
      → let front = text "--" ++ (name ++ b'=' ∷ []) in
        into_owned (redact_named allow (front ++ value) (some (name, value)))
        ≡ front ++ into_owned (redact_option_value allow name value)
  unfolding redact_named redact_option_value
  redact_named-option allow name value =
      let front = text "--" ++ (name ++ b'=' ∷ []) in
      elim (Bool-cases (contains header_option_names name)) [
        | inl header ↦ rw header refl
        | inr no_header ↦ elim (Bool-cases (contains env_var_option_names name)) [
          | inl env ↦
              rw (no_header, env)
                (into_owned-or_input front value (redact_env_value allow value)
                  (redact_env_value-Keeps allow value))
          | inr other ↦
              rw (no_header, other)
                (into_owned-or_input front value (strip_url_creds value)
                  (strip_url_creds-Keeps value))
        ]
      ]

pub behind_name : (name value : Text) → name ++ b'=' ∷ value ≡ (name ++ b'=' ∷ []) ++ value
behind_name [] value = refl
behind_name (c ∷ name) value = ap (◌∷◌ c) (behind_name name value)

module _ ⦃letters : Lowercase⦄ where
  -- The two places where a structured command line holds an option are redacted alike: for a name with no
  -- `=` in it, the flag `--name=value` becomes `--name=` and what `value` becomes as the value of `name`.
  pub redact_flag-redact_option_value :
      (allow : List Text) (name value : Text)
      → contains_char b'=' name ≡ false
      → into_owned (redact_flag allow (text "--" ++ (name ++ b'=' ∷ value)))
        ≡ text "--" ++ (name ++ b'=' ∷ into_owned (redact_option_value allow name value))
  unfolding redact_flag
  redact_flag-redact_option_value allow name value plain =
      rw (strip_prefix-append (text "--") (name ++ b'=' ∷ value)) (
        rw (split_once-append b'=' name value plain) (
          rw
            (
              behind_name name value,
              behind_name name (into_owned (redact_option_value allow name value)),
            )
            (redact_named-option allow name value)))

header_name-cut :
    (label secret : Text) (sep : ℕ)
    → any is_separator label ≡ false
    → is_separator sep ≡ true
    → header_name (label ++ sep ∷ secret) ≡ some (label ++ sep ∷ [])
unfolding header_name
header_name-cut [] secret sep h k = rw k refl
header_name-cut (c ∷ label) secret sep h k = elim (Bool-cases (is_separator c)) [
  | inl e ↦ absurd (true≢false (sym (rw e refl) ∙ h))
  | inr e ↦ rw e (
      rw
        (header_name-cut label secret sep (subst (λ b. (b || any is_separator label) ≡ false) e h)
          k)
        refl)
]

contains-All :
    (P : Text → Type 0) (words : List Text) (s : Text) → All P words → contains words s ≡ true → P s
unfolding contains
contains-All P [] s a h = absurd (true≢false (sym h))
contains-All P (w ∷ words) s (p, a) h = elim (Bool-cases (text_eq s w)) [
  | inl same ↦ rw (text_eq→eq s w same) p
  | inr other ↦ contains-All P words s a (subst (λ b. (b || any (text_eq s) words) ≡ true) other h)
]

-- a name as it stands in front of the `=` of a flag
abbrev IsPlain : Text → Type 0
IsPlain name = contains_char b'=' name ≡ false

header_option_names-IsPlain : All IsPlain header_option_names
unfolding contains_char
header_option_names-IsPlain = (refl, (refl, (refl, (refl, (refl, tt)))))

abbrev IsEnvOnly : Text → Type 0
IsEnvOnly name = IsPlain name × (contains header_option_names name ≡ false)

env_var_option_names-IsEnvOnly : All IsEnvOnly env_var_option_names
unfolding contains_char contains text_eq
env_var_option_names-IsEnvOnly =
    ((refl, refl), ((refl, refl), ((refl, refl), ((refl, refl), ((refl, refl), tt)))))

module _ ⦃letters : Lowercase⦄ where
  option_value-header :
      (allow : List Text) (name label secret : Text) (sep : ℕ)
      → contains header_option_names name ≡ true
      → any is_separator label ≡ false
      → is_separator sep ≡ true
      → into_owned (redact_option_value allow name (label ++ sep ∷ secret))
        ≡ (label ++ sep ∷ []) ++ redacted
  unfolding redact_option_value redact_header_value
  option_value-header allow name label secret sep header plain is_sep =
      rw (header) (rw (header_name-cut label secret sep plain is_sep) refl)

  option_value-env :
      (allow : List Text) (name key secret : Text)
      → contains header_option_names name ≡ false
      → contains env_var_option_names name ≡ true
      → contains_char b'=' key ≡ false
      → contains safe_env_values secret ≡ false
      → is_allowed_env key allow ≡ false
      → contains known_git_repo_url_keys key ≡ false
      → into_owned (redact_option_value allow name (key ++ b'=' ∷ secret)) ≡ key ++ b'=' ∷ redacted
  unfolding redact_option_value redact_env_value redact_pair
  option_value-env allow name key secret no_header env plain unsafe not_allowed no_url =
      rw (no_header, env)
        (rw (split_once-append b'=' key secret plain) (rw (unsafe, not_allowed, no_url) refl))

  -- The value of a header is hidden: of a flag for headers, the name of the flag and the label in front of
  -- the first `=` or `:` are kept, and nothing of what follows.
  pub redact_flag-header :
      (allow : List Text) (name label secret : Text) (sep : ℕ)
      → contains header_option_names name ≡ true
      → any is_separator label ≡ false
      → is_separator sep ≡ true
      → into_owned (redact_flag allow (text "--" ++ (name ++ b'=' ∷ (label ++ sep ∷ secret))))
        ≡ text "--" ++ (name ++ b'=' ∷ ((label ++ sep ∷ []) ++ redacted))
  redact_flag-header allow name label secret sep header plain is_sep =
      redact_flag-redact_option_value allow name (label ++ sep ∷ secret)
        (contains-All IsPlain header_option_names name header_option_names-IsPlain header)
      ∙ ap (λ v. text "--" ++ (name ++ b'=' ∷ v))
          (option_value-header allow name label secret sep header plain is_sep)

  -- The value of an environment variable is hidden, unless it is a known harmless value, the name of the
  -- variable is on the allowlist, or it is a variable for the URL of a repository.
  pub redact_flag-env :
      (allow : List Text) (name key secret : Text)
      → contains env_var_option_names name ≡ true
      → contains_char b'=' key ≡ false
      → contains safe_env_values secret ≡ false
      → is_allowed_env key allow ≡ false
      → contains known_git_repo_url_keys key ≡ false
      → into_owned (redact_flag allow (text "--" ++ (name ++ b'=' ∷ (key ++ b'=' ∷ secret))))
        ≡ text "--" ++ (name ++ b'=' ∷ (key ++ b'=' ∷ redacted))
  redact_flag-env allow name key secret env plain unsafe not_allowed no_url =
      let kind =
        contains-All IsEnvOnly env_var_option_names name env_var_option_names-IsEnvOnly env in
      redact_flag-redact_option_value allow name (key ++ b'=' ∷ secret) kind.0
      ∙ ap (λ v. text "--" ++ (name ++ b'=' ∷ v))
          (option_value-env allow name key secret kind.1 env plain unsafe not_allowed no_url)
