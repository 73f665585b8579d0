-- ===== src/Redaction/Events.antt =====
-- `redact_event` of redaction.rs: which fields of a build event are redacted. The types of the events are
-- generated from the protocol; they have the fields that the code reads. The crate `serde_json` is a
-- parameter, for lists of strings.
pub mod Unmodified
pub mod Forms
use aspect_cli.Redaction.Glob.{Lowercase}
use aspect_cli.Base.{
  ◌+◌, Bool, true, false, ◌||◌, Option, none, some, List, [], ◌∷◌, ◌++◌, map, if◌then◌else◌,
  is_empty, Text, text, text_eq, split_once, eq_ignore_case,
}
use aspect_cli.Redaction.{
  Cow, borrowed, owned, into_owned, redact_option_value, redact_flag, strip_url_creds,
  known_git_repo_url_keys,
}
use aspect_cli.Redaction.AllowList.{
  patterns, or_nothing, parse_allow_env_flag, collect_allow_env, effective_allow_env,
}

pub record CmdOption : Type 0 where
  pub option_name : Text
  pub option_value : Text
  pub combined_form : Text

-- a section of a structured command line, by its `section_type`
pub data Section : Type 0 where
  untyped : Section
  chunk_list : List Text → Section
  option_list : List CmdOption → Section

pub record OptionsParsed : Type 0 where
  pub startup_options : List Text
  pub explicit_startup_options : List Text
  pub cmd_line : List Text
  pub explicit_cmd_line : List Text

-- `Payload`: what is redacted, and all else
pub data Payload : Type 0 where
  started : Text → Payload
  unstructured_command_line : List Text → Payload
  structured_command_line : List Section → Payload
  options_parsed : OptionsParsed → Payload
  workspace_status : List (Text × Text) → Payload
  build_metadata : List (Text × Text) → Payload
  unredacted : Payload

pub record Json : Type 0 where
  pub from_str : Text → Option (List Text)
  pub to_string : List Text → Option Text

-- a value, and whether it was modified
abbrev pub Edit : Type 0 → Type 0
Edit A = A × Bool

-- `if let Cow::Owned(new) = … { *s = new; modified = true; }`
abbrev pub assign : Text → Cow → Edit Text
assign s (borrowed t) = (s, false)
assign s (owned t) = (t, true)

-- a loop over `iter_mut` that tells whether one of the items was modified
abbrev pub edit_all : {A : Type 0} → (A → Edit A) → List A → Edit (List A)
edit_all f [] = ([], false)
edit_all f (x ∷ xs) =
    let (y, changed) = f x in let (ys, others) = edit_all f xs in (y ∷ ys, changed || others)

module _ ⦃letters : Lowercase⦄ where
  unfoldable pub redact_string_vec : List Text → List Text → Edit (List Text)
  redact_string_vec allow v = edit_all (λ s. assign s (redact_flag allow s)) v

  unfoldable pub redact_option : List Text → CmdOption → Edit CmdOption
  redact_option allow o =
      let (value, changed) =
        assign o.option_value (redact_option_value allow o.option_name o.option_value) in
      let (combined, others) = assign o.combined_form (redact_flag allow o.combined_form) in
      (record o { option_value = value; combined_form = combined }, changed || others)

abbrev pub edited : {A B : Type 0} → (A → B) → Edit A → Edit B
edited f (a, changed) = (f a, changed)

module _ ⦃letters : Lowercase⦄ where
  abbrev pub redact_section : List Text → Section → Edit Section
  redact_section allow untyped = (untyped, false)
  redact_section allow (chunk_list chunk) = edited chunk_list (redact_string_vec allow chunk)
  redact_section allow (option_list option) =
      edited option_list (edit_all (redact_option allow) option)

  unfoldable pub redact_command_line : List Text → List Section → Edit (List Section)
  unfolding redact_string_vec redact_option
  redact_command_line allow sections = edit_all (redact_section allow) sections

-- the list of an option `build_metadata` with the value `ALLOW_ENV=…`
abbrev pub option_patterns : Option (Text × Text) → List Text
option_patterns none = []
option_patterns (some (key, val)) =
    if eq_ignore_case key (text "ALLOW_ENV") then patterns val else []

unfoldable pub option_allow_env : List CmdOption → List Text
option_allow_env [] = []
option_allow_env (o ∷ options) =
    or_nothing (parse_allow_env_flag o.combined_form)
    ++ ((if eq_ignore_case o.option_name (text "build_metadata")
          then option_patterns (split_once b'=' o.option_value)
          else [])
        ++ option_allow_env options)

unfoldable pub collect_allow_env_from_command_line : List Section → List Text
unfolding option_allow_env
collect_allow_env_from_command_line [] = []
collect_allow_env_from_command_line (untyped ∷ sections) =
    collect_allow_env_from_command_line sections
collect_allow_env_from_command_line (chunk_list chunk ∷ sections) =
    collect_allow_env chunk ++ collect_allow_env_from_command_line sections
collect_allow_env_from_command_line (option_list option ∷ sections) =
    option_allow_env option ++ collect_allow_env_from_command_line sections

module _ ⦃letters : Lowercase⦄ where
  unfoldable pub redact_options_parsed : OptionsParsed → Edit OptionsParsed
  unfolding redact_string_vec
  redact_options_parsed op =
      let user_patterns =
        collect_allow_env op.startup_options
        ++ (collect_allow_env op.explicit_startup_options
            ++ (collect_allow_env op.cmd_line ++ collect_allow_env op.explicit_cmd_line)) in
      let allow = effective_allow_env user_patterns in
      let (a, changed_a) = redact_string_vec allow op.startup_options in
      let (b, changed_b) = redact_string_vec allow op.explicit_startup_options in
      let (c, changed_c) = redact_string_vec allow op.cmd_line in
      let (d, changed_d) = redact_string_vec allow op.explicit_cmd_line in
      (
        record {
          startup_options = a;
          explicit_startup_options = b;
          cmd_line = c;
          explicit_cmd_line = d;
        },
        changed_a || (changed_b || (changed_c || changed_d)),
      )

abbrev pub redact_item : Text × Text → Edit (Text × Text)
redact_item (key, value) = edited (λ v. (key, v)) (assign value (strip_url_creds value))

-- `get_mut(key)`, and a change of the value that it finds
unfoldable pub edit_at : Text → (Text → Edit Text) → List (Text × Text) → Edit (List (Text × Text))
edit_at key f [] = ([], false)
edit_at key f ((k, v) ∷ m) =
    let rest = edited (◌∷◌ (k, v)) (edit_at key f m) in
    if text_eq k key then edited (λ w. (k, w) ∷ m) (f v) else rest

-- the loop over the keys that hold URLs
unfoldable pub strip_urls_at : List Text → List (Text × Text) → Edit (List (Text × Text))
unfolding edit_at
strip_urls_at [] m = (m, false)
strip_urls_at (key ∷ keys) m =
    let (n, changed) = edit_at key (λ v. assign v (strip_url_creds v)) m in
    let (r, others) = strip_urls_at keys n in (r, changed || others)

module _ ⦃letters : Lowercase⦄ where
  module _ (json : Json) where
    abbrev pub or_raw : Text → Option Text → Edit Text
    or_raw raw none = (raw, false)
    or_raw raw (some encoded) = (encoded, true)

    abbrev pub encode : Text → Edit (List Text) → Edit Text
    encode raw (tokens, false) = (raw, false)
    encode raw (tokens, true) = or_raw raw (json.to_string tokens)

    abbrev pub redact_tokens : Text → Option (List Text) → Edit Text
    redact_tokens raw none = (raw, false)
    redact_tokens raw (some tokens) =
        encode raw (redact_string_vec (effective_allow_env (collect_allow_env tokens)) tokens)

    unfoldable pub redact_metadata : List (Text × Text) → Edit (List (Text × Text))
    unfolding strip_urls_at edit_at redact_string_vec
    redact_metadata m =
        let (n, changed) = strip_urls_at known_git_repo_url_keys m in
        let (r, others) =
          edit_at (text "EXPLICIT_COMMAND_LINE") (λ raw. redact_tokens raw (json.from_str raw)) n in
        (r, changed || others)

    unfoldable pub redact_payload : Payload → Edit Payload
    unfolding redact_string_vec redact_command_line redact_options_parsed redact_metadata
    redact_payload (started description) =
        if is_empty description then (started description, false) else (started [], true)
    redact_payload (unstructured_command_line args) =
        edited unstructured_command_line
          (redact_string_vec (effective_allow_env (collect_allow_env args)) args)
    redact_payload (structured_command_line sections) = edited structured_command_line (
        redact_command_line (effective_allow_env (collect_allow_env_from_command_line sections))
          sections)
    redact_payload (options_parsed op) = edited options_parsed (redact_options_parsed op)
    redact_payload (workspace_status items) = edited workspace_status (edit_all redact_item items)
    redact_payload (build_metadata metadata) = edited build_metadata (redact_metadata metadata)
    redact_payload unredacted = (unredacted, false)

    unfoldable pub redact_event : Option Payload → Edit (Option Payload)
    unfolding redact_payload
    redact_event none = (none, false)
    redact_event (some payload) = edited some (redact_payload payload)

  unfoldable pub redact_command_args : List Text → List Text
  redact_command_args args =
      let allow = effective_allow_env (collect_allow_env args) in
      map (λ a. into_owned (redact_flag allow a)) args

  -- the closure that `redactor` returns
  unfoldable pub redactor : List Text → Text → Text
  redactor flags flag =
      into_owned (redact_flag (effective_allow_env (collect_allow_env flags)) flag)
