-- ===== src/Redaction/Events/Unmodified.antt =====
-- Events that are not reported as modified.
use aspect_cli.Redaction.Glob.{Lowercase}
use aspect_cli.Redaction.Events.{untyped, unredacted}
use mathlib.Core.Bool.{true≢false}
use aspect_cli.Redaction.Secrets.{
  Keeps, strip_url_creds-Keeps, redact_env_value-Keeps, or_input-Keeps,
}
use aspect_cli.Redaction.{
  redact_dashed, redact_named, borrowed, contains, owned, header_option_names, env_var_option_names,
  redact_env_value, known_git_repo_url_keys,
}
use aspect_cli.Base.{
  ◌≡◌, refl, ap, ap₂, ◌∙◌, inl, inr, Bool, true, false, ◌||◌, Option, none, some, List, [], ◌∷◌,
  ◌++◌, Bool-cases, Text, text, text_eq, strip_prefix, split_once,
}
use aspect_cli.Redaction.Events.{
  Edit, assign, edit_all, redact_option, CmdOption, redact_string_vec, redact_options_parsed,
  redact_flag, edit_at, strip_urls_at, strip_url_creds, redact_option_value, edited, Section, Cow,
  redact_section, OptionsParsed, chunk_list, option_list, redact_event, Json, effective_allow_env,
  redact_tokens, collect_allow_env, Payload, redact_metadata, redact_payload, or_raw,
  redact_command_line, unstructured_command_line, started, encode, structured_command_line,
  collect_allow_env_from_command_line, options_parsed, workspace_status, redact_item,
  build_metadata,
}

-- an edit that is not reported leaves the value as it was
abbrev pub IsHonest : {A : Type 0} → A → Edit A → Type 0
IsHonest x e = e.1 ≡ false → e.0 ≡ x

both_false : (a b : Bool) → (a || b) ≡ false → (a ≡ false) × (b ≡ false)
both_false true b h = absurd (true≢false h)
both_false false b h = (refl, h)

assign-IsHonest : (s : Text) (c : Cow) → IsHonest s (assign s c)
assign-IsHonest s (borrowed t) h = refl
assign-IsHonest s (owned t) h = absurd (true≢false h)

edit_all-IsHonest :
    {A : Type 0} (f : A → Edit A)
    → ((x : A) → IsHonest x (f x))
    → (xs : List A) → IsHonest xs (edit_all f xs)
edit_all-IsHonest f k [] h = refl
edit_all-IsHonest f k (x ∷ xs) h =
    let parts = both_false (f x).1 (edit_all f xs).1 h in
    ap₂ ◌∷◌ (k x parts.0) (edit_all-IsHonest f k xs parts.1)

edited-IsHonest :
    {A B : Type 0} (g : A → B) (x : A) (e : Edit A) → IsHonest x e → IsHonest (g x) (edited g e)
edited-IsHonest g x (a, changed) k h = ap g (k h)

module _ ⦃letters : Lowercase⦄ where
  redact_named-Keeps :
      (allow : List Text) (arg : Text) (o : Option (Text × Text))
      → Keeps arg (redact_named allow arg o)
  unfolding redact_named
  redact_named-Keeps allow arg none = refl
  redact_named-Keeps allow arg (some (name, value)) =
      let front = text "--" ++ (name ++ b'=' ∷ []) in
      elim (Bool-cases (contains header_option_names name)) [
        | inl header ↦ rw header tt
        | inr no_header ↦ elim (Bool-cases (contains env_var_option_names name)) [
          | inl env ↦ rw (no_header, env) (or_input-Keeps arg front (redact_env_value allow value))
          | inr other ↦ rw (no_header, other) (or_input-Keeps arg front (strip_url_creds value))
        ]
      ]

  redact_dashed-Keeps :
      (allow : List Text) (arg : Text) (o : Option Text) → Keeps arg (redact_dashed allow arg o)
  unfolding redact_dashed
  redact_dashed-Keeps allow arg none = strip_url_creds-Keeps arg
  redact_dashed-Keeps allow arg (some body) = redact_named-Keeps allow arg (split_once b'=' body)

  pub redact_flag-Keeps : (allow : List Text) (arg : Text) → Keeps arg (redact_flag allow arg)
  unfolding redact_flag
  redact_flag-Keeps allow arg = redact_dashed-Keeps allow arg (strip_prefix (text "--") arg)

  pub redact_option_value-Keeps :
      (allow : List Text) (name value : Text) → Keeps value (redact_option_value allow name value)
  unfolding redact_option_value
  redact_option_value-Keeps allow name value =
      elim (Bool-cases (contains header_option_names name)) [
        | inl header ↦ rw header tt
        | inr no_header ↦ elim (Bool-cases (contains env_var_option_names name)) [
          | inl env ↦ rw (no_header, env) (redact_env_value-Keeps allow value)
          | inr other ↦ rw (no_header, other) (strip_url_creds-Keeps value)
        ]
      ]

  redact_string_vec-IsHonest : (allow v : List Text) → IsHonest v (redact_string_vec allow v)
  unfolding redact_string_vec
  redact_string_vec-IsHonest allow v =
      edit_all-IsHonest _ (λ s. assign-IsHonest s (redact_flag allow s)) v

  redact_option-IsHonest : (allow : List Text) (o : CmdOption) → IsHonest o (redact_option allow o)
  unfolding redact_option
  redact_option-IsHonest allow o h =
      let (value, combined) =
        both_false
          (assign o.option_value (redact_option_value allow o.option_name o.option_value)).1
          (assign o.combined_form (redact_flag allow o.combined_form)).1 h in
      rw
        (
          assign-IsHonest o.option_value (redact_option_value allow o.option_name o.option_value)
              value,
          assign-IsHonest o.combined_form (redact_flag allow o.combined_form) combined,
        )
        refl

  redact_section-IsHonest : (allow : List Text) (s : Section) → IsHonest s (redact_section allow s)
  redact_section-IsHonest allow untyped = λ h. refl
  redact_section-IsHonest allow (chunk_list chunk) =
      edited-IsHonest chunk_list chunk (redact_string_vec allow chunk)
        (redact_string_vec-IsHonest allow chunk)
  redact_section-IsHonest allow (option_list option) =
      edited-IsHonest option_list option (edit_all (redact_option allow) option)
        (edit_all-IsHonest (redact_option allow) (redact_option-IsHonest allow) option)

  redact_options_parsed-IsHonest : (op : OptionsParsed) → IsHonest op (redact_options_parsed op)
  unfolding redact_options_parsed
  redact_options_parsed-IsHonest op h =
      let allow = effective_allow_env (
        collect_allow_env op.startup_options
        ++ (collect_allow_env op.explicit_startup_options
            ++ (collect_allow_env op.cmd_line ++ collect_allow_env op.explicit_cmd_line))) in
      let (a, rest) = both_false (redact_string_vec allow op.startup_options).1 _ h in
      let (b, others) = both_false (redact_string_vec allow op.explicit_startup_options).1 _ rest in
      let (c, d) =
        both_false (redact_string_vec allow op.cmd_line).1
          (redact_string_vec allow op.explicit_cmd_line).1 others in
      rw
        (
          redact_string_vec-IsHonest allow op.startup_options a,
          redact_string_vec-IsHonest allow op.explicit_startup_options b,
          redact_string_vec-IsHonest allow op.cmd_line c,
          redact_string_vec-IsHonest allow op.explicit_cmd_line d,
        )
        refl

strip-IsHonest : (v : Text) → IsHonest v (assign v (strip_url_creds v))
strip-IsHonest v = assign-IsHonest v (strip_url_creds v)

edit_at-IsHonest :
    (key : Text) (f : Text → Edit Text)
    → ((v : Text) → IsHonest v (f v))
    → (m : List (Text × Text)) → IsHonest m (edit_at key f m)
unfolding edit_at
edit_at-IsHonest key f k [] = λ h. refl
edit_at-IsHonest key f k ((j, v) ∷ m) = elim (Bool-cases (text_eq j key)) [
  | inl same ↦ rw same (edited-IsHonest (λ w. (j, w) ∷ m) v (f v) (k v))
  | inr other ↦
      rw other (edited-IsHonest (◌∷◌ (j, v)) m (edit_at key f m) (edit_at-IsHonest key f k m))
]

strip_urls_at-IsHonest :
    (keys : List Text) (m : List (Text × Text)) → IsHonest m (strip_urls_at keys m)
unfolding strip_urls_at
strip_urls_at-IsHonest [] m h = refl
strip_urls_at-IsHonest (key ∷ keys) m h =
    let first = edit_at key (λ v. assign v (strip_url_creds v)) m in
    let (here, later) = both_false first.1 (strip_urls_at keys first.0).1 h in
    strip_urls_at-IsHonest keys first.0 later
    ∙ edit_at-IsHonest key (λ v. assign v (strip_url_creds v)) strip-IsHonest m here

module _ ⦃letters : Lowercase⦄ where
  module _ (json : Json) where
    redact_tokens-IsHonest :
        (raw : Text) (o : Option (List Text)) → IsHonest raw (redact_tokens json raw o)
    redact_tokens-IsHonest raw none = λ h. refl
    redact_tokens-IsHonest raw (some tokens) =
        encoded (redact_string_vec (effective_allow_env (collect_allow_env tokens)) tokens)
      where
        written : (o : Option Text) → IsHonest raw (or_raw json raw o)
        written none h = refl
        written (some t) h = absurd (true≢false h)

        encoded : (e : Edit (List Text)) → IsHonest raw (encode json raw e)
        encoded (ts, false) = λ h. refl
        encoded (ts, true) = written (json.to_string ts)

    redact_metadata-IsHonest : (m : List (Text × Text)) → IsHonest m (redact_metadata json m)
    unfolding redact_metadata
    redact_metadata-IsHonest m h =
        let first = strip_urls_at known_git_repo_url_keys m in
        let edit : Text → Edit Text = λ raw. redact_tokens json raw (json.from_str raw) in
        let (here, later) =
          both_false first.1 (edit_at (text "EXPLICIT_COMMAND_LINE") edit first.0).1 h in
        edit_at-IsHonest (text "EXPLICIT_COMMAND_LINE") edit
          (λ raw. redact_tokens-IsHonest raw (json.from_str raw)) first.0 later
        ∙ strip_urls_at-IsHonest known_git_repo_url_keys m here

    redact_payload-IsHonest : (p : Payload) → IsHonest p (redact_payload json p)
    unfolding redact_payload redact_command_line
    redact_payload-IsHonest (started []) = λ h. refl
    redact_payload-IsHonest (started (c ∷ s)) = λ h. absurd (true≢false h)
    redact_payload-IsHonest (unstructured_command_line args) =
        edited-IsHonest unstructured_command_line args _
          (redact_string_vec-IsHonest (effective_allow_env (collect_allow_env args)) args)
    redact_payload-IsHonest (structured_command_line sections) =
        let allow = effective_allow_env (collect_allow_env_from_command_line sections) in
        edited-IsHonest structured_command_line sections _
          (edit_all-IsHonest (redact_section allow) (redact_section-IsHonest allow) sections)
    redact_payload-IsHonest (options_parsed op) =
        edited-IsHonest options_parsed op _ (redact_options_parsed-IsHonest op)
    redact_payload-IsHonest (workspace_status items) = edited-IsHonest workspace_status items _ (
        edit_all-IsHonest redact_item
          (λ kv.
            edited-IsHonest (λ v. (kv.0, v)) kv.1 (assign kv.1 (strip_url_creds kv.1))
              (strip-IsHonest kv.1))
          items)
    redact_payload-IsHonest (build_metadata m) =
        edited-IsHonest build_metadata m _ (redact_metadata-IsHonest m)
    redact_payload-IsHonest unredacted = λ h. refl

    -- An event that `redact_event` does not report as modified is unchanged, so its encoding may be used
    -- again.
    pub redact_event-unmodified :
        (event : Option Payload)
        → (redact_event json event).1 ≡ false
        → (redact_event json event).0 ≡ event
    unfolding redact_event
    redact_event-unmodified none h = refl
    redact_event-unmodified (some p) h = ap some (redact_payload-IsHonest p h)
