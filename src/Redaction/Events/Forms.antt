-- ===== src/Redaction/Events/Forms.antt =====
-- The forms in which an event and a log hold a command line.
use aspect_cli.Redaction.Glob.{Lowercase}
use aspect_cli.Base.{
  ◌≡◌, refl, sym, ap, ap₂, ◌∙◌, false, some, List, [], ◌∷◌, ◌++◌, map, Text, text, contains_char,
}
use aspect_cli.Redaction.Events.Unmodified.{redact_flag-Keeps, redact_option_value-Keeps}
use aspect_cli.Redaction.Events.{
  CmdOption, Json, assign, redact_string_vec, redact_option, redact_event, redact_payload,
  redact_command_args, unstructured_command_line, effective_allow_env, collect_allow_env,
}
use aspect_cli.Redaction.{Cow, borrowed, owned, into_owned, redact_flag, redact_option_value}
use aspect_cli.Redaction.Secrets.{Keeps, redact_flag-redact_option_value}

assign-into_owned : (s : Text) (c : Cow) → Keeps s c → (assign s c).0 ≡ into_owned c
assign-into_owned s (borrowed t) k = sym k
assign-into_owned s (owned t) k = refl

module _ ⦃letters : Lowercase⦄ where
  redact_string_vec-map :
      (allow v : List Text)
      → (redact_string_vec allow v).0 ≡ map (λ a. into_owned (redact_flag allow a)) v
  unfolding redact_string_vec
  redact_string_vec-map allow [] = refl
  redact_string_vec-map allow (s ∷ v) =
      ap₂ ◌∷◌ (assign-into_owned s (redact_flag allow s) (redact_flag-Keeps allow s))
        (redact_string_vec-map allow v)

  -- The command line in an event is redacted exactly as `redact_command_args` redacts a command for a log,
  -- with the allowlist of that command line.
  pub redact_event-redact_command_args :
      (json : Json) (args : List Text)
      → (redact_event json (some (unstructured_command_line args))).0
        ≡ some (unstructured_command_line (redact_command_args args))
  unfolding redact_event redact_payload redact_command_args
  redact_event-redact_command_args json args =
      ap (λ v. some (unstructured_command_line v))
        (redact_string_vec-map (effective_allow_env (collect_allow_env args)) args)

-- the combined form of an option says the same as its name and its value
abbrev pub IsCombined : CmdOption → Type 0
IsCombined o =
    (contains_char b'=' o.option_name ≡ false)
    × (o.combined_form ≡ text "--" ++ (o.option_name ++ b'=' ∷ o.option_value))

module _ ⦃letters : Lowercase⦄ where
  -- An option of a structured command line whose combined form is `--name=value` has that form after the
  -- redaction too: the two copies of the value are redacted to the same text.
  pub redact_option-IsCombined :
      (allow : List Text) (o : CmdOption) → IsCombined o → IsCombined (redact_option allow o).0
  unfolding redact_option
  redact_option-IsCombined allow o (plain, same) = (
    plain,
    assign-into_owned o.combined_form (redact_flag allow o.combined_form)
          (redact_flag-Keeps allow o.combined_form)
        ∙ (ap (λ s. into_owned (redact_flag allow s)) same
            ∙ (redact_flag-redact_option_value allow o.option_name o.option_value plain
                ∙ ap (λ v. text "--" ++ (o.option_name ++ b'=' ∷ v))
                    (sym (
                      assign-into_owned o.option_value
                        (redact_option_value allow o.option_name o.option_value)
                        (redact_option_value-Keeps allow o.option_name o.option_value))))),
  )
