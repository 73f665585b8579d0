-- ===== src/Bazelrc/Options/LastFlag.antt =====
-- The place of a pushed flag among the options.
use aspect_cli.Base.{
  ℕ, ◌≡◌, refl, ap, ap₂, ◌∙◌, inl, inr, true, false, not, Option, some, List, [], ◌∷◌, ◌++◌,
  append-nil, append_assoc, Bool-cases, length, get_elem?, any, keep, keep-append, All, Text,
  text_eq, text_eq_refl,
}
use aspect_cli.Base.Dict.{get, get-extend_at, extend_at, All-get}
use aspect_cli.Bazelrc.Options.{
  RcOption, BazelRc, always, common, command_line, command_ancestors, build_commands, test_commands,
  is_cli, concat_options, options_for, push_flag,
}
use aspect_cli.Bazelrc.Options.Flags.{CliSource, flag_at, push_flag-Pushed}
use aspect_cli.Bazelrc.Options.Order.{keep_agree}
use aspect_cli.Bazelrc.Options.WellFormed.{Filed, IsWellFormed}

abbrev NotAlways : Text → Type 0
NotAlways key = text_eq always key ≡ false

command_ancestors-NotAlways : (command : Text) → All NotAlways (command_ancestors command)
unfolding command_ancestors
command_ancestors-NotAlways command = elim (Bool-cases (any (text_eq command) build_commands)) [
  | inl e ↦ rw e (unfold text_eq in refl, tt)
  | inr e ↦ rw e (elim (Bool-cases (any (text_eq command) test_commands)) [
    | inl e' ↦ rw e' (unfold text_eq in refl, (unfold text_eq in refl, tt))
    | inr e' ↦ rw e' tt
  ])
]

module _ (rc : BazelRc) (value : Text) (condition : Option Text) (w : IsWellFormed rc) (i : ℕ)
    (sources : List Text) (source : CliSource rc.sources i sources) where
  abbrev pushed : BazelRc
  pushed = record rc {
    sources = sources;
    options = extend_at always (flag_at i value condition ∷ []) rc.options;
  }

  other_section : (key : Text) → NotAlways key → get key pushed.options ≡ get key rc.options
  other_section key h = get-extend_at always key (flag_at i value condition ∷ []) rc.options ∙ rw h

  other_sections :
      (keys : List Text) → All NotAlways keys → concat_options pushed keys ≡ concat_options rc keys
  unfolding concat_options
  other_sections [] h = refl
  other_sections (k ∷ ks) (h, t) = ap₂ ◌++◌ (other_section k h) (other_sections ks t)

  always_section :
      get always pushed.options ≡ get always rc.options ++ flag_at i value condition ∷ []
  always_section =
      get-extend_at always always (flag_at i value condition ∷ []) rc.options
      ∙ rw (text_eq_refl always)

  is_cli-kept : (o : RcOption) → Filed (length rc.sources) always o → is_cli pushed o ≡ is_cli rc o
  unfolding is_cli
  is_cli-kept o f = rw (source.kept o.source_index f.1)

  is_cli-flag : is_cli pushed (flag_at i value condition) ≡ true
  unfolding is_cli
  is_cli-flag = rw source.named (text_eq_refl command_line)

  kept_always : All (Filed (length rc.sources) always) (get always rc.options)
  kept_always = All-get (Filed (length rc.sources)) always rc.options w.entries

  keep_cli :
      keep (is_cli pushed) (get always pushed.options)
      ≡ keep (is_cli rc) (get always rc.options) ++ flag_at i value condition ∷ []
  keep_cli = rw always_section (
      keep-append (is_cli pushed) (get always rc.options) (flag_at i value condition ∷ [])
      ∙ ap₂ ◌++◌ (keep_agree (Filed (length rc.sources) always) _ _ is_cli-kept _ kept_always)
          (rw is_cli-flag))

  keep-not_cli :
      keep (λ o. not (is_cli pushed o)) (get always pushed.options)
      ≡ keep (λ o. not (is_cli rc o)) (get always rc.options)
  keep-not_cli = rw always_section (
      keep-append (λ o. not (is_cli pushed o)) (get always rc.options)
        (flag_at i value condition ∷ [])
      ∙ ap₂ ◌++◌
          (keep_agree (Filed (length rc.sources) always) _ _ (λ o f. ap not (is_cli-kept o f)) _
            kept_always)
          (rw is_cli-flag)
      ∙ append-nil _)

  options_for-pushed :
      (command : Text)
      → NotAlways command
      → options_for pushed command ≡ options_for rc command ++ flag_at i value condition ∷ []
  unfolding options_for
  options_for-pushed command h = rw keep_cli (
      rw keep-not_cli (
        rw (other_section common (unfold text_eq in refl)) (
          rw (other_sections (command_ancestors command) (command_ancestors-NotAlways command))
            (rw (other_section command h) (simp append_assoc)))))

-- In a well-formed run command, a pushed flag comes behind all the options that applied before, for
-- every command but the section name `always`, and its source is the command line.
pub options_for-push_flag :
    (rc : BazelRc) (value : Text) (condition : Option Text) (command : Text)
    → IsWellFormed rc
    → text_eq always command ≡ false
    → (i : ℕ) × (options_for (push_flag rc value condition) command
        ≡ options_for rc command ++ flag_at i value condition ∷ [])
      × (get_elem? (push_flag rc value condition).sources i ≡ some command_line)
options_for-push_flag rc value condition command w h =
    let p = push_flag-Pushed rc value condition in
    (
      p.index,
      rw p.result (options_for-pushed rc value condition w p.index p.sources p.source command h),
      rw p.result p.source.named,
    )
