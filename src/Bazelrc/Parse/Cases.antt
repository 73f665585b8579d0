-- ===== src/Bazelrc/Parse/Cases.antt =====
-- What one line of a file can lead to.
use aspect_cli.Base.{
  ℕ, ◌≡◌, refl, ◌≢◌, ◌⊎◌, inl, inr, Option, some, List, [], ◌∷◌, Bool-cases, Text, text, text_eq,
}
use aspect_cli.Bazelrc.Options.{BazelRcError, out_of_fuel, Result, ok, err}
use aspect_cli.Bazelrc.Parse.{
  FileSystem, Parsed, Import, resolve_import_path, add_options, import_line, try_import_line,
  version_import_line, parse_tokens,
}

-- the condition of the enclosing file, or one of the line's own
abbrev pub Carries : Option Text → Option Text → Type 0
Carries c c' = (c' ≡ c) ⊎ ((own : Text) × (c' ≡ some own))

-- `Q` holds of the outcome of a line if it holds of each thing that the line can lead to.
pub record Outcomes {ℓ} (Q : Result Parsed → Type ℓ) (parse_import : Import) (i : ℕ)
    (c : Option Text) (st : Parsed) : Type ℓ where
  pub import : (path : Text) (c' : Option Text) → Carries c c' → Q (parse_import path c' st)
  pub nothing : Q (ok st)
  pub error : (e : BazelRcError) → e ≢ out_of_fuel → Q (err e)
  pub options : (key : Text) (values : List Text) → Q (ok (add_options i c key values st))

module _ {ℓ} (Q : Result Parsed → Type ℓ) (fs : FileSystem) (root : Text) (parse_import : Import)
    (i : ℕ) (c : Option Text) (st : Parsed) (o : Outcomes Q parse_import i c st) where
  import_line_cases :
      (line : Text) (args : List Text) → Q (import_line fs root parse_import line c args st)
  unfolding import_line
  import_line_cases line [] = o.error _ (λ e. cc)
  import_line_cases line (raw ∷ []) = elim (Bool-cases (fs.exists (resolve_import_path raw root))) [
    | inl there ↦ rw there (o.import _ c (inl refl))
    | inr missing ↦ rw missing (o.error _ (λ e. cc))
  ]
  import_line_cases line (raw ∷ x ∷ args) = o.error _ (λ e. cc)

  try_import_line_cases :
      (line : Text) (args : List Text) → Q (try_import_line fs root parse_import line c args st)
  unfolding try_import_line
  try_import_line_cases line [] = o.error _ (λ e. cc)
  try_import_line_cases line (raw ∷ []) =
      elim (Bool-cases (fs.exists (resolve_import_path raw root))) [
        | inl there ↦ rw there (o.import _ c (inl refl))
        | inr missing ↦ rw missing o.nothing
      ]
  try_import_line_cases line (raw ∷ x ∷ args) = o.error _ (λ e. cc)

  version_import_line_cases :
      (line : Text) (args : List Text) → Q (version_import_line fs root parse_import line args st)
  unfolding version_import_line
  version_import_line_cases line [] = o.error _ (λ e. cc)
  version_import_line_cases line (d ∷ []) = o.error _ (λ e. cc)
  version_import_line_cases line (d ∷ raw ∷ []) =
      elim (Bool-cases (fs.exists (resolve_import_path raw root))) [
        | inl there ↦ rw there (o.import _ (some d) (inr (d, refl)))
        | inr missing ↦ rw missing o.nothing
      ]
  version_import_line_cases line (d ∷ raw ∷ x ∷ args) = o.error _ (λ e. cc)

  pub parse_tokens_cases :
      (line : Text) (tokens : List Text) → Q (parse_tokens fs root parse_import i c line tokens st)
  unfolding parse_tokens
  parse_tokens_cases line [] = o.nothing
  parse_tokens_cases line (d ∷ args) = elim (Bool-cases (text_eq d (text "import"))) [
    | inl e ↦ rw e (import_line_cases line args)
    | inr e ↦ rw e (elim (Bool-cases (text_eq d (text "try-import"))) [
      | inl e' ↦ rw e' (try_import_line_cases line args)
      | inr e' ↦ rw e' (elim (Bool-cases (text_eq d (text "try-import-if-bazel-version"))) [
        | inl e'' ↦ rw e'' (version_import_line_cases line args)
        | inr e'' ↦ rw e'' (o.options d args)
      ])
    ])
  ]
