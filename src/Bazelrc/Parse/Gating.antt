-- ===== src/Bazelrc/Parse/Gating.antt =====
-- What a parsed file adds to the options, with and without a version condition.
use aspect_cli.Base.{
  ℕ, ◌≡◌, sym, ap, ◌∙◌, ◌≢◌, inl, inr, Option, none, some, List, [], ◌∷◌, ◌++◌, map, append-nil,
  append_assoc, Bool-cases, All, All-append, Text, text_eq,
}
use aspect_cli.Base.Dict.{get, get-extend_at, extend_at}
use aspect_cli.Bazelrc.Options.{OnOk, RcOption}
use aspect_cli.Bazelrc.Parse.Rule.{Rule, parse_file-R}
use aspect_cli.Bazelrc.Parse.{FileSystem, Parsed, add_options, parse_file}

-- Each section of `b` is that of `a` with options behind it that satisfy `P`.
abbrev pub Appends : (RcOption → Type 0) → Parsed → Parsed → Type 0
Appends P a b =
    (key : Text)
    → (new : List RcOption) × (get key b.options ≡ get key a.options ++ new) × All P new

module _ (P : RcOption → Type 0) where
  Appends-trans : (a b c : Parsed) → Appends P a b → Appends P b c → Appends P a c
  Appends-trans a b c p q key =
      let (first, e, h) = p key in
      let (second, e', h') = q key in
      (
        first ++ second,
        e' ∙ ap (λ l. l ++ second) e ∙ append_assoc (get key a.options) first second,
        All-append P first second h h',
      )

  Appends-extend_at :
      (key : Text) (new : List RcOption) (st : Parsed)
      → All P new
      → Appends P st (record st { options = extend_at key new st.options })
  Appends-extend_at key new st h j = elim (Bool-cases (text_eq key j)) [
    | inl same ↦ (new, get-extend_at key j new st.options ∙ rw same, h)
    | inr other ↦ (
      [],
      get-extend_at key j new st.options ∙ rw other (sym (append-nil (get j st.options))),
      tt,
    )
  ]

-- `C` is what is known of the condition, and gives `P` to each option that carries it
module _ (C : Option Text → Type 0) (P : RcOption → Type 0) (gated : (c : Text) → C (some c))
    (carried : (o : RcOption) → C o.version_condition → P o) where
  All-carried :
      (i : ℕ) (c : Option Text) (key : Text) (values : List Text)
      → C c
      → All P (
          map
            (λ v. record { value = v; command = key; source_index = i; version_condition = c })
            values)
  All-carried i c key [] h = tt
  All-carried i c key (v ∷ vs) h = (
    carried (record { value = v; command = key; source_index = i; version_condition = c }) h,
    All-carried i c key vs h,
  )

  append_rule : Rule C (λ i st. Unit) (Appends P)
  unfolding add_options
  append_rule = record {
    nothing = λ st key. ([], sym (append-nil (get key st.options)), tt);
    next = Appends-trans P;
    index_kept = λ i a b r h. h;
    gated = gated;
    options_added =
        λ i c key values st k h. Appends-extend_at P key _ st (All-carried i c key values h);
    index_opened = λ canonical st. tt;
    file_closed = λ canonical st done r. r;
  }

abbrev pub IsGated : RcOption → Type 0
IsGated o = o.version_condition ≢ none

-- If `parse_file` succeeds, it has only appended to the sections: options that were there keep their
-- place in front.
pub options-parse_file :
    (f : ℕ) (fs : FileSystem) (root path : Text) (condition : Option Text) (st : Parsed)
    → OnOk (Appends (λ o. Unit) st) (parse_file f fs root path condition st)
options-parse_file f fs root path condition st =
    parse_file-R (append_rule (λ c. Unit) (λ o. Unit) (λ c. tt) (λ o h. tt)) f fs root path
      condition st tt

-- If `parse_file` succeeds under a version condition, then the file and all the files that it imports, in
-- any way, add no option without a condition, and what was in the sections stays in front.
pub IsGated-parse_file :
    (f : ℕ) (fs : FileSystem) (root path condition : Text) (st : Parsed)
    → OnOk (Appends IsGated st) (parse_file f fs root path (some condition) st)
IsGated-parse_file f fs root path condition st =
    parse_file-R (append_rule (λ c. c ≢ none) IsGated (λ c e. cc) (λ o h. h)) f fs root path
      (some condition) st (λ e. cc)
