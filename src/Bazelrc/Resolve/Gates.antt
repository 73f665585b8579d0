-- ===== src/Bazelrc/Resolve/Gates.antt =====
-- The version gates of the expanded options and of the startup flags.
use aspect_cli.Bazelrc.Resolve.{admits}
use aspect_cli.Base.{
  ℕ, ◌≡◌, refl, sym, ap, ◌∙◌, ◌≢◌, inl, inr, Bool, true, false, Option, none, some, List, [], ◌∷◌,
  ◌++◌, arith, if◌then◌else◌, Bool-cases, any, keep, All, Text,
}
use aspect_cli.Bazelrc.Expand.{expand_configs}
use aspect_cli.Bazelrc.Options.{RcOption, BazelRc, Version, ok}
use aspect_cli.Bazelrc.Resolve.{
  Semver, Resolved, value, failed, invalid_constraint, is_gated, or_latest, holds_at, check, gate,
  filter_gated, version_for, filter_expanded, applicable_options,
}

module _ (semver : Semver) where
  -- the gate of the option, if it has one, is a constraint that can be parsed
  abbrev pub IsValidGate : Option Text → Type 0
  IsValidGate none = Unit
  IsValidGate (some c) = semver.parse_req c ≢ none

  abbrev pub is_admitted : Version → RcOption → Bool
  is_admitted v o = holds_at semver v o.version_condition

  gate-valid :
      (condition : Option Text) (v : Version) (o : RcOption) (out : List RcOption)
      → IsValidGate condition
      → gate semver condition v o (value out)
        ≡ value (if holds_at semver v condition then o ∷ out else out)
  gate-valid none v o out h = refl
  gate-valid (some c) v o out h = by_req (semver.parse_req c) h
    where
      by_req :
          (r : Option (Version → Bool))
          → r ≢ none
          → check semver c r v o (value out) ≡ value (if admits semver r v then o ∷ out else out)
      by_req none h = absurd (h refl)
      by_req (some req) h = refl

  filter_gated-keep :
      (v : Version) (opts : List RcOption)
      → All (λ o. IsValidGate o.version_condition) opts
      → filter_gated semver v opts ≡ value (keep (is_admitted v) opts)
  unfolding filter_gated
  filter_gated-keep v [] h = refl
  filter_gated-keep v (o ∷ opts) (h, t) =
      rw (filter_gated-keep v opts t)
        (gate-valid o.version_condition v o (keep (is_admitted v) opts) h)

  ungated :
      (v : Version) (opts : List RcOption)
      → any is_gated opts ≡ false
      → filter_gated semver v opts ≡ value opts
  unfolding filter_gated
  ungated v [] h = refl
  ungated v (o ∷ opts) h =
      rw (ungated v opts (ground arith)) (by_condition o.version_condition (ground arith))
    where
      by_condition :
          (c : Option Text)
          → elim c [ none ↦ false | some d ↦ true ] ≡ false
          → gate semver c v o (value opts) ≡ value (o ∷ opts)
      by_condition none h = refl
      by_condition (some d) h = cc

  filter_expanded-filter_gated :
      (rc : BazelRc) (override : Option Text) (opts : List RcOption)
      → filter_expanded semver rc override (ok opts)
        ≡ filter_gated semver (or_latest (version_for semver rc override)) opts
  filter_expanded-filter_gated rc override opts = elim (Bool-cases (any is_gated opts)) [
    | inl gated ↦ rw gated
    | inr none_gated ↦
        rw none_gated (sym (ungated (or_latest (version_for semver rc override)) opts none_gated))
  ]

  -- If the expansion succeeds and every version constraint in it can be parsed, the applicable options
  -- are those whose constraint admits the version that is asked about, in order. The shortcut for
  -- lists without constraints changes nothing.
  pub applicable_options-keep :
      (f : ℕ) (platform : Text) (rc : BazelRc) (command : Text) (override : Option Text)
      (opts : List RcOption)
      → expand_configs f platform rc command rc.skip_config_if_missing ≡ ok opts
      → All (λ o. IsValidGate o.version_condition) opts
      → applicable_options semver f platform rc command override
        ≡ value (keep (is_admitted (or_latest (version_for semver rc override))) opts)
  unfolding applicable_options
  applicable_options-keep f platform rc command override opts e h = rw e (
      filter_expanded-filter_gated rc override opts
      ∙ filter_gated-keep (or_latest (version_for semver rc override)) opts h)

  check-invalid :
      (c : Text) (v : Version) (o : RcOption) (rest : Resolved (List RcOption))
      → semver.parse_req c ≡ none
      → check semver c (semver.parse_req c) v o rest ≡ failed (invalid_constraint c)
  check-invalid c v o rest e = rw e

  -- A constraint that cannot be parsed is an error, and the first such constraint is reported.
  pub filter_gated-invalid :
      (v : Version) (before after : List RcOption) (o : RcOption) (c : Text)
      → All (λ p. IsValidGate p.version_condition) before
      → o.version_condition ≡ some c
      → semver.parse_req c ≡ none
      → filter_gated semver v (before ++ o ∷ after) ≡ failed (invalid_constraint c)
  unfolding filter_gated
  filter_gated-invalid v [] after o c h e bad =
      let rest = filter_gated semver v after in
      ap (λ k. gate semver k v o rest) e ∙ check-invalid c v o rest bad
  filter_gated-invalid v (p ∷ before) after o c (h, t) e bad =
      rw (filter_gated-invalid v before after o c t e bad) (by_gate p.version_condition h)
    where
      by_gate :
          (k : Option Text)
          → IsValidGate k
          → gate semver k v p (failed (invalid_constraint c)) ≡ failed (invalid_constraint c)
      by_gate none h = refl
      by_gate (some d) h = by_req (semver.parse_req d) h
        where
          by_req :
              (r : Option (Version → Bool))
              → r ≢ none
              → check semver d r v p (failed (invalid_constraint c)) ≡ failed (invalid_constraint c)
          by_req none h = absurd (h refl)
          by_req (some req) h = refl
