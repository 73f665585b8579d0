-- ===== src/Bazelrc/Resolve.antt =====
-- crates/bazelrc/src/lib.rs: version gates and the invocation of Bazel. The crate `semver` is a
-- parameter: how a constraint and a version are parsed, and whether a constraint admits a version.
pub mod Gates
use aspect_cli.Base.{
  ℕ, ◌-◌, ◌^◌, Bool, true, false, not, Option, none, some, List, [], ◌∷◌, ◌++◌, map, if◌then◌else◌,
  any, keep, Text, text,
}
use aspect_cli.Bazelrc.Expand.{expand_configs}
use aspect_cli.Bazelrc.Options.{
  RcOption, BazelRc, BazelRcError, Version, release, Result, ok, err, raw_options,
}
use aspect_cli.Bazelrc.Query.{partition_expand_all}

pub record Semver : Type 0 where
  pub parse_req : Text → Option (Version → Bool)
  pub parse_version : Text → Option Version

-- the errors of `applicable_options`: those of the expansion, and an invalid constraint
pub data ResolveError : Type 0 where
  expansion : BazelRcError → ResolveError
  invalid_constraint : Text → ResolveError

pub data Resolved {ℓ} (A : Type ℓ) : Type ℓ where
  value : A → Resolved A
  failed : ResolveError → Resolved A

abbrev pub u64_max : ℕ
u64_max = 2 ^ 64 - 1

abbrev pub assumed_latest : Version
assumed_latest = release u64_max u64_max u64_max

abbrev pub or_latest : Option Version → Version
or_latest none = assumed_latest
or_latest (some v) = v

abbrev pub is_gated : RcOption → Bool
is_gated o = elim o.version_condition [ none ↦ false | some c ↦ true ]

module _ (semver : Semver) where
  abbrev pub admits : Option (Version → Bool) → Version → Bool
  admits none v = true
  admits (some req) v = req v

  abbrev pub holds_at : Version → Option Text → Bool
  holds_at v none = true
  holds_at v (some c) = admits (semver.parse_req c) v

  -- `version_condition_holds`
  unfoldable pub version_condition_holds : BazelRc → Option Text → Bool
  version_condition_holds rc condition = holds_at (or_latest rc.version) condition

  abbrev pub cons_if : Bool → RcOption → Resolved (List RcOption) → Resolved (List RcOption)
  cons_if b o (value out) = value (if b then o ∷ out else out)
  cons_if b o (failed e) = failed e

  abbrev pub check :
      Text
      → Option (Version → Bool)
      → Version
      → RcOption
      → Resolved (List RcOption)
      → Resolved (List RcOption)
  check c none v o rest = failed (invalid_constraint c)
  check c (some req) v o rest = cons_if (req v) o rest

  abbrev pub gate :
      Option Text → Version → RcOption → Resolved (List RcOption) → Resolved (List RcOption)
  gate none v o rest = cons_if true o rest
  gate (some c) v o rest = check c (semver.parse_req c) v o rest

  -- the loop of `applicable_options` over the expanded options
  unfoldable pub filter_gated : Version → List RcOption → Resolved (List RcOption)
  filter_gated v [] = value []
  filter_gated v (o ∷ opts) = gate o.version_condition v o (filter_gated v opts)

  -- the version that is asked about: the override of the call, or the configured one
  abbrev pub version_for : BazelRc → Option Text → Option Version
  version_for rc none = rc.version
  version_for rc (some v) = semver.parse_version v

  abbrev pub filter_expanded :
      BazelRc → Option Text → Result (List RcOption) → Resolved (List RcOption)
  filter_expanded rc override (err e) = failed (expansion e)
  filter_expanded rc override (ok opts) =
      if not (any is_gated opts)
      then value opts
      else filter_gated (or_latest (version_for rc override)) opts

  unfoldable pub applicable_options :
      ℕ → Text → BazelRc → Text → Option Text → Resolved (List RcOption)
  unfolding filter_gated expand_configs
  applicable_options f platform rc command override =
      filter_expanded rc override (expand_configs f platform rc command rc.skip_config_if_missing)

  unfoldable pub invocation_startup_flags : BazelRc → List Text
  unfolding version_condition_holds
  invocation_startup_flags rc =
      rc.startup_flags
      ++ (map (λ o. o.value)
            (keep (λ o. version_condition_holds rc o.version_condition)
              (raw_options rc (text "startup")))
          ++ text "--ignore_all_rc_files" ∷ [])

  abbrev invoke : BazelRc → Resolved (List RcOption) → Resolved (List Text × List Text)
  invoke rc (failed e) = failed e
  invoke rc (value opts) =
      let p = partition_expand_all opts in
      value (invocation_startup_flags rc, map (λ f. f.0) p.0 ++ map (λ f. f.0) p.1)

  unfoldable pub resolve_for_command : ℕ → Text → BazelRc → Text → Resolved (List Text × List Text)
  unfolding applicable_options partition_expand_all invocation_startup_flags
  resolve_for_command f platform rc command =
      invoke rc (applicable_options f platform rc command none)
