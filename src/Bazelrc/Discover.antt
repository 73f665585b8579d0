-- ===== src/Bazelrc/Discover.antt =====
-- crates/bazelrc/src/discover.rs, on Unix: which bazelrc files are loaded, and in what order.
pub mod Laws
use aspect_cli.Base.{
  Bool, true, false, not, Option, none, some, List, [], ◌∷◌, ◌++◌, map, if◌then◌else◌, is_empty,
  any, keep, Text, text, text_eq, strip_prefix, trim, split,
}
use aspect_cli.Bazelrc.Options.{bazelrc_not_found, Result, ok, err, ◌>>=◌}
use aspect_cli.Bazelrc.Parse.{FileSystem, path_join}

-- the variables of the process environment that are read: `HOME` and `BAZELRC`
pub record Environment : Type 0 where
  pub home : Option Text
  pub bazelrc : Option Text

-- the local variables that the loop over the startup flags sets
pub record RcFlags : Type 0 where
  pub no_system_rc : Bool
  pub no_workspace_rc : Bool
  pub no_home_rc : Bool
  pub ignore_all_rc : Bool
  pub explicit_bazelrcs : List Text

abbrev pub no_flags : RcFlags
no_flags = record {
  no_system_rc = false;
  no_workspace_rc = false;
  no_home_rc = false;
  ignore_all_rc = false;
  explicit_bazelrcs = [];
}

abbrev add_explicit : RcFlags → Option Text → RcFlags
add_explicit r none = r
add_explicit r (some path) = record r { explicit_bazelrcs = r.explicit_bazelrcs ++ path ∷ [] }

unfoldable pub read_flag : RcFlags → Text → RcFlags
read_flag r s =
    if text_eq s (text "--nosystem_rc")
    then record r { no_system_rc = true }
    else if text_eq s (text "--noworkspace_rc")
    then record r { no_workspace_rc = true }
    else if text_eq s (text "--nohome_rc")
    then record r { no_home_rc = true }
    else if text_eq s (text "--ignore_all_rc_files")
    then record r { ignore_all_rc = true }
    else add_explicit r (strip_prefix (text "--bazelrc=") s)

unfoldable pub read_flags : RcFlags → List Text → RcFlags
unfolding read_flag
read_flags r [] = r
read_flags r (s ∷ flags) = read_flags (read_flag r s) flags

module _ (fs : FileSystem) where
  -- a default file, unless it is switched off or missing
  unfoldable pub if_exists : Bool → Text → List Text
  if_exists off path = if off then [] else if fs.exists path then path ∷ [] else []

  unfoldable pub if_home : Bool → Option Text → List Text
  unfolding if_exists
  if_home off none = []
  if_home off (some home) = if_exists off (path_join home (text ".bazelrc"))

  -- files that were asked for by name must exist
  unfoldable pub require_all : List Text → Result (List Text)
  require_all [] = ok []
  require_all (p ∷ paths) =
      if fs.exists p
      then (require_all paths >>= λ rest. ok (p ∷ rest))
      else err (bazelrc_not_found p)

  -- the parts of `BAZELRC`
  unfoldable pub env_paths : Option Text → List Text
  unfolding split trim
  env_paths none = []
  env_paths (some value) = keep (λ p. not (is_empty p)) (map trim (split b',' value))

  unfoldable pub candidates : Environment → Text → RcFlags → Result (List Text)
  unfolding if_exists if_home require_all env_paths
  candidates env root r = if r.ignore_all_rc then ok [] else do
    named ← require_all (env_paths env.bazelrc)
    explicit ← require_all r.explicit_bazelrcs
    ok (
        if_exists r.no_system_rc (text "/etc/bazel.bazelrc")
        ++ (if_exists r.no_workspace_rc (path_join root (text ".bazelrc"))
            ++ (if_home r.no_home_rc env.home ++ (named ++ explicit))))

  abbrev canonical_or_self : Text → Option Text → Text
  canonical_or_self p none = p
  canonical_or_self p (some c) = c

  unfoldable pub canonical : Text → Text
  canonical p = canonical_or_self p (fs.canonicalize p)

  -- the loop with the set `seen`, which holds the items of `result`
  unfoldable pub deduplicate : List Text → List Text → List Text
  unfolding canonical
  deduplicate result [] = result
  deduplicate result (p ∷ paths) =
      deduplicate
        (if any (text_eq (canonical p)) result then result else result ++ canonical p ∷ []) paths

  unfoldable pub discover_rc_files : Environment → Text → List Text → Result (List Text)
  unfolding read_flags candidates deduplicate
  discover_rc_files env root startup_flags = do
    paths ← candidates env root (read_flags no_flags startup_flags)
    ok (deduplicate [] paths)
