-- ===== src/Bazelrc/Load/Laws.antt =====
-- What `BazelRC::new` returns, and its fuel.
use aspect_cli.Bazelrc.Parse.Termination.{parse_file-Finishes}
use aspect_cli.Base.{
  ℕ, ◌<◌, ◌≡◌, refl, subst, inl, inr, true, none, some, List, [], ◌∷◌, arith, Bool-cases, length,
  Text,
}
use aspect_cli.Bazelrc.Parse.Termination.{Finishes-bind}
use aspect_cli.Bazelrc.Parse.Termination.{Finishes}
use aspect_cli.Bazelrc.Parse.Termination.{is_in, unvisited}
use aspect_cli.Bazelrc.Discover.{env_paths, no_flags}
use aspect_cli.Bazelrc.Discover.{RcFlags, read_flags}
use aspect_cli.Bazelrc.Options.{Ends-bind}
use aspect_cli.Bazelrc.Options.{Ends, OnOk-trivial}
use aspect_cli.Bazelrc.Discover.{candidates, require_all}
use aspect_cli.Bazelrc.Discover.{Environment, discover_rc_files}
use aspect_cli.Bazelrc.Load.{nothing_parsed, parse_all, new}
use aspect_cli.Bazelrc.Options.Flags.{add_flags-IsWellFormed}
use aspect_cli.Bazelrc.Options.WellFormed.{IsWellFormed, IsFiled-empty}
use aspect_cli.Bazelrc.Options.{RcOption, Result, ok, err, OnOk, OnOk-bind}
use aspect_cli.Bazelrc.Parse.Stack.{FiledIn, FiledIn-parse_file}
use aspect_cli.Bazelrc.Parse.{FileSystem, Parsed, parse_file}

require_all-Ends : (fs : FileSystem) (paths : List Text) → Ends (require_all fs paths)
unfolding require_all
require_all-Ends fs [] = tt
require_all-Ends fs (p ∷ paths) = elim (Bool-cases (fs.exists p)) [
  | inl there ↦ rw there (
      Ends-bind (λ a. Unit {0}) (require_all fs paths) _ (require_all-Ends fs paths)
        (OnOk-trivial (require_all fs paths)) (λ rest u. tt))
  | inr missing ↦ rw missing (λ e. cc)
]

candidates-Ends :
    (fs : FileSystem) (env : Environment) (root : Text) (r : RcFlags)
    → Ends (candidates fs env root r)
unfolding candidates
candidates-Ends fs env root r = elim (Bool-cases r.ignore_all_rc) [
  | inl all ↦ rw all tt
  | inr some_files ↦
      let named = require_all fs (env_paths fs env.bazelrc) in
      let explicit = require_all fs r.explicit_bazelrcs in
      rw some_files (
        Ends-bind (λ a. Unit {0}) named _ (require_all-Ends fs (env_paths fs env.bazelrc))
          (OnOk-trivial named)
          (λ a u.
            Ends-bind (λ b. Unit {0}) explicit _ (require_all-Ends fs r.explicit_bazelrcs)
              (OnOk-trivial explicit) (λ b v. tt)))
]

parse_all-FiledIn :
    (f : ℕ) (fs : FileSystem) (root : Text) (st : Parsed) (paths : List Text)
    → FiledIn st
    → OnOk FiledIn (parse_all f fs root st paths)
unfolding parse_all
parse_all-FiledIn f fs root st [] w = w
parse_all-FiledIn f fs root st (path ∷ paths) w =
    OnOk-bind FiledIn FiledIn (parse_file f fs root path none st)
      (λ done. parse_all f fs root done paths) (FiledIn-parse_file f fs root path none st w)
      (λ done v. parse_all-FiledIn f fs root done paths v)

-- If `new` succeeds then the run command that it loads is well-formed: its sections are those of a map,
-- each option names its section, and its source index lies within the sources.
pub new-IsWellFormed :
    (f : ℕ) (fs : FileSystem) (env : Environment) (root : Text) (startup : List Text)
    (flags : List RcOption)
    → OnOk IsWellFormed (new f fs env root startup flags)
unfolding new
new-IsWellFormed f fs env root startup flags =
    OnOk-bind (λ found. Unit {0}) IsWellFormed (discover_rc_files fs env root startup) _
      (OnOk-trivial (discover_rc_files fs env root startup))
      λ found u.
        OnOk-bind FiledIn IsWellFormed (parse_all f fs root nothing_parsed found) _
          (parse_all-FiledIn f fs root nothing_parsed found (IsFiled-empty 0))
          (λ st w. add_flags-IsWellFormed flags _ w)

discover_rc_files-Ends :
    (fs : FileSystem) (env : Environment) (root : Text) (startup : List Text)
    → Ends (discover_rc_files fs env root startup)
unfolding discover_rc_files
discover_rc_files-Ends fs env root startup =
    let r = read_flags no_flags startup in
    Ends-bind (λ a. Unit {0}) (candidates fs env root r) _ (candidates-Ends fs env root r)
      (OnOk-trivial (candidates fs env root r)) (λ paths u. tt)

length-unvisited : (files : List Text) → unvisited files [] ≡ length files
length-unvisited [] = refl
length-unvisited (x ∷ files) = omega (arith, length-unvisited files)

module _ (f : ℕ) (fs : FileSystem) (root : Text) (files : List Text)
    (found : (path c : Text) → fs.canonicalize path ≡ some c → is_in files c ≡ true)
    (fuel : length files < f) where
  parse_all-Finishes :
      (st : Parsed) (paths : List Text)
      → st.import_stack ≡ []
      → Finishes [] (parse_all f fs root st paths)
  unfolding parse_all
  parse_all-Finishes st [] h = h
  parse_all-Finishes st (path ∷ paths) h =
      let below : unvisited files st.import_stack < f =
        rw h (omega (arith, length-unvisited files)) in
      Finishes-bind [] [] (parse_file f fs root path none st)
        (λ done. parse_all f fs root done paths)
        (subst (λ s. Finishes s (parse_file f fs root path none st)) h
          (parse_file-Finishes fs root files found f path none st below))
        (λ done e. parse_all-Finishes done paths e)

  Ends-parse_all : (r : Result Parsed) → Finishes [] r → Ends r
  Ends-parse_all (ok st) h = tt
  Ends-parse_all (err e) h = h

  -- If the canonical paths of the file system are among `files` and the fuel is above their number, `new`
  -- returns a run command or one of the program's own errors, whatever the files import.
  pub new-Ends :
      (env : Environment) (startup : List Text) (flags : List RcOption)
      → Ends (new f fs env root startup flags)
  unfolding new
  new-Ends env startup flags =
      Ends-bind (λ a. Unit {0}) (discover_rc_files fs env root startup) _
        (discover_rc_files-Ends fs env root startup)
        (OnOk-trivial (discover_rc_files fs env root startup))
        λ paths u.
          let parsed = parse_all f fs root nothing_parsed paths in
          Ends-bind (λ a. Unit {0}) parsed _
            (Ends-parse_all parsed (parse_all-Finishes nothing_parsed paths refl))
            (OnOk-trivial parsed) (λ st v. tt)
