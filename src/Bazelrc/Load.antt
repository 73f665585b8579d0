-- ===== src/Bazelrc/Load.antt =====
-- crates/bazelrc/src/lib.rs: `BazelRC::new`.
pub mod Laws
use aspect_cli.Base.{ℕ, none, List, [], ◌∷◌, Text}
use aspect_cli.Bazelrc.Discover.{Environment, discover_rc_files}
use aspect_cli.Bazelrc.Options.{RcOption, BazelRc, Result, ok, ◌>>=◌, add_flags}
use aspect_cli.Bazelrc.Parse.{FileSystem, Parsed, parse_file}

abbrev pub nothing_parsed : Parsed
nothing_parsed = record { sources = []; options = []; import_stack = [] }

-- the loop over the discovered files; the fuel is that of `parse_file`
unfoldable pub parse_all : ℕ → FileSystem → Text → Parsed → List Text → Result Parsed
parse_all f fs root st [] = ok st
parse_all f fs root st (path ∷ paths) =
    parse_file f fs root path none st >>= λ done. parse_all f fs root done paths

unfoldable pub new :
    ℕ → FileSystem → Environment → Text → List Text → List RcOption → Result BazelRc
unfolding parse_all
new f fs env root startup_flags flags = do
  rc_files ← discover_rc_files fs env root startup_flags
  st ← parse_all f fs root nothing_parsed rc_files
  let rc : BazelRc = record {
    options = st.options;
    sources = st.sources;
    skip_config_if_missing = [];
    startup_flags = startup_flags;
    version = none;
  }
  ok (add_flags flags rc)
