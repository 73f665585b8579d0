-- ===== src/Bazelrc/Samples.antt =====
-- Inputs for the tests of crates/bazelrc: a file system, run commands and options.
use aspect_cli.Base.{
  ℕ, ◌≡◌, refl, subst, Bool, true, false, none, some, List, [], ◌∷◌, if◌then◌else◌, any, Text, text,
  text_eq,
}
use aspect_cli.Bazelrc.Options.{RcOption, BazelRc, default_rc}
use aspect_cli.Bazelrc.Discover.{Environment}
use aspect_cli.Bazelrc.Parse.{FileSystem}

abbrev pub option_at : ℕ → Text → Text → RcOption
option_at i key value = record {
  value = value;
  command = key;
  source_index = i;
  version_condition = none;
}

abbrev pub gated_at : ℕ → Text → Text → Text → RcOption
gated_at i key value condition = record {
  value = value;
  command = key;
  source_index = i;
  version_condition = some condition;
}

abbrev pub files : List Text
files = text "/w/.bazelrc" ∷ text "/w/x.rc" ∷ []

abbrev content_of : Text → Text
content_of path =
    if text_eq path (text "/w/x.rc")
    then text "build --x\nimport %workspace%/.bazelrc\n"
    else text "build --jobs=4\ntry-import-if-bazel-version >=7 %workspace%/x.rc\n"

-- a workspace whose two files import each other
abbrev pub disk : FileSystem
disk = record {
  canonicalize = λ path. if any (text_eq path) files then some path else none;
  read_to_string = λ path. some (content_of path);
  exists = λ path. any (text_eq path) files;
}

abbrev pub one_file : FileSystem
one_file = record {
  canonicalize = λ path. if any (text_eq path) files then some path else none;
  read_to_string = λ path. some (text "build --jobs=4 # few\ntest --v\n");
  exists = λ path. any (text_eq path) files;
}

found_path :
    (b : Bool) (path c : Text) → (if b then some path else none) ≡ some c → (b ≡ true) × (path ≡ c)
found_path true path c h = (refl, cc)
found_path false path c h = absurd cc

pub disk-files :
    (path c : Text)
    → (if any (text_eq path) files then some path else none) ≡ some c
    → any (text_eq c) files ≡ true
disk-files path c h =
    let (listed, same) = found_path (any (text_eq path) files) path c h in
    subst (λ p. any (text_eq p) files ≡ true) same listed

abbrev pub no_environment : Environment
no_environment = record { home = none; bazelrc = none }

-- the run command of a file with a config, and one of the command line
abbrev pub file_rc : BazelRc
file_rc = record default_rc {
  sources = text "/w/.bazelrc" ∷ [];
  options =
      (
        text "build",
        option_at 0 (text "build") (text "--jobs=4")
            ∷ option_at 0 (text "build") (text "--config=ci")
            ∷ [],
      )
      ∷ (text "build:ci", option_at 0 (text "build:ci") (text "--keep_going") ∷ [])
      ∷ [];
}

abbrev pub cli_rc : BazelRc
cli_rc = record default_rc {
  sources = text "<command line>" ∷ [];
  options = (text "always", option_at 0 (text "always") (text "--verbose") ∷ []) ∷ [];
}
