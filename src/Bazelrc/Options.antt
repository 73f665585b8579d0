-- ===== src/Bazelrc/Options.antt =====
-- crates/bazelrc/src/lib.rs: the data of a parsed bazelrc, the command hierarchy, and what a
-- `BazelRC` answers without expanding configs.
pub mod WellFormed
pub mod Merge
pub mod Order
pub mod Flags
pub mod LastFlag
use aspect_cli.Base.{
  ℕ, ◌+◌, ◌-◌, ◌<◌, ◌≢◌, Bool, false, not, Option, none, some, List, [], ◌∷◌, ◌++◌, map,
  if◌then◌else◌, length, get_elem?, any, keep, Text, text, text_eq,
}
use mathlib.Core.Option
use aspect_cli.Base.Dict.{Dict, get, extend_at}

-- `RcOption`
pub record RcOption : Type 0 where
  pub value : Text
  pub command : Text
  pub source_index : ℕ
  pub version_condition : Option Text

-- `BazelRcError`, and `out_of_fuel` for a model that stops early. `BazelrcNotFound` is raised by
-- `discover_rc_files`.
pub data BazelRcError : Type 0 where
  import_not_found : Text → BazelRcError
  bazelrc_not_found : Text → BazelRcError
  import_cycle : List Text → BazelRcError
  config_cycle : List Text → BazelRcError
  undefined_config : Text → Text → BazelRcError
  invalid_import_args : Text → BazelRcError
  io : Text → BazelRcError
  out_of_fuel : BazelRcError

pub data Result {ℓ} (A : Type ℓ) : Type ℓ where
  ok : A → Result A
  err : BazelRcError → Result A

infixl 5 ◌>>=◌
abbrev pub ◌>>=◌ {ℓ κ} : {A : Type ℓ} {B : Type κ} → Result A → (A → Result B) → Result B
ok a >>= f = f a
err e >>= f = err e

-- what holds of the value of a computation that succeeds
abbrev pub OnOk {ℓ κ} : {A : Type ℓ} → (A → Type κ) → Result A → Type κ
OnOk P (ok a) = P a
OnOk P (err e) = Unit

pub OnOk-imp {ℓ κ ι} :
    {A : Type ℓ} (P : A → Type κ) (Q : A → Type ι) (m : Result A)
    → ((a : A) → P a → Q a)
    → OnOk P m
    → OnOk Q m
OnOk-imp P Q (ok a) k h = k a h
OnOk-imp P Q (err e) k h = tt

pub OnOk-bind {ℓ κ ι} :
    {A : Type ℓ} {B : Type ι} (P : A → Type κ) (Q : B → Type κ) (m : Result A) (f : A → Result B)
    → OnOk P m
    → ((a : A) → P a → OnOk Q (f a))
    → OnOk Q (m >>= f)
OnOk-bind P Q (ok a) f h k = k a h
OnOk-bind P Q (err e) f h k = tt

-- the computation ends by itself, with a value or with an error of the program
abbrev pub Ends {ℓ} : {A : Type ℓ} → Result A → Type 0
Ends (ok a) = Unit
Ends (err e) = e ≢ out_of_fuel

pub Ends-bind {ℓ κ ι} :
    {A : Type ℓ} {B : Type κ} (P : A → Type ι) (m : Result A) (f : A → Result B)
    → Ends m
    → OnOk P m
    → ((a : A) → P a → Ends (f a))
    → Ends (m >>= f)
Ends-bind P (ok a) f h p k = k a p
Ends-bind P (err e) f h p k = h

pub OnOk-trivial {ℓ} : {A : Type ℓ} (m : Result A) → OnOk (λ a. Unit {0}) m
OnOk-trivial (ok a) = tt
OnOk-trivial (err e) = tt

-- `semver::Version`, with the texts of its pre-release and its build; the crate compares it
pub record Version : Type 0 where
  pub major : ℕ
  pub minor : ℕ
  pub patch : ℕ
  pub pre : Text
  pub build : Text

-- `Version::new`
abbrev pub release : ℕ → ℕ → ℕ → Version
release major minor patch = record {
  major = major;
  minor = minor;
  patch = patch;
  pre = [];
  build = [];
}

-- `BazelRC`
pub record BazelRc : Type 0 where
  pub options : Dict RcOption
  pub sources : List Text
  pub skip_config_if_missing : List Text
  pub startup_flags : List Text
  pub version : Option Version

-- membership in a fixed list of words
abbrev pub is_one_of : Text → List Text → Bool
is_one_of s words = any (text_eq s) words

abbrev pub build_commands : List Text
build_commands =
    text "test"
    ∷ text "run"
    ∷ text "clean"
    ∷ text "mobile-install"
    ∷ text "info"
    ∷ text "print_action"
    ∷ text "config"
    ∷ text "cquery"
    ∷ text "aquery"
    ∷ []

abbrev pub test_commands : List Text
test_commands = text "coverage" ∷ text "fetch" ∷ text "vendor" ∷ []

unfoldable pub command_ancestors : Text → List Text
unfolding text_eq
command_ancestors command =
    if is_one_of command build_commands
    then text "build" ∷ []
    else if is_one_of command test_commands
    then text "build" ∷ text "test" ∷ []
    else []

abbrev pub always : Text
always = text "always"

abbrev pub common : Text
common = text "common"

-- the source of the flags that the caller passes
abbrev pub command_line : Text
command_line = text "<command line>"

unfoldable pub raw_options : BazelRc → Text → List RcOption
raw_options rc key = get key rc.options

-- `source_of`; `none` is the panic of an index out of range
unfoldable pub source_of : BazelRc → RcOption → Option Text
source_of rc o = get_elem? rc.sources o.source_index

abbrev is_command_line : Option Text → Bool
is_command_line none = false
is_command_line (some p) = text_eq p command_line

-- the closure `is_cli` of `options_for`
unfoldable pub is_cli : BazelRc → RcOption → Bool
is_cli rc o = is_command_line (get_elem? rc.sources o.source_index)

unfoldable pub concat_options : BazelRc → List Text → List RcOption
concat_options rc [] = []
concat_options rc (k ∷ ks) = get k rc.options ++ concat_options rc ks

unfoldable pub options_for : BazelRc → Text → List RcOption
unfolding is_cli concat_options
options_for rc command =
    let always_options = get always rc.options in
    let own = get command rc.options ++ keep (is_cli rc) always_options in
    keep (λ o. not (is_cli rc o)) always_options
    ++ (get common rc.options ++ (concat_options rc (command_ancestors command) ++ own))

-- the caller's flags, as they are stored: `always` options of the command line
abbrev pub cli_option : ℕ → RcOption → RcOption
cli_option i o = record o { source_index = i; command = always }

abbrev pub default_rc : BazelRc
default_rc = record {
  options = [];
  sources = [];
  skip_config_if_missing = [];
  startup_flags = [];
  version = none;
}

-- `if !flags.is_empty() { … }` of `new` and of `blank`
unfoldable pub add_flags : List RcOption → BazelRc → BazelRc
add_flags [] rc = rc
add_flags (f ∷ fs) rc = record rc {
  sources = rc.sources ++ command_line ∷ [];
  options = extend_at always (map (cli_option (length rc.sources)) (f ∷ fs)) rc.options;
}

unfoldable pub blank : List RcOption → BazelRc
unfolding add_flags
blank flags = add_flags flags default_rc

-- `iter().position(…)`
unfoldable pub position : (Text → Bool) → List Text → Option ℕ
position p [] = none
position p (x ∷ xs) = if p x then some 0 else Option.map (λ i. i + 1) (position p xs)

-- the index of the command-line source, which is appended on its first use
abbrev pub cli_source : List Text → Option ℕ → ℕ × List Text
cli_source sources none = (length sources, sources ++ command_line ∷ [])
cli_source sources (some i) = (i, sources)

unfoldable pub push_flag : BazelRc → Text → Option Text → BazelRc
unfolding position
push_flag rc value condition =
    let (i, sources) = cli_source rc.sources (position (λ p. text_eq p command_line) rc.sources) in
    let flag : RcOption = record {
      value = value;
      command = always;
      source_index = i;
      version_condition = condition;
    } in
    record rc { sources = sources; options = extend_at always (flag ∷ []) rc.options }

abbrev pub rebase : ℕ → RcOption → RcOption
rebase offset o = record o { source_index = o.source_index + offset }

-- the loop over the sections of `other`
unfoldable pub merge_options : ℕ → Dict RcOption → Dict RcOption → Dict RcOption
merge_options offset merged [] = merged
merge_options offset merged ((k, opts) ∷ other) =
    merge_options offset (extend_at k (map (rebase offset) opts) merged) other

unfoldable pub merge_skips : List Text → List Text → List Text
merge_skips skips [] = skips
merge_skips skips (s ∷ other) =
    merge_skips (if is_one_of s skips then skips else skips ++ s ∷ []) other

abbrev later_version : Option Version → Option Version → Option Version
later_version base none = base
later_version base (some v) = some v

unfoldable pub merge : BazelRc → BazelRc → BazelRc
unfolding merge_options merge_skips
merge rc other = record {
  options = merge_options (length rc.sources) rc.options other.options;
  sources = rc.sources ++ other.sources;
  skip_config_if_missing = merge_skips rc.skip_config_if_missing other.skip_config_if_missing;
  startup_flags = rc.startup_flags ++ other.startup_flags;
  version = later_version rc.version other.version;
}
