-- ===== src/Bazelrc/Options/Flags.antt =====
-- The caller's flags: `blank`, the end of `new`, and `push_flag`.
use mathlib.Core.Option
use aspect_cli.Base.{
  ℕ, suc, ◌+◌, ◌≤◌, ◌<◌, ◌≡◌, refl, ap, ◌∙◌, inl, inr, Bool, true, Option, none, some, List, [],
  ◌∷◌, map, arith, Bool-cases, length, get_elem?, length-append, get_elem?-append_left,
  get_elem?-append_right, All, Text, text_eq, text_eq→eq,
}
use aspect_cli.Bazelrc.Options.{cli_source}
use aspect_cli.Base.Dict.{extend_at}
use aspect_cli.Bazelrc.Options.{
  RcOption, BazelRc, always, command_line, cli_option, add_flags, blank, default_rc, position,
  push_flag,
}
use aspect_cli.Bazelrc.Options.WellFormed.{
  Filed, IsWellFormed, IsFiled-extend_at, IsFiled-mono, IsFiled-empty,
}

All-cli_option :
    (n : ℕ) (flags : List RcOption) → All (Filed (n + 1) always) (map (cli_option n) flags)
All-cli_option n [] = tt
All-cli_option n (f ∷ fs) = ((refl, omega arith), All-cli_option n fs)

-- Adding the caller's flags keeps a run command well-formed.
pub add_flags-IsWellFormed :
    (flags : List RcOption) (rc : BazelRc) → IsWellFormed rc → IsWellFormed (add_flags flags rc)
unfolding add_flags
add_flags-IsWellFormed [] rc w = w
add_flags-IsWellFormed (f ∷ fs) rc w = rw length-append (
    IsFiled-extend_at _ always (map (cli_option (length rc.sources)) (f ∷ fs)) rc.options
      (All-cli_option (length rc.sources) (f ∷ fs))
      (IsFiled-mono (length rc.sources) _ rc.options (omega arith) w))

pub blank-IsWellFormed : (flags : List RcOption) → IsWellFormed (blank flags)
unfolding blank
blank-IsWellFormed flags = add_flags-IsWellFormed flags default_rc (IsFiled-empty 0)

-- what `position` returns is the index of an item that passes the test
abbrev FoundAt : (Text → Bool) → List Text → Option ℕ → Type 0
FoundAt p l none = Unit
FoundAt p l (some i) = (x : Text) × (get_elem? l i ≡ some x) × (p x ≡ true) × (i < length l)

FoundAt-later :
    (p : Text → Bool) (x : Text) (l : List Text) (found : Option ℕ)
    → FoundAt p l found
    → FoundAt p (x ∷ l) (Option.map (λ i. i + 1) found)
FoundAt-later p x l none h = tt
FoundAt-later p x l (some i) (y, e, t, b) =
    (y, let s : i + 1 ≡ suc i = omega arith in rw s e, t, omega arith)

FoundAt-position : (p : Text → Bool) (l : List Text) → FoundAt p l (position p l)
unfolding position
FoundAt-position p [] = tt
FoundAt-position p (x ∷ l) = elim (Bool-cases (p x)) [
  | inl e ↦ rw e (x, refl, e, omega arith)
  | inr e ↦ rw e (FoundAt-later p x l (position p l) (FoundAt-position p l))
]

-- the index of the command line among the sources, and the sources with it
pub record CliSource (sources : List Text) (i : ℕ) (result : List Text) : Type 0 where
  pub within : i < length result
  pub named : get_elem? result i ≡ some command_line
  pub grown : length sources ≤ length result
  pub kept : (j : ℕ) → j < length sources → get_elem? result j ≡ get_elem? sources j

CliSource-cli_source :
    (sources : List Text) (found : Option ℕ)
    → FoundAt (λ p. text_eq p command_line) sources found
    → CliSource sources (cli_source sources found).0 (cli_source sources found).1
CliSource-cli_source sources none h = record {
  within = omega (arith, length-append sources (command_line ∷ []));
  named =
      let z : 0 + length sources ≡ length sources = omega arith in
      rw z at (get_elem?-append_right sources (command_line ∷ []) 0);
  grown = omega (arith, length-append sources (command_line ∷ []));
  kept = get_elem?-append_left sources (command_line ∷ []);
}
CliSource-cli_source sources (some i) (x, e, t, b) = record {
  within = b;
  named = e ∙ ap some (text_eq→eq x command_line t);
  grown = omega arith;
  kept = λ j k. refl;
}

abbrev pub flag_at : ℕ → Text → Option Text → RcOption
flag_at i value condition = record {
  value = value;
  command = always;
  source_index = i;
  version_condition = condition;
}

-- `push_flag`, with the index and the sources that it uses
pub record Pushed (rc : BazelRc) (value : Text) (condition : Option Text) : Type 0 where
  pub index : ℕ
  pub sources : List Text
  pub source : CliSource rc.sources index sources
  pub result : push_flag rc value condition ≡ record rc {
    sources = sources;
    options = extend_at always (flag_at index value condition ∷ []) rc.options;
  }

pub push_flag-Pushed :
    (rc : BazelRc) (value : Text) (condition : Option Text) → Pushed rc value condition
unfolding push_flag
push_flag-Pushed rc value condition =
    let found = position (λ p. text_eq p command_line) rc.sources in
    record {
      index = (cli_source rc.sources found).0;
      sources = (cli_source rc.sources found).1;
      source = CliSource-cli_source rc.sources found (FoundAt-position _ rc.sources);
      result = refl;
    }

-- Pushing a flag keeps a run command well-formed.
pub push_flag-IsWellFormed :
    (rc : BazelRc) (value : Text) (condition : Option Text)
    → IsWellFormed rc
    → IsWellFormed (push_flag rc value condition)
push_flag-IsWellFormed rc value condition w =
    let p = push_flag-Pushed rc value condition in
    rw p.result (
      IsFiled-extend_at (length p.sources) always (flag_at p.index value condition ∷ []) rc.options
        ((refl, p.source.within), tt)
        (IsFiled-mono (length rc.sources) (length p.sources) rc.options p.source.grown w))
