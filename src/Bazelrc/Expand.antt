-- ===== src/Bazelrc/Expand.antt =====
-- crates/bazelrc/src/expand.rs: `--config=` flags are replaced, in place, by the options of their
-- sections.
pub mod Relation
pub mod Outcome
mod Names
pub mod Termination
use aspect_cli.Base.{
  ℕ, zero, suc, Bool, ◌&&◌, ◌||◌, Option, none, some, List, [], ◌∷◌, ◌++◌, map, if◌then◌else◌,
  is_empty, any, Text, text, text_eq, strip_prefix,
}
use aspect_cli.Bazelrc.Options.{
  RcOption, BazelRc, config_cycle, undefined_config, out_of_fuel, Result, ok, err, ◌>>=◌, always,
  common, command_ancestors, raw_options, options_for,
}

abbrev pub config_prefix : Text
config_prefix = text "--config="

-- What stays the same through one expansion. `platform` is `platform_config_name()`.
pub record Context : Type 0 where
  pub rc : BazelRc
  pub command : Text
  pub platform : Text
  pub implicit_platform_config : Bool
  pub skip_config_if_missing : List Text

-- the sections of the config at each level: `format!("{prefix}:{config_name}")`
unfoldable pub sections : BazelRc → Text → List Text → List RcOption
unfolding raw_options
sections rc name [] = []
sections rc name (p ∷ ps) = raw_options rc (p ++ b':' ∷ name) ++ sections rc name ps

abbrev pub levels : Text → List Text
levels command = always ∷ common ∷ (command_ancestors command ++ command ∷ [])

unfoldable pub config_options : Context → Text → List RcOption
unfolding sections
config_options x name = sections x.rc name (levels x.command)

abbrev pub or_condition : Option Text → Option Text → Option Text
or_condition none parent = parent
or_condition (some own) parent = some own

abbrev pub inherit : Option Text → RcOption → RcOption
inherit parent o = record o { version_condition = or_condition o.version_condition parent }

-- `is_implicit_platform || skip_config_if_missing.contains(…)`
unfoldable pub may_be_missing : Context → List Text → Text → Bool
may_be_missing x chain name =
    (x.implicit_platform_config && is_empty chain && text_eq name x.platform)
    || any (text_eq name) x.skip_config_if_missing

-- `expand_args` for the children: the chain of configs, the options and the result so far
abbrev pub Expander : Type 0
Expander = List Text → List RcOption → List RcOption → Result (List RcOption)

-- from the test on `config_opts` on
unfoldable pub expand_found :
    Context
    → Expander
    → List Text
    → Text
    → Option Text
    → List RcOption
    → List RcOption
    → Result (List RcOption)
unfolding may_be_missing
expand_found x expand chain name condition [] result =
    if may_be_missing x chain name then ok result else err (undefined_config x.command name)
expand_found x expand chain name condition (o ∷ opts) result =
    expand (chain ++ name ∷ []) (map (inherit condition) (o ∷ opts)) result

-- one round of the loop; the argument tells the name behind `--config=`, if it is there
unfoldable pub expand_option :
    Context → Expander → List Text → RcOption → Option Text → List RcOption → Result (List RcOption)
unfolding expand_found config_options
expand_option x expand chain o none result = ok (result ++ o ∷ [])
expand_option x expand chain o (some name) result =
    if any (text_eq name) chain
    then err (config_cycle (chain ++ name ∷ []))
    else expand_found x expand chain name o.version_condition (config_options x name) result

unfoldable pub expand_list : Context → Expander → Expander
unfolding expand_option
expand_list x expand chain [] result = ok result
expand_list x expand chain (o ∷ args) result =
    expand_option x expand chain o (strip_prefix config_prefix o.value) result
    >>= expand_list x expand chain args

-- the fuel bounds the depth of the chain
unfoldable pub expand_args : ℕ → Context → Expander
unfolding expand_list
expand_args zero x chain args result = err out_of_fuel
expand_args (suc f) x chain args result = expand_list x (expand_args f x) chain args result

abbrev pub platform_flag : Text
platform_flag = text "--enable_platform_specific_config"

-- the flag that is inserted in front
abbrev pub platform_option : Text → RcOption
platform_option platform = record {
  value = config_prefix ++ platform;
  command = always;
  source_index = 0;
  version_condition = none;
}

unfoldable pub has_platform_config : List RcOption → Bool
has_platform_config base = any (λ o. text_eq o.value platform_flag) base

unfoldable pub expand_configs : ℕ → Text → BazelRc → Text → List Text → Result (List RcOption)
unfolding expand_args has_platform_config
expand_configs f platform rc command skip =
    let base = options_for rc command in
    let implicit = has_platform_config base in
    let x : Context = record {
      rc = rc;
      command = command;
      platform = platform;
      implicit_platform_config = implicit;
      skip_config_if_missing = skip;
    } in
    expand_args f x [] (if implicit then platform_option platform ∷ base else base) []
