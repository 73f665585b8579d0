-- ===== src/Bazelrc/Expand/Outcome.antt =====
-- What the options in the result of an expansion have in common.
use aspect_cli.Base.{
  ℕ, ◌≡◌, refl, ◌≢◌, inl, inr, Option, none, some, List, [], ◌∷◌, ◌++◌, map, if◌then◌else◌,
  Bool-cases, length, get_elem?, All, All-append, All-map, All-imp, Text,
}
use aspect_cli.Base.Dict.{get, All-get}
use aspect_cli.Bazelrc.Expand.Relation.{
  config_of, Expands, done, flag, missing, config, Expanded, expand_args-Expands,
}
use aspect_cli.Bazelrc.Expand.{
  Context, sections, levels, config_options, or_condition, inherit, expand_args, expand_configs,
  platform_option, has_platform_config,
}
use aspect_cli.Bazelrc.Options.WellFormed.{
  Filed, IsWellFormed, HasSource, Filed-HasSource, options_for-HasSource,
}
use aspect_cli.Bazelrc.Options.{
  RcOption, BazelRc, OnOk, OnOk-imp, options_for, raw_options, source_of,
}
use aspect_cli.Bazelrc.Parse.Gating.{IsGated}

-- no `--config=` flag
abbrev pub IsResolved : RcOption → Type 0
IsResolved o = config_of o ≡ none

Expands-IsResolved :
    {x : Context} {chain : List Text} {args out : List RcOption}
    → Expands x chain args out
    → All IsResolved out
Expands-IsResolved done = tt
Expands-IsResolved (flag e k) = (e, Expands-IsResolved k)
Expands-IsResolved (missing name e fresh absent may k) = Expands-IsResolved k
Expands-IsResolved (config {inner = i} {out} name e fresh ne d k) =
    All-append IsResolved i out (Expands-IsResolved d) (Expands-IsResolved k)

map-inherit-IsGated : (c : Text) (opts : List RcOption) → All IsGated (map (inherit (some c)) opts)
map-inherit-IsGated c [] = tt
map-inherit-IsGated c (o ∷ opts) = (gated o.version_condition, map-inherit-IsGated c opts)
  where
    gated : (own : Option Text) → or_condition own (some c) ≢ none
    gated none e = cc
    gated (some d) e = cc

IsGated-parent :
    (parent : Option Text) (opts : List RcOption)
    → parent ≢ none
    → All IsGated (map (inherit parent) opts)
IsGated-parent none opts h = absurd (h refl)
IsGated-parent (some c) opts h = map-inherit-IsGated c opts

-- The options that version-gated flags expand to are version-gated, at any depth.
pub Expands-IsGated :
    {x : Context} {chain : List Text} {args out : List RcOption}
    → Expands x chain args out
    → All IsGated args
    → All IsGated out
Expands-IsGated done h = tt
Expands-IsGated (flag e k) h = (h.0, Expands-IsGated k h.1)
Expands-IsGated (missing name e fresh absent may k) h = Expands-IsGated k h.1
Expands-IsGated {x} (config {o} {inner = i} {out} name e fresh ne d k) h =
    All-append IsGated i out
      (Expands-IsGated d (IsGated-parent o.version_condition (config_options x name) h.0))
      (Expands-IsGated k h.1)

sections-HasSource :
    (rc : BazelRc) (name : Text) (ps : List Text)
    → IsWellFormed rc
    → All (HasSource rc) (sections rc name ps)
unfolding sections raw_options
sections-HasSource rc name [] w = tt
sections-HasSource rc name (p ∷ ps) w =
    let key = p ++ b':' ∷ name in
    All-append (HasSource rc) (get key rc.options) (sections rc name ps)
      (All-imp (Filed (length rc.sources) key) (HasSource rc) (Filed-HasSource rc key)
        (get key rc.options) (All-get (Filed (length rc.sources)) key rc.options w.entries))
      (sections-HasSource rc name ps w)

config_options-HasSource :
    (x : Context) (name : Text) → IsWellFormed x.rc → All (HasSource x.rc) (config_options x name)
unfolding config_options
config_options-HasSource x name w = sections-HasSource x.rc name (levels x.command) w

HasSource-inherit :
    (rc : BazelRc) (c : Option Text) (o : RcOption) → HasSource rc o → HasSource rc (inherit c o)
unfolding source_of
HasSource-inherit rc c o h = h

Expands-HasSource :
    {x : Context} {chain : List Text} {args out : List RcOption}
    → IsWellFormed x.rc
    → Expands x chain args out
    → All (HasSource x.rc) args
    → All (HasSource x.rc) out
Expands-HasSource w done h = tt
Expands-HasSource w (flag e k) h = (h.0, Expands-HasSource w k h.1)
Expands-HasSource w (missing name e fresh absent may k) h = Expands-HasSource w k h.1
Expands-HasSource {x} w (config {o} {inner = i} {out} name e fresh ne d k) h =
    All-append (HasSource x.rc) i out
      (Expands-HasSource w d (
        All-map (HasSource x.rc) (HasSource x.rc) (inherit o.version_condition)
          (HasSource-inherit x.rc o.version_condition) (config_options x name)
          (config_options-HasSource x name w)))
      (Expands-HasSource w k h.1)

HasSource-first :
    (rc : BazelRc) (o : RcOption) (platform : Text)
    → HasSource rc o
    → HasSource rc (platform_option platform)
unfolding source_of
HasSource-first rc o platform (path, e) = first rc.sources o.source_index e
  where
    first :
        (l : List Text) (i : ℕ) → get_elem? l i ≡ some path → (p : Text) × (get_elem? l 0 ≡ some p)
    first [] i e = cc
    first (s ∷ l) i e = (s, refl)

-- the options that the expansion starts from
start_HasSource :
    (rc : BazelRc) (platform : Text) (base : List RcOption)
    → All (HasSource rc) base
    → All
        (HasSource rc)
        (if has_platform_config base then platform_option platform ∷ base else base)
unfolding has_platform_config
start_HasSource rc platform [] h = tt
start_HasSource rc platform (o ∷ base) h = elim (Bool-cases (has_platform_config (o ∷ base))) [
  | inl yes_it_has ↦ rw yes_it_has (HasSource-first rc o platform h.0, h)
  | inr has_not ↦ rw has_not h
]

-- In a well-formed run command, if `expand_configs` succeeds then no option that it returns is a
-- `--config=` flag, and `source_of` finds the source file of each.
pub expand_configs-IsResolved :
    (f : ℕ) (platform : Text) (rc : BazelRc) (command : Text) (skip : List Text)
    → IsWellFormed rc
    → OnOk
        (λ out. All IsResolved out × All (HasSource rc) out)
        (expand_configs f platform rc command skip)
unfolding expand_configs
expand_configs-IsResolved f platform rc command skip w =
    let base = options_for rc command in
    let implicit = has_platform_config base in
    let x : Context = record {
      rc = rc;
      command = command;
      platform = platform;
      implicit_platform_config = implicit;
      skip_config_if_missing = skip;
    } in
    let args = if implicit then platform_option platform ∷ base else base in
    OnOk-imp (Expanded x [] args []) (λ out. All IsResolved out × All (HasSource rc) out)
      (expand_args f x [] args [])
      (λ out d.
        let (o, e, k) = d in
        rw e (
          Expands-IsResolved k,
          Expands-HasSource w k
              (start_HasSource rc platform base (options_for-HasSource rc command w)),
        ))
      (expand_args-Expands f x [] args [])
