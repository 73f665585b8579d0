-- ===== src/Bazelrc/Expand/Termination.antt =====
-- The end of the expansion, and what it returns.
use aspect_cli.Base.{
  ℕ, zero, suc, ◌<◌, ◌≡◌, refl, sym, ap, ◌∙◌, subst, ◌≢◌, ◌↔◌, inl, inr, true, false, Option, none,
  some, List, [], ◌∷◌, ◌++◌, map, append-nil, append_assoc, arith, Bool-cases, any, Text, text_eq,
}
use aspect_cli.Bazelrc.Expand.Names.{names_of, config_options-names_of}
use aspect_cli.Bazelrc.Expand.Relation.{
  config_of, Expands, done, flag, missing, config, Expanded, expand_args-Expands,
}
use aspect_cli.Bazelrc.Expand.{
  Context, config_options, inherit, may_be_missing, Expander, expand_found, expand_option,
  expand_list, expand_args,
}
use aspect_cli.Bazelrc.Options.{RcOption, ok, ◌>>=◌, Ends, Ends-bind, OnOk, OnOk-trivial}
use aspect_cli.Bazelrc.Parse.Termination.{unvisited, unvisited-push_lt}

abbrev pub EndsAt : Expander → List Text → Type 0
EndsAt expand chain = (args result : List RcOption) → Ends (expand chain args result)

module _ (x : Context) (expand : Expander) (chain : List Text)
    (below : (name : Text)
      → any (text_eq name) chain ≡ false
      → config_options x name ≢ []
      → EndsAt expand (chain ++ name ∷ [])) where
  expand_found-Ends :
      (name : Text) (condition : Option Text) (opts result : List RcOption)
      → any (text_eq name) chain ≡ false
      → config_options x name ≡ opts
      → Ends (expand_found x expand chain name condition opts result)
  unfolding expand_found
  expand_found-Ends name condition [] result fresh e =
      elim (Bool-cases (may_be_missing x chain name)) [
        | inl may ↦ rw may tt
        | inr must ↦ rw must (λ k. cc)
      ]
  expand_found-Ends name condition (p ∷ ps) result fresh e =
      below name fresh (λ none. cc (e, none)) (map (inherit condition) (p ∷ ps)) result

  expand_option-Ends :
      (o : RcOption) (found : Option Text) (result : List RcOption)
      → Ends (expand_option x expand chain o found result)
  unfolding expand_option
  expand_option-Ends o none result = tt
  expand_option-Ends o (some name) result = elim (Bool-cases (any (text_eq name) chain)) [
    | inl cycle ↦ rw cycle (λ k. cc)
    | inr fresh ↦
        rw fresh
          (expand_found-Ends name o.version_condition (config_options x name) result fresh refl)
  ]

  expand_list-Ends : EndsAt (expand_list x expand) chain
  unfolding expand_list
  expand_list-Ends [] result = tt
  expand_list-Ends (o ∷ args) result =
      let first = expand_option x expand chain o (config_of o) result in
      Ends-bind (λ a. Unit {0}) first (expand_list x expand chain args)
        (expand_option-Ends o (config_of o) result) (OnOk-trivial first)
        (λ mid u. expand_list-Ends args mid)

-- With more fuel than there are names off the chain, `expand_args` returns: a list, or one of the
-- program's own errors.
pub expand_args-Ends :
    (f : ℕ) (x : Context) (chain : List Text)
    → unvisited (names_of x.rc.options) chain < f
    → EndsAt (expand_args f x) chain
unfolding expand_args
expand_args-Ends zero x chain h = absurd (omega arith)
expand_args-Ends (suc f) x chain h = expand_list-Ends x (expand_args f x) chain λ name fresh ne.
    expand_args-Ends f x (chain ++ name ∷ []) (
      omega (
        arith,
        unvisited-push_lt (names_of x.rc.options) chain name (config_options-names_of x name ne)
            fresh,
      ))

expand_found-config :
    (x : Context) (expand : Expander) (chain : List Text) (name : Text) (condition : Option Text)
    (opts result : List RcOption)
    → opts ≢ []
    → expand_found x expand chain name condition opts result
      ≡ expand (chain ++ name ∷ []) (map (inherit condition) opts) result
unfolding expand_found
expand_found-config x expand chain name condition [] result h = absurd (h refl)
expand_found-config x expand chain name condition (p ∷ ps) result h = refl

-- one round of the loop, by what the option is
module _ (x : Context) (expand : Expander) (chain : List Text) (o : RcOption)
    (args result : List RcOption) where
  expand_list-flag :
      config_of o ≡ none
      → expand_list x expand chain (o ∷ args) result
        ≡ expand_list x expand chain args (result ++ o ∷ [])
  unfolding expand_list
  expand_list-flag e = rw e

  expand_list-missing :
      (name : Text)
      → config_of o ≡ some name
      → any (text_eq name) chain ≡ false
      → config_options x name ≡ []
      → may_be_missing x chain name ≡ true
      → expand_list x expand chain (o ∷ args) result ≡ expand_list x expand chain args result
  expand_list-missing name e fresh absent may =
      unfold expand_list in rw e (rw fresh (rw (found absent)))
    where
      found :
          config_options x name ≡ []
          → expand_found x expand chain name o.version_condition (config_options x name) result
            ≡ ok result
      found absent = rw absent (unfold expand_found in rw may)

  expand_list-config :
      (name : Text)
      → config_of o ≡ some name
      → any (text_eq name) chain ≡ false
      → config_options x name ≢ []
      → expand_list x expand chain (o ∷ args) result ≡ (
          expand
            (chain ++ name ∷ [])
            (map (inherit o.version_condition) (config_options x name))
            result
          >>= expand_list x expand chain args)
  expand_list-config name e fresh ne = unfold expand_list in rw e (rw fresh (rw (found)))
    where
      found :
          expand_found x expand chain name o.version_condition (config_options x name) result
          ≡ expand
              (chain ++ name ∷ [])
              (map (inherit o.version_condition) (config_options x name))
              result
      found =
          expand_found-config x expand chain name o.version_condition (config_options x name) result
            ne

expand_list-Expands :
    (x : Context) (f : ℕ) {chain : List Text} {args out : List RcOption}
    → unvisited (names_of x.rc.options) chain < suc f
    → Expands x chain args out
    → (result : List RcOption)
    → expand_list x (expand_args f x) chain args result ≡ ok (result ++ out)
unfolding expand_args expand_list
expand_list-Expands x f h done result = rw append-nil
expand_list-Expands x f h (flag {chain = c} {o} {args} e k) result =
    expand_list-flag x (expand_args f x) c o args result e
    ∙ expand_list-Expands x f h k (result ++ o ∷ [])
    ∙ rw append_assoc
expand_list-Expands x f h (missing {chain = c} {o} {args} name e fresh absent may k) result =
    expand_list-missing x (expand_args f x) c o args result name e fresh absent may
    ∙ expand_list-Expands x f h k result
expand_list-Expands x zero h (config {chain = c} name e fresh ne inner k) result = absurd (
    omega (
      arith,
      unvisited-push_lt (names_of x.rc.options) c name (config_options-names_of x name ne) fresh,
    ))
expand_list-Expands x (suc f) h (config {chain = c} {o} {args} {inner = i} name e fresh ne inner k)
      result =
    expand_list-config x (expand_args (suc f) x) c o args result name e fresh ne
    ∙ ap (λ r. r >>= expand_list x (expand_args (suc f) x) c args)
        (expand_list-Expands x f
          (omega (
            arith,
            unvisited-push_lt (names_of x.rc.options) c name (config_options-names_of x name ne)
                fresh,
          ))
          inner result)
    ∙ expand_list-Expands x (suc f) h k (result ++ i)
    ∙ rw append_assoc

Expanded-unique :
    (x : Context) (chain : List Text) (args out : List RcOption)
    → Expanded x chain args [] out
    → Expands x chain args out
Expanded-unique x chain args out (o, e, d) = subst (Expands x chain args) (sym e) d

-- With more fuel than there are names of configs, `expand_args` returns a list exactly if the relation
-- `Expands` gives it as the expansion: `--config=` flags are replaced in place, to any depth, by the
-- sections of the config, with no cycle, and with no config that is missing and may not be.
pub expand_args_iff :
    (f : ℕ) (x : Context) (args out : List RcOption)
    → unvisited (names_of x.rc.options) [] < f
    → (expand_args f x [] args [] ≡ ok out) ↔ Expands x [] args out
expand_args_iff zero x args out h = absurd (omega arith)
expand_args_iff (suc f) x args out h = (
  λ e.
      Expanded-unique x [] args out
        (subst (OnOk (Expanded x [] args [])) e (expand_args-Expands (suc f) x [] args [])),
  λ d. unfold expand_args in expand_list-Expands x f h d [],
)
