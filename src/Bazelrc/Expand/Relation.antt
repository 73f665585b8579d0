-- ===== src/Bazelrc/Expand/Relation.antt =====
-- The expansion of configs as a relation, and `expand_args` against it.
use aspect_cli.Bazelrc.Options.{OnOk-imp}
use aspect_cli.Base.{
  ℕ, zero, suc, ◌≡◌, refl, sym, ◌∙◌, subst, ◌≢◌, inl, inr, true, false, Option, none, some, List,
  [], ◌∷◌, ◌++◌, map, append-nil, append_assoc, Bool-cases, any, Text, text_eq, strip_prefix,
}
use aspect_cli.Bazelrc.Expand.{
  config_prefix, Context, config_options, inherit, may_be_missing, Expander, expand_found,
  expand_option, expand_list, expand_args,
}
use aspect_cli.Bazelrc.Options.{RcOption, Result, ok, err, OnOk, OnOk-bind}

abbrev pub config_of : RcOption → Option Text
config_of o = strip_prefix config_prefix o.value

-- `Expands x chain args out`: below the configs of `chain`, `args` become `out`.
pub data Expands (x : Context) : List Text → List RcOption → List RcOption → Type 0 where
  done : {chain : List Text} → Expands x chain [] []
  flag :
      {chain : List Text} {o : RcOption} {args out : List RcOption}
      → config_of o ≡ none
      → Expands x chain args out
      → Expands x chain (o ∷ args) (o ∷ out)
  missing :
      {chain : List Text} {o : RcOption} {args out : List RcOption} (name : Text)
      → config_of o ≡ some name
      → any (text_eq name) chain ≡ false
      → config_options x name ≡ []
      → may_be_missing x chain name ≡ true
      → Expands x chain args out
      → Expands x chain (o ∷ args) out
  config :
      {chain : List Text} {o : RcOption} {args inner out : List RcOption} (name : Text)
      → config_of o ≡ some name
      → any (text_eq name) chain ≡ false
      → config_options x name ≢ []
      → Expands x
          (chain ++ name ∷ [])
          (map (inherit o.version_condition) (config_options x name))
          inner
      → Expands x chain args out
      → Expands x chain (o ∷ args) (inner ++ out)

-- `r` is `result` with an expansion of `args` behind it
abbrev pub Expanded : Context → List Text → List RcOption → List RcOption → List RcOption → Type 0
Expanded x chain args result r =
    (out : List RcOption) × (r ≡ result ++ out) × Expands x chain args out

abbrev Sound : Context → Expander → Type 0
Sound x expand =
    (chain : List Text) (args result : List RcOption)
    → OnOk (Expanded x chain args result) (expand chain args result)

Expanded-cons :
    (x : Context) (chain : List Text) (o : RcOption) (args result first : List RcOption)
    → ((out : List RcOption) → Expands x chain args out → Expands x chain (o ∷ args) (first ++ out))
    → (r : Result (List RcOption)) → OnOk (Expanded x chain args (result ++ first)) r
    → OnOk (Expanded x chain (o ∷ args) result) r
Expanded-cons x chain o args result first k (ok r) (out, e, d) =
    (first ++ out, e ∙ append_assoc result first out, k out d)
Expanded-cons x chain o args result first k (err e) h = tt

-- what one option turns into
abbrev Turns : Context → List Text → RcOption → List RcOption → List RcOption → Type 0
Turns x chain o result r =
    (first : List RcOption) × (r ≡ result ++ first)
    × ((args out : List RcOption)
        → Expands x chain args out
        → Expands x chain (o ∷ args) (first ++ out))

module _ (x : Context) (expand : Expander) (sound : Sound x expand) where
  Turns-config :
      (chain : List Text) (o : RcOption) (name : Text) (result r : List RcOption)
      → config_of o ≡ some name
      → any (text_eq name) chain ≡ false
      → config_options x name ≢ []
      → Expanded x
          (chain ++ name ∷ [])
          (map (inherit o.version_condition) (config_options x name))
          result
          r
      → Turns x chain o result r
  Turns-config chain o name result r e fresh ne (inner, s, d) =
      (inner, s, λ args out k. config name e fresh ne d k)

  expand_found-Turns :
      (chain : List Text) (o : RcOption) (name : Text) (opts result : List RcOption)
      → config_of o ≡ some name
      → any (text_eq name) chain ≡ false
      → config_options x name ≡ opts
      → OnOk
          (Turns x chain o result)
          (expand_found x expand chain name o.version_condition opts result)
  unfolding expand_found
  expand_found-Turns chain o name [] result e fresh opts =
      elim (Bool-cases (may_be_missing x chain name)) [
        | inl may ↦
            rw may ([], sym (append-nil result), λ args out k. missing name e fresh opts may k)
        | inr must ↦ rw must tt
      ]
  expand_found-Turns chain o name (p ∷ ps) result e fresh opts =
      OnOk-imp (Expanded x (chain ++ name ∷ []) (map (inherit o.version_condition) (p ∷ ps)) result)
        (Turns x chain o result)
        (expand (chain ++ name ∷ []) (map (inherit o.version_condition) (p ∷ ps)) result)
        (λ r d. Turns-config chain o name result r e fresh (λ none. cc (opts, none)) (rw opts d))
        (sound (chain ++ name ∷ []) (map (inherit o.version_condition) (p ∷ ps)) result)

  expand_option-Turns :
      (chain : List Text) (o : RcOption) (found : Option Text) (result : List RcOption)
      → config_of o ≡ found
      → OnOk (Turns x chain o result) (expand_option x expand chain o found result)
  unfolding expand_option
  expand_option-Turns chain o none result e = (o ∷ [], refl, λ args out k. flag e k)
  expand_option-Turns chain o (some name) result e = elim (Bool-cases (any (text_eq name) chain)) [
    | inl cycle ↦ rw cycle tt
    | inr fresh ↦
        rw fresh (expand_found-Turns chain o name (config_options x name) result e fresh refl)
  ]

  expand_list-Sound : Sound x (expand_list x expand)
  unfolding expand_list
  expand_list-Sound chain [] result = ([], sym (append-nil result), done)
  expand_list-Sound chain (o ∷ args) result =
      let first = expand_option x expand chain o (config_of o) result in
      OnOk-bind (Turns x chain o result) (Expanded x chain (o ∷ args) result) first
        (expand_list x expand chain args) (expand_option-Turns chain o (config_of o) result refl)
        (then_rest (expand_list-Sound chain args))
    where
      then_rest :
          ((mid : List RcOption)
            → OnOk (Expanded x chain args mid) (expand_list x expand chain args mid))
          → (mid : List RcOption) → Turns x chain o result mid
          → OnOk (Expanded x chain (o ∷ args) result) (expand_list x expand chain args mid)
      then_rest ih mid (f, e, k) =
          Expanded-cons x chain o args result f (k args) (expand_list x expand chain args mid) (
            subst (λ m. OnOk (Expanded x chain args m) (expand_list x expand chain args mid)) e
              (ih mid))

-- Whatever `expand_args` returns is its accumulator, followed by an expansion of the arguments.
pub expand_args-Expands :
    (f : ℕ) (x : Context) (chain : List Text) (args result : List RcOption)
    → OnOk (Expanded x chain args result) (expand_args f x chain args result)
unfolding expand_args
expand_args-Expands zero x chain args result = tt
expand_args-Expands (suc f) x chain args result =
    expand_list-Sound x (expand_args f x) (expand_args-Expands f x) chain args result
