-- ===== src/Bazelrc/Query/LastWins.antt =====
-- Last write wins: `flag_value` and `bool_flag` against the list of the values that are written.
use aspect_cli.Base.{
  if◌then◌else◌, ◌||◌, ◌≡◌, refl, sym, ap, ◌∙◌, inl, inr, Bool, true, false, Option, none, some,
  List, [], ◌∷◌, ◌++◌, map, append-nil, append_assoc, Bool-cases, Text, text, text_eq, strip_prefix,
  strip_prefix-append, arith,
}
use aspect_cli.Bazelrc.Options.{RcOption}
use aspect_cli.Bazelrc.Query.{
  value_or_next, flag_value_list, last?, negated, read_bool, bool_step, bool_loop, last_bool_flag,
  or_self,
}

last?-append : (vs : List Text) (v : Text) → last? (vs ++ v ∷ []) ≡ some v
unfolding last?
last?-append [] v = refl
last?-append (w ∷ []) v = refl
last?-append (w ∷ u ∷ vs) v = last?-append (u ∷ vs) v

-- the values that an option gives, with `opts` behind it
abbrev values_of : Text → RcOption → List RcOption → List Text
values_of name o opts = value_or_next name o opts (strip_prefix (name ++ b'=' ∷ []) o.value)

-- All options but the last give what they gave before one more option came; the last may now take its
-- value from it.
flag_value_list-concat :
    (opts : List RcOption) (name : Text) (o : RcOption)
    → (vs : List Text) × (flag_value_list (opts ++ o ∷ []) name ≡ vs ++ values_of name o [])
unfolding flag_value_list
flag_value_list-concat [] name o = ([], append-nil (values_of name o []))
flag_value_list-concat (p ∷ opts) name o =
    let (vs, e) = flag_value_list-concat opts name o in
    (
      values_of name p (opts ++ o ∷ []) ++ vs,
      ap (◌++◌ (values_of name p (opts ++ o ∷ []))) e
          ∙ sym (append_assoc (values_of name p (opts ++ o ∷ [])) vs (values_of name o [])),
    )

-- Whatever stands before it, an option `name=value` at the end gives the last value of `name`.
pub last-flag_value_list :
    (opts : List RcOption) (name value : Text) (o : RcOption)
    → o.value ≡ name ++ b'=' ∷ value
    → last? (flag_value_list (opts ++ o ∷ []) name) ≡ some value
last-flag_value_list opts name value o e =
    let (vs, d) = flag_value_list-concat opts name o in
    let whole : o.value ≡ (name ++ b'=' ∷ []) ++ value =
      e ∙ sym (append_assoc name (b'=' ∷ []) value) in
    let found : strip_prefix (name ++ b'=' ∷ []) o.value ≡ some value =
      ap (strip_prefix (name ++ b'=' ∷ [])) whole ∙ strip_prefix-append (name ++ b'=' ∷ []) value in
    rw d (rw found (last?-append vs value))

-- all that can be written of the Boolean flag `--name`, and what it means
abbrev pub forms : Text → List (Text × Bool)
forms name =
    (text "--" ++ name, true)
    ∷ (text "--no" ++ name, false)
    ∷ (text "--" ++ name ++ text "=true", true)
    ∷ (text "--" ++ name ++ text "=1", true)
    ∷ (text "--" ++ name ++ text "=yes", true)
    ∷ (text "--" ++ name ++ text "=false", false)
    ∷ (text "--" ++ name ++ text "=0", false)
    ∷ (text "--" ++ name ++ text "=no", false)
    ∷ []

-- the meaning of the first form that is the text, none for a text that is no form
abbrev pub meaning : Text → List (Text × Bool) → Option Bool
meaning value [] = none
meaning value ((form, b) ∷ fs) =
    let rest = meaning value fs in if text_eq value form then some b else rest

-- what one option says of the flag, if it says something
abbrev pub says : Text → RcOption → Option Bool
says name o = meaning o.value (forms name)

abbrev pub later : Option Bool → Option Bool → Option Bool
later state none = state
later state (some b) = some b

-- the last of the values that are said
abbrev pub last_said : List (Option Bool) → Option Bool
last_said [] = none
last_said (s ∷ ss) = later s (last_said ss)

abbrev is_rest : Option Text → Text → Bool
is_rest none w = false
is_rest (some rest) w = text_eq rest w

text_eq-append : (p w v : Text) → text_eq v (p ++ w) ≡ is_rest (strip_prefix p v) w
unfolding strip_prefix text_eq
text_eq-append [] w v = refl
text_eq-append (d ∷ p) w [] = refl
text_eq-append (d ∷ p) w (c ∷ v) = ground (arith, text_eq-append p w v)

-- the table of the six values, whether the values are tested in one list or one by one
read_tests :
    (state : Option Bool) (a b c d e f : Bool)
    → (if a || (b || (c || false))
        then some true
        else if d || (e || (f || false))
        then some false
        else state)
      ≡ later state (
          if a
          then some true
          else if b
          then some true
          else if c
          then some true
          else if d
          then some false
          else if e
          then some false
          else if f
          then some false
          else none)
read_tests state true b c d e f = refl
read_tests state false true c d e f = refl
read_tests state false false true d e f = refl
read_tests state false false false true e f = refl
read_tests state false false false false true f = refl
read_tests state false false false false false true = refl
read_tests state false false false false false false = refl

read_bool-later :
    (state : Option Bool) (r : Option Text)
    → read_bool state r
      ≡ later state (
          if is_rest r (text "true")
          then some true
          else if is_rest r (text "1")
          then some true
          else if is_rest r (text "yes")
          then some true
          else if is_rest r (text "false")
          then some false
          else if is_rest r (text "0")
          then some false
          else if is_rest r (text "no")
          then some false
          else none)
read_bool-later state none = refl
read_bool-later state (some rest) =
    read_tests state (text_eq rest (text "true")) (text_eq rest (text "1"))
      (text_eq rest (text "yes")) (text_eq rest (text "false")) (text_eq rest (text "0"))
      (text_eq rest (text "no"))

negated-dashed : (name : Text) → negated (text "--" ++ name) ≡ text "--no" ++ name
negated-dashed name =
    ap (λ r. text "--no" ++ or_self (text "--" ++ name) r) (strip_prefix-append (text "--") name)

value_of_form :
    (name value word : Text)
    → text_eq value (text "--" ++ name ++ b'=' ∷ word)
      ≡ is_rest (strip_prefix (text "--" ++ name ++ b'=' ∷ []) value) word
value_of_form name value word =
    ap (text_eq value) (sym (append_assoc (text "--" ++ name) (b'=' ∷ []) word))
    ∙ text_eq-append (text "--" ++ name ++ b'=' ∷ []) word value

bool_step-later :
    (name : Text) (state : Option Bool) (o : RcOption)
    → bool_step (text "--" ++ name) state o ≡ later state (says name o)
unfolding bool_step
bool_step-later name state o =
    rw negated-dashed (elim (Bool-cases (text_eq o.value (text "--" ++ name))) [
      | inl bare ↦ rw bare refl
      | inr not_bare ↦ rw not_bare (elim (Bool-cases (text_eq o.value (text "--no" ++ name))) [
        | inl no_form ↦ rw no_form refl
        | inr other ↦ rw other (
            rw
              (
                value_of_form name o.value (text "true"),
                value_of_form name o.value (text "1"),
                value_of_form name o.value (text "yes"),
                value_of_form name o.value (text "false"),
                value_of_form name o.value (text "0"),
                value_of_form name o.value (text "no"),
              )
              (read_bool-later state (strip_prefix (text "--" ++ name ++ b'=' ∷ []) o.value)))
      ])
    ])

later_assoc : (a b c : Option Bool) → later (later a b) c ≡ later a (later b c)
later_assoc a b none = refl
later_assoc a b (some c) = refl

bool_loop-last_said :
    (name : Text) (state : Option Bool) (opts : List RcOption)
    → bool_loop (text "--" ++ name) state opts ≡ later state (last_said (map (says name) opts))
unfolding bool_loop
bool_loop-last_said name state [] = refl
bool_loop-last_said name state (o ∷ opts) =
    bool_loop-last_said name (bool_step (text "--" ++ name) state o) opts
    ∙ ap (λ s. later s (last_said (map (says name) opts))) (bool_step-later name state o)
    ∙ later_assoc state (says name o) (last_said (map (says name) opts))

later-none : (s : Option Bool) → later none s ≡ s
later-none none = refl
later-none (some b) = refl

-- The state of the Boolean flag `--name` is what the last option says of it, by the table of the eight
-- texts that say something: `--name`, `--noname`, and `--name=` with `true`, `1`, `yes`, `false`, `0` or
-- `no`. An option with any other text, such as an unknown value behind `=`, changes nothing.
pub last_bool_flag-last_said :
    (opts : List RcOption) (name : Text)
    → last_bool_flag opts (text "--" ++ name) ≡ last_said (map (says name) opts)
last_bool_flag-last_said opts name =
    bool_loop-last_said name none opts ∙ later-none (last_said (map (says name) opts))
