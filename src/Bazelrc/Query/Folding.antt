-- ===== src/Bazelrc/Query/Folding.antt =====
-- The folding of `--flag value` into `--flag=value`, as a function of its own, and what it keeps.
use aspect_cli.Base.{
  ◌≡◌, refl, ap, ap₂, ◌∙◌, inl, inr, Bool, true, false, ◌&&◌, Option, none, some, List, [], ◌∷◌,
  ◌++◌, map, append_assoc, arith, if◌then◌else◌, Bool-cases, keep, Text, text_eq, text_eq→eq,
  strip_prefix, starts_with_char, contains_char,
}
use aspect_cli.Bazelrc.Options.{RcOption}
use aspect_cli.Base.{sym}
use aspect_cli.Bazelrc.Query.{
  condition_eq, is_two_token_pair, Flag, override_prefix, is_common, partition_expand_all,
  next_value, value_or_next, flag_value_list,
}
use aspect_cli.Bazelrc.Query.FlagNames.{
  IsFlagName, strip_prefix-plain, value_if, strip_prefix-folded, strip_prefix-undashed,
  contains_folded, starts_with_char-append, text_eq-dash, text_eq-plain,
}

abbrev pub fold_pair : RcOption → RcOption → RcOption
fold_pair o n = record o { value = o.value ++ b'=' ∷ n.value }

-- the pairs of the `common` sections are folded
abbrev pub fold_pairs : List RcOption → List RcOption
fold_pairs [] = []
fold_pairs (o ∷ []) = o ∷ []
fold_pairs (o ∷ n ∷ opts) =
    let folded = fold_pair o n ∷ fold_pairs opts in
    let kept = o ∷ fold_pairs (n ∷ opts) in
    if is_common o && is_two_token_pair o n then folded else kept

abbrev pub as_override : RcOption → Flag
as_override o = (override_prefix ++ o.value, o.version_condition)

-- The overrides are the options of the `common` sections after the folding, in order.
pub partition_expand_all-overrides :
    (opts : List RcOption)
    → (partition_expand_all opts).0 ≡ map as_override (keep is_common (fold_pairs opts))
unfolding partition_expand_all
partition_expand_all-overrides [] = refl
partition_expand_all-overrides (o ∷ []) = ground arith
partition_expand_all-overrides (o ∷ n ∷ opts) = elim (Bool-cases (is_common o)) [
  | inr regular ↦ rw regular (rw regular (partition_expand_all-overrides (n ∷ opts)))
  | inl shared ↦ elim (Bool-cases (is_two_token_pair o n)) [
    | inl pair ↦ rw shared (
        rw pair (
          rw shared (ap (◌∷◌ (as_override (fold_pair o n))) (partition_expand_all-overrides opts))))
    | inr single ↦ rw shared (
        rw single
          (rw shared (ap (◌∷◌ (as_override o)) (partition_expand_all-overrides (n ∷ opts)))))
  ]
]

-- what a pair of the source is
record Pair (o n : RcOption) : Type 0 where
  dashed : starts_with_char b'-' o.value ≡ true
  plain : contains_char b'=' o.value ≡ false
  undashed : starts_with_char b'-' n.value ≡ false

Pair-is_two_token_pair : (o n : RcOption) → is_two_token_pair o n ≡ true → Pair o n
unfolding is_two_token_pair
Pair-is_two_token_pair o n h = record {
  dashed = ground arith;
  plain = ground arith;
  undashed = ground arith;
}

value_or_next-next :
    (name : Text) (o : RcOption) (opts others : List RcOption) (found : Option Text)
    → next_value opts ≡ next_value others
    → value_or_next name o opts found ≡ value_or_next name o others found
value_or_next-next name o opts others none e = ap (λ vs. if text_eq o.value name then vs else []) e
value_or_next-next name o opts others (some rest) e = refl

pub value_or_next-value :
    (name : Text) (o p : RcOption) (opts others : List RcOption)
    → o.value ≡ p.value
    → next_value opts ≡ next_value others
    → value_or_next name o opts (strip_prefix (name ++ b'=' ∷ []) o.value)
      ≡ value_or_next name p others (strip_prefix (name ++ b'=' ∷ []) p.value)
value_or_next-value name o p opts others d e =
    value_or_next-next name o opts others (strip_prefix (name ++ b'=' ∷ []) o.value) e
    ∙ ap (λ v. by_value v (strip_prefix (name ++ b'=' ∷ []) v)) d
  where
    by_value : Text → Option Text → List Text
    by_value v none = if text_eq v name then next_value others else []
    by_value v (some rest) = rest ∷ []

condition_eq→eq : (c d : Option Text) → condition_eq c d ≡ true → c ≡ d
condition_eq→eq none none h = refl
condition_eq→eq none (some d) h = cc
condition_eq→eq (some c) none h = cc
condition_eq→eq (some c) (some d) h = ap some (text_eq→eq c d h)

-- the version conditions of a pair agree
pub same_condition :
    (o n : RcOption) → is_two_token_pair o n ≡ true → n.version_condition ≡ o.version_condition
unfolding is_two_token_pair
same_condition o n h =
    let same : condition_eq o.version_condition n.version_condition ≡ true = ground arith in
    sym (condition_eq→eq o.version_condition n.version_condition same)

module _ (name : Text) (is_name : IsFlagName name) where
  -- the values that a pair gives, folded or not
  value_of_Pair :
      (o n : RcOption) (opts folded : List RcOption)
      → Pair o n
      → value_or_next name
          (fold_pair o n)
          folded
          (strip_prefix (name ++ b'=' ∷ []) (o.value ++ b'=' ∷ n.value))
        ≡ value_or_next name o (n ∷ opts) (strip_prefix (name ++ b'=' ∷ []) o.value)
          ++ value_or_next name n opts (strip_prefix (name ++ b'=' ∷ []) n.value)
  value_of_Pair o n opts folded p = rw (strip_prefix-plain name o.value [] p.plain) (
      rw (strip_prefix-undashed name n.value (b'=' ∷ []) is_name.dashed p.undashed) (
        rw (strip_prefix-folded name o.value n.value is_name.plain p.plain) (
          rw (text_eq-dash n.value name p.undashed is_name.dashed)
            (by_name (text_eq o.value name)))))
    where
      by_name :
          (b : Bool)
          → value_or_next name (fold_pair o n) folded (value_if b n.value)
            ≡ (if b then next_value (n ∷ opts) else []) ++ []
      by_name true = rw p.undashed refl
      by_name false =
          rw
            (text_eq-plain (o.value ++ b'=' ∷ n.value) name (contains_folded o.value n.value)
              is_name.plain)
            refl

  -- a test that does not tell the options of a pair, and what they are folded to, apart
  module _ (t : RcOption → Bool)
      (at_pair : (o n : RcOption)
        → is_two_token_pair o n ≡ true
        → (t (fold_pair o n) ≡ t o) × (t n ≡ t o)) where
    next_value-keep :
        (opts : List RcOption) → next_value (keep t (fold_pairs opts)) ≡ next_value (keep t opts)
    next_value-keep [] = refl
    next_value-keep (o ∷ []) = refl
    next_value-keep (o ∷ n ∷ opts) = elim (Bool-cases (is_common o && is_two_token_pair o n)) [
      | inr kept ↦ elim (Bool-cases (t o)) [
        | inl in_test ↦ rw (kept, in_test) refl
        | inr out ↦ rw (kept, out) (next_value-keep (n ∷ opts))
      ]
      | inl folded ↦ elim (Bool-cases (t o)) [
        | inl in_test ↦
            let p = Pair-is_two_token_pair o n (ground arith) in
            let (e, f) = at_pair o n (ground arith) in
            let dash = starts_with_char-append b'-' o.value (b'=' ∷ n.value) p.dashed in
            rw (folded, e, in_test, dash, p.dashed) refl
        | inr out ↦
            let (e, f) = at_pair o n (ground arith) in
            rw (folded, e, out, f, out) (next_value-keep opts)
      ]
    ]

    pub flag_value_list-keep :
        (opts : List RcOption)
        → flag_value_list (keep t (fold_pairs opts)) name ≡ flag_value_list (keep t opts) name
    unfolding flag_value_list
    flag_value_list-keep [] = refl
    flag_value_list-keep (o ∷ []) = refl
    flag_value_list-keep (o ∷ n ∷ opts) = elim (Bool-cases (is_common o && is_two_token_pair o n)) [
      | inr kept ↦ elim (Bool-cases (t o)) [
        | inl in_test ↦
            rw (kept, in_test)
              (ap₂ ◌++◌
                (value_or_next-next name o (keep t (fold_pairs (n ∷ opts))) (keep t (n ∷ opts))
                  (strip_prefix (name ++ b'=' ∷ []) o.value) (next_value-keep (n ∷ opts)))
                (flag_value_list-keep (n ∷ opts)))
        | inr out ↦ rw (kept, out) (flag_value_list-keep (n ∷ opts))
      ]
      | inl folded ↦ elim (Bool-cases (t o)) [
        | inl in_test ↦
            let p = Pair-is_two_token_pair o n (ground arith) in
            let (e, f) = at_pair o n (ground arith) in
            rw (folded, e, in_test, f, in_test)
              (ap₂ ◌++◌ (value_of_Pair o n (keep t opts) (keep t (fold_pairs opts)) p)
                  (flag_value_list-keep opts)
                ∙ rw append_assoc)
        | inr out ↦
            let (e, f) = at_pair o n (ground arith) in
            rw (folded, e, out, f, out) (flag_value_list-keep opts)
      ]
    ]
