-- ===== src/Bazelrc/Query/Partition.antt =====
-- `partition_expand_all`: the regular flags, and the folding of two-token options.
use aspect_cli.Base.{
  ◌≡◌, refl, sym, ap, inl, inr, true, not, List, [], ◌∷◌, map, arith, Bool-cases, keep, text_eq,
  text_eq→eq, before_char,
}
use aspect_cli.Bazelrc.Options.{RcOption, common}
use aspect_cli.Bazelrc.Query.{is_two_token_pair, Flag, is_common, partition_expand_all}

pub is_common-pair : (o n : RcOption) → is_two_token_pair o n ≡ true → is_common n ≡ is_common o
unfolding is_two_token_pair
is_common-pair o n h =
    let same : text_eq o.command n.command ≡ true = ground arith in
    ap (λ c. text_eq (before_char b':' c) common) (sym (text_eq→eq o.command n.command same))

abbrev pub as_flag : RcOption → Flag
as_flag o = (o.value, o.version_condition)

-- The regular flags are the options of the other sections, each once, in order, with their version
-- conditions.
pub partition_expand_all-regular :
    (opts : List RcOption)
    → (partition_expand_all opts).1 ≡ map as_flag (keep (λ o. not (is_common o)) opts)
unfolding partition_expand_all
partition_expand_all-regular [] = refl
partition_expand_all-regular (o ∷ []) = ground arith
partition_expand_all-regular (o ∷ n ∷ opts) = elim (Bool-cases (is_common o)) [
  | inr regular ↦ rw regular (ap (◌∷◌ (as_flag o)) (partition_expand_all-regular (n ∷ opts)))
  | inl shared ↦ elim (Bool-cases (is_two_token_pair o n)) [
    | inl pair ↦
        rw shared
          (rw pair (rw (is_common-pair o n pair) (rw shared (partition_expand_all-regular opts))))
    | inr single ↦ rw shared (rw single (partition_expand_all-regular (n ∷ opts)))
  ]
]
