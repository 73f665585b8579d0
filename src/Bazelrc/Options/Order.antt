-- ===== src/Bazelrc/Options/Order.antt =====
-- The order in which a merged run command applies the options of its two inputs.
use aspect_cli.Base.{
  ◌<◌, ◌≡◌, refl, ap, ap₂, ◌∙◌, inl, inr, Bool, not, List, [], ◌∷◌, ◌++◌, map, Bool-cases, length,
  keep, keep-append, All, Text,
}
use aspect_cli.Base.Dict.{get, All-get}
use aspect_cli.Bazelrc.Options.{
  RcOption, BazelRc, always, common, command_ancestors, raw_options, is_cli, concat_options,
  options_for, rebase, merge,
}
use aspect_cli.Bazelrc.Options.Merge.{raw_options-merge, is_cli-merge_left, is_cli-merge_right}
use aspect_cli.Bazelrc.Options.WellFormed.{Filed, IsWellFormed}

pub keep_agree {ℓ κ} :
    {A : Type ℓ} (P : A → Type κ) (p q : A → Bool)
    → ((x : A) → P x → p x ≡ q x)
    → (xs : List A) → All P xs
    → keep p xs ≡ keep q xs
keep_agree P p q e [] h = refl
keep_agree P p q e (x ∷ xs) (h, t) = rw (e x h) (rw (keep_agree P p q e xs t))

keep-map {ℓ κ} :
    {A : Type ℓ} {B : Type κ} (f : A → B) (p : B → Bool) (q : A → Bool)
    → ((x : A) → p (f x) ≡ q x)
    → (xs : List A) → keep p (map f xs) ≡ map f (keep q xs)
keep-map f p q e [] = refl
keep-map f p q e (x ∷ xs) = elim (Bool-cases (q x)) [
  | inl h ↦ rw (e x) (rw h (ap (◌∷◌ (f x)) (keep-map f p q e xs)))
  | inr h ↦ rw (e x) (rw h (keep-map f p q e xs))
]

module _ (rc other : BazelRc) where
  -- options of the overlay, at their places in the merged run command
  abbrev pub moved : List RcOption → List RcOption
  moved = map (rebase (length rc.sources))

  -- a section of the base, then the same section of the overlay
  abbrev pub stacked : Text → List RcOption
  stacked key = raw_options rc key ++ moved (raw_options other key)

  abbrev pub stacked_all : List Text → List RcOption
  stacked_all [] = []
  stacked_all (k ∷ ks) = stacked k ++ stacked_all ks

  concat_options-merge :
      (keys : List Text)
      → IsWellFormed other
      → concat_options (merge rc other) keys ≡ stacked_all keys
  unfolding concat_options raw_options
  concat_options-merge [] v = refl
  concat_options-merge (k ∷ ks) v =
      ap₂ ◌++◌ (raw_options-merge rc other k v) (concat_options-merge ks v)

  keep-stacked :
      (p : BazelRc → RcOption → Bool)
      → ((o : RcOption) → o.source_index < length rc.sources → p (merge rc other) o ≡ p rc o)
      → ((o : RcOption) → p (merge rc other) (rebase (length rc.sources) o) ≡ p other o)
      → IsWellFormed rc
      → keep (p (merge rc other)) (stacked always)
        ≡ keep (p rc) (raw_options rc always) ++ moved (keep (p other) (raw_options other always))
  unfolding raw_options
  keep-stacked p left right w =
      keep-append (p (merge rc other)) (get always rc.options) (moved (get always other.options))
      ∙ ap₂ ◌++◌
          (keep_agree (Filed (length rc.sources) always) _ _ (λ o f. left o f.1)
            (get always rc.options)
            (All-get (Filed (length rc.sources)) always rc.options w.entries))
          (keep-map (rebase (length rc.sources)) _ _ right (get always other.options))

  abbrev pub from_files : BazelRc → List RcOption
  from_files b = keep (λ o. not (is_cli b o)) (raw_options b always)

  abbrev pub from_caller : BazelRc → List RcOption
  from_caller b = keep (is_cli b) (raw_options b always)

  -- The options of a merged run command, layer by layer: the `always` options of the files, `common`,
  -- the ancestors of the command, the command, and the caller's flags at the end. In each layer the
  -- options of the base come first and those of the overlay follow.
  pub options_for-merge :
      (command : Text)
      → IsWellFormed rc
      → IsWellFormed other
      → options_for (merge rc other) command
        ≡ (from_files rc ++ moved (from_files other))
          ++ (stacked common
              ++ (stacked_all (command_ancestors command)
                  ++ (stacked command ++ (from_caller rc ++ moved (from_caller other)))))
  unfolding options_for raw_options
  options_for-merge command w v = rw (raw_options-merge rc other always v) (
      rw (raw_options-merge rc other common v) (
        rw (raw_options-merge rc other command v) (
          rw (concat_options-merge (command_ancestors command) v) (
            rw (keep-stacked is_cli (is_cli-merge_left rc other) (is_cli-merge_right rc other) w) (
              rw (
                keep-stacked (λ b o. not (is_cli b o))
                  (λ o h. ap not (is_cli-merge_left rc other o h))
                  (λ o. ap not (is_cli-merge_right rc other o)) w))))))
