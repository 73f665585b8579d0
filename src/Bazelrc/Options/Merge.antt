-- ===== src/Bazelrc/Options/Merge.antt =====
-- `BazelRC::merge`: what the overlay does to the sections, the sources and the order of the options.
use aspect_cli.Base.{
  ℕ, ◌+◌, ◌<◌, ◌≡◌, sym, ap, ◌∙◌, inl, inr, List, [], ◌∷◌, ◌++◌, map, append-nil, arith, Bool-cases,
  length, length-append, get_elem?-append_left, get_elem?-append_right, All, All-map, Text, text_eq,
  text_eq→eq,
}
use aspect_cli.Base.Dict.{Dict, IsDict, get, get-extend_at, get-no_key, extend_at, AllValues}
use aspect_cli.Bazelrc.Options.{
  RcOption, BazelRc, raw_options, source_of, is_cli, rebase, merge_options, merge,
}
use aspect_cli.Bazelrc.Options.WellFormed.{
  Filed, IsFiled, IsWellFormed, IsFiled-extend_at, IsFiled-mono,
}

get-merge_options :
    (offset : ℕ) (key : Text) (m other : Dict RcOption)
    → IsDict other
    → get key (merge_options offset m other) ≡ get key m ++ map (rebase offset) (get key other)
unfolding merge_options get
get-merge_options offset key m [] d = sym (append-nil (get key m))
get-merge_options offset key m ((j, vs) ∷ other) (h, d) = elim (Bool-cases (text_eq j key)) [
  | inl same ↦
      let absent : get key other ≡ [] = get-no_key key other (rw (text_eq→eq j key same) at h) in
      rw same (
        get-merge_options offset key (extend_at j (map (rebase offset) vs) m) other d
        ∙ rw absent (rw append-nil (get-extend_at j key (map (rebase offset) vs) m ∙ rw same)))
  | inr different ↦ rw different (
      get-merge_options offset key (extend_at j (map (rebase offset) vs) m) other d
      ∙ ap (λ l. l ++ map (rebase offset) (get key other))
          (get-extend_at j key (map (rebase offset) vs) m ∙ rw different))
]

-- Each section of a merged run command holds the options of the base, followed by those of the
-- overlay with their source indices moved past the sources of the base.
pub raw_options-merge :
    (rc other : BazelRc) (key : Text)
    → IsWellFormed other
    → raw_options (merge rc other) key
      ≡ raw_options rc key ++ map (rebase (length rc.sources)) (raw_options other key)
unfolding raw_options merge
raw_options-merge rc other key w =
    get-merge_options (length rc.sources) key rc.options other.options w.keys

map-rebase-Filed :
    (n k : ℕ) (key : Text) (opts : List RcOption)
    → All (Filed k key) opts
    → All (Filed (n + k) key) (map (rebase n) opts)
map-rebase-Filed n k key =
    All-map (Filed k key) (Filed (n + k) key) (rebase n) (λ o f. (f.0, omega arith))

IsFiled-merge_options :
    (n k : ℕ) (m other : Dict RcOption)
    → IsFiled (n + k) m
    → AllValues (Filed k) other
    → IsFiled (n + k) (merge_options n m other)
unfolding merge_options
IsFiled-merge_options n k m [] w h = w
IsFiled-merge_options n k m ((j, vs) ∷ other) w (h, t) =
    IsFiled-merge_options n k (extend_at j (map (rebase n) vs) m) other
      (IsFiled-extend_at (n + k) j (map (rebase n) vs) m (map-rebase-Filed n k j vs h) w) t

-- Merging two well-formed run commands gives a well-formed one.
pub merge-IsWellFormed :
    (rc other : BazelRc) → IsWellFormed rc → IsWellFormed other → IsWellFormed (merge rc other)
unfolding merge
merge-IsWellFormed rc other w v = rw length-append (
    IsFiled-merge_options (length rc.sources) (length other.sources) rc.options other.options
      (IsFiled-mono (length rc.sources) _ rc.options (omega arith) w) v.entries)

-- An option of the overlay keeps its source file in the merged run command.
pub source_of-merge_right :
    (rc other : BazelRc) (o : RcOption)
    → source_of (merge rc other) (rebase (length rc.sources) o) ≡ source_of other o
unfolding source_of merge
source_of-merge_right rc other o = get_elem?-append_right rc.sources other.sources o.source_index

-- An option of the base keeps its source file in the merged run command.
pub source_of-merge_left :
    (rc other : BazelRc) (o : RcOption)
    → o.source_index < length rc.sources
    → source_of (merge rc other) o ≡ source_of rc o
unfolding source_of merge
source_of-merge_left rc other o h = get_elem?-append_left rc.sources other.sources o.source_index h

module _ (rc other : BazelRc) where
  pub is_cli-merge_right :
      (o : RcOption) → is_cli (merge rc other) (rebase (length rc.sources) o) ≡ is_cli other o
  unfolding is_cli merge
  is_cli-merge_right o = rw (get_elem?-append_right rc.sources other.sources o.source_index)

  pub is_cli-merge_left :
      (o : RcOption) → o.source_index < length rc.sources → is_cli (merge rc other) o ≡ is_cli rc o
  unfolding is_cli merge
  is_cli-merge_left o h = rw (get_elem?-append_left rc.sources other.sources o.source_index h)
