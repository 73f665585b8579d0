-- ===== src/Bazelrc/Options/WellFormed.antt =====
-- The invariant of a `BazelRC`: its sections are those of a map, each option names its section, and
-- its source index lies within `sources`, which `source_of` indexes with no test.
use aspect_cli.Base.{
  ℕ, zero, suc, ◌≤◌, ◌<◌, ◌≡◌, refl, some, List, [], ◌∷◌, arith, length, get_elem?, All, All-append,
  All-keep, All-imp, Text,
}
use aspect_cli.Base.Dict.{
  Dict, IsDict, IsDict-extend_at, AllValues, AllValues-extend_at, AllValues-imp, All-get, extend_at,
  get,
}
use aspect_cli.Bazelrc.Options.{
  RcOption, BazelRc, always, common, command_ancestors, source_of, concat_options, options_for,
}

abbrev pub Filed : ℕ → Text → RcOption → Type 0
Filed n k o = (o.command ≡ k) × (o.source_index < n)

pub record IsFiled (n : ℕ) (m : Dict RcOption) : Type 0 where
  pub keys : IsDict m
  pub entries : AllValues (Filed n) m

abbrev pub IsWellFormed : BazelRc → Type 0
IsWellFormed rc = IsFiled (length rc.sources) rc.options

pub IsFiled-empty : (n : ℕ) → IsFiled n []
IsFiled-empty n = record { keys = tt; entries = tt }

pub IsFiled-mono : (n k : ℕ) (m : Dict RcOption) → n ≤ k → IsFiled n m → IsFiled k m
IsFiled-mono n k m h w = record {
  keys = w.keys;
  entries = AllValues-imp (Filed n) (Filed k) (λ s o f. (f.0, omega arith)) m w.entries;
}

pub IsFiled-extend_at :
    (n : ℕ) (key : Text) (new : List RcOption) (m : Dict RcOption)
    → All (Filed n key) new
    → IsFiled n m
    → IsFiled n (extend_at key new m)
IsFiled-extend_at n key new m h w = record {
  keys = IsDict-extend_at key new m w.keys;
  entries = AllValues-extend_at (Filed n) key new m h w.entries;
}

-- `source_of` finds the file of the option
abbrev pub HasSource : BazelRc → RcOption → Type 0
HasSource rc o = (path : Text) × (source_of rc o ≡ some path)

get_elem?-below :
    (l : List Text) (i : ℕ) → i < length l → (path : Text) × (get_elem? l i ≡ some path)
get_elem?-below [] i h = absurd (omega arith)
get_elem?-below (x ∷ l) zero h = (x, refl)
get_elem?-below (x ∷ l) (suc i) h = get_elem?-below l i (omega arith)

pub Filed-HasSource :
    (rc : BazelRc) (key : Text) (o : RcOption) → Filed (length rc.sources) key o → HasSource rc o
unfolding source_of
Filed-HasSource rc key o h = get_elem?-below rc.sources o.source_index h.1

section_HasSource :
    (rc : BazelRc) (key : Text) → IsWellFormed rc → All (HasSource rc) (get key rc.options)
section_HasSource rc key w =
    All-imp (Filed (length rc.sources) key) (HasSource rc) (Filed-HasSource rc key)
      (get key rc.options) (All-get (Filed (length rc.sources)) key rc.options w.entries)

concat_options-HasSource :
    (rc : BazelRc) (keys : List Text)
    → IsWellFormed rc
    → All (HasSource rc) (concat_options rc keys)
unfolding concat_options
concat_options-HasSource rc [] w = tt
concat_options-HasSource rc (k ∷ ks) w =
    All-append (HasSource rc) (get k rc.options) (concat_options rc ks) (section_HasSource rc k w)
      (concat_options-HasSource rc ks w)

-- In a well-formed run command, `source_of` finds a source file for each option that
-- `options_for` returns: the index that it uses without a test is never out of range.
pub options_for-HasSource :
    (rc : BazelRc) (command : Text) → IsWellFormed rc → All (HasSource rc) (options_for rc command)
unfolding options_for
options_for-HasSource rc command w =
    let own = section_HasSource rc in
    All-append (HasSource rc) _ _ (All-keep (HasSource rc) _ _ (own always w)) (
      All-append (HasSource rc) _ _ (own common w) (
        All-append (HasSource rc) _ _ (concat_options-HasSource rc (command_ancestors command) w) (
          All-append (HasSource rc) _ _ (own command w)
            (All-keep (HasSource rc) _ _ (own always w)))))
