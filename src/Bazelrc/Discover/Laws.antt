-- ===== src/Bazelrc/Discover/Laws.antt =====
-- The result of `discover_rc_files`.
use aspect_cli.Base.{
  ◌≡◌, refl, ◌∙◌, inl, inr, Bool, true, false, ◌||◌, List, [], ◌∷◌, ◌++◌, arith, Bool-cases, any,
  any-append, Text, text, text_eq, text_eq→eq, text_eq_iff,
}
use aspect_cli.Bazelrc.Discover.{
  Environment, RcFlags, no_flags, read_flag, read_flags, candidates, canonical, deduplicate,
  discover_rc_files,
}
use aspect_cli.Bazelrc.Options.{Result, ok, ◌>>=◌, OnOk}
use aspect_cli.Bazelrc.Parse.{FileSystem}

abbrev pub is_member : List Text → Text → Bool
is_member l x = any (text_eq x) l

abbrev pub IsDistinct : List Text → Type 0
IsDistinct [] = Unit
IsDistinct (x ∷ l) = (is_member l x ≡ false) × IsDistinct l

IsDistinct-append :
    (l : List Text) (x : Text) → IsDistinct l → is_member l x ≡ false → IsDistinct (l ++ x ∷ [])
IsDistinct-append [] x d h = (refl, tt)
IsDistinct-append (y ∷ l) x (k, d) h = (
  rw any-append (ground (arith, text_eq_iff x y, text_eq_iff y x)),
  IsDistinct-append l x d (ground arith),
)

module _ (fs : FileSystem) where
  deduplicate-IsDistinct :
      (result paths : List Text) → IsDistinct result → IsDistinct (deduplicate fs result paths)
  unfolding deduplicate
  deduplicate-IsDistinct result [] d = d
  deduplicate-IsDistinct result (p ∷ paths) d =
      elim (Bool-cases (is_member result (canonical fs p))) [
        | inl seen ↦ rw seen (deduplicate-IsDistinct result paths d)
        | inr new ↦ rw new (
            deduplicate-IsDistinct (result ++ canonical fs p ∷ []) paths
              (IsDistinct-append result (canonical fs p) d new))
      ]

  -- the canonical path of one of the candidates
  abbrev pub is_canonical_of : List Text → Text → Bool
  is_canonical_of paths x = any (λ p. text_eq x (canonical fs p)) paths

  seen_already :
      (result paths : List Text) (p x : Text)
      → is_member result (canonical fs p) ≡ true
      → (is_member result x || is_canonical_of paths x)
        ≡ (is_member result x || is_canonical_of (p ∷ paths) x)
  seen_already result paths p x seen = elim (Bool-cases (text_eq x (canonical fs p))) [
    | inl same ↦
        let e : is_member result x ≡ true = rw (text_eq→eq x (canonical fs p) same) seen in
        rw e refl
    | inr other ↦ rw other
  ]

  member-deduplicate :
      (result paths : List Text) (x : Text)
      → is_member (deduplicate fs result paths) x ≡ (is_member result x || is_canonical_of paths x)
  unfolding deduplicate
  member-deduplicate result [] x = ground arith
  member-deduplicate result (p ∷ paths) x = elim (Bool-cases (is_member result (canonical fs p))) [
    | inl seen ↦ rw seen (member-deduplicate result paths x ∙ seen_already result paths p x seen)
    | inr new ↦ rw new (
        ground (
          arith,
          member-deduplicate (result ++ canonical fs p ∷ []) paths x,
          any-append (text_eq x) result (canonical fs p ∷ []),
        ))
  ]

  -- If `discover_rc_files` succeeds, no path occurs twice in its result.
  pub discover_rc_files-IsDistinct :
      (env : Environment) (root : Text) (flags : List Text)
      → OnOk IsDistinct (discover_rc_files fs env root flags)
  unfolding discover_rc_files
  discover_rc_files-IsDistinct env root flags =
      from (candidates fs env root (read_flags no_flags flags))
    where
      from :
          (r : Result (List Text)) → OnOk IsDistinct (r >>= λ paths. ok (deduplicate fs [] paths))
      from (ok paths) = deduplicate-IsDistinct [] paths tt
      from other = tt

  -- If the candidates are found, the paths that `discover_rc_files` returns are the canonical paths of the
  -- candidates: a path is among them exactly if it is one of those.
  pub member-discover_rc_files :
      (env : Environment) (root : Text) (flags paths : List Text) (x : Text)
      → candidates fs env root (read_flags no_flags flags) ≡ ok paths
      → OnOk
          (λ found. is_member found x ≡ is_canonical_of paths x)
          (discover_rc_files fs env root flags)
  unfolding discover_rc_files
  member-discover_rc_files env root flags paths x e = rw e (member-deduplicate [] paths x)

read_flag-ignore_all :
    (r : RcFlags) (s : Text) → r.ignore_all_rc ≡ true → (read_flag r s).ignore_all_rc ≡ true
unfolding read_flag
read_flag-ignore_all r s h = ground arith

ignore_all-kept :
    (r : RcFlags) (flags : List Text)
    → r.ignore_all_rc ≡ true
    → (read_flags r flags).ignore_all_rc ≡ true
unfolding read_flags
ignore_all-kept r [] h = h
ignore_all-kept r (s ∷ flags) h = ignore_all-kept (read_flag r s) flags (read_flag-ignore_all r s h)

read_flag-sets : (r : RcFlags) → (read_flag r (text "--ignore_all_rc_files")).ignore_all_rc ≡ true
unfolding read_flag text_eq
read_flag-sets r = refl

read_flags-ignore_all :
    (r : RcFlags) (flags : List Text)
    → is_member flags (text "--ignore_all_rc_files") ≡ true
    → (read_flags r flags).ignore_all_rc ≡ true
unfolding read_flags
read_flags-ignore_all r [] h = cc
read_flags-ignore_all r (s ∷ flags) h =
    elim (Bool-cases (text_eq (text "--ignore_all_rc_files") s)) [
      | inl same ↦
          rw (← text_eq→eq (text "--ignore_all_rc_files") s same)
            (ignore_all-kept (read_flag r (text "--ignore_all_rc_files")) flags (read_flag-sets r))
      | inr other ↦ read_flags-ignore_all (read_flag r s) flags (rw other at h)
    ]

-- With `--ignore_all_rc_files` among the startup flags no file is loaded, not even one that is named
-- by `--bazelrc=` or by `BAZELRC`, and no missing file is an error.
pub discover_rc_files-ignore_all :
    (fs : FileSystem) (env : Environment) (root : Text) (flags : List Text)
    → is_member flags (text "--ignore_all_rc_files") ≡ true
    → discover_rc_files fs env root flags ≡ ok []
unfolding discover_rc_files candidates
discover_rc_files-ignore_all fs env root flags h = rw (read_flags-ignore_all no_flags flags h)
