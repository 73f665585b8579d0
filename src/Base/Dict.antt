-- ===== src/Base/Dict.antt =====
-- `HashMap<String, Vec<V>>` as an association list. The order of the keys is the order of their
-- first insertion; the program's results do not depend on it.

use mathlib.Core.Path.{◌≡◌, refl}
use mathlib.Core.Logic.{inl, inr}
use mathlib.Core.Bool.{Bool, false, ◌||◌}
use mathlib.Core.List.{List, [], ◌∷◌, ◌++◌}
use native.Mathlib.Omega.{arith}
use aspect_cli.Base.Tests.{if◌then◌else◌, Bool-cases}
use aspect_cli.Base.Strings.{Text, text_eq, text_eq_iff, text_eq→eq}
use aspect_cli.Base.Lists.{All, All-append, All-imp}

abbrev pub Dict {ℓ} : Type ℓ → Type ℓ
Dict V = List (Text × List V)

module _ {ℓ} {V : Type ℓ} where
  -- `get(key).map(Vec::as_slice).unwrap_or(&[])`
  unfoldable pub get : Text → Dict V → List V
  get k [] = []
  get k ((j, vs) ∷ m) = if text_eq j k then vs else get k m

  -- `entry(key).or_default()`, extended by `new`
  unfoldable pub extend_at : Text → List V → Dict V → Dict V
  extend_at k new [] = (k, new) ∷ []
  extend_at k new ((j, vs) ∷ m) =
      if text_eq j k then (j, vs ++ new) ∷ m else (j, vs) ∷ extend_at k new m

  pub get-extend_at :
      (k j : Text) (new : List V) (m : Dict V)
      → get j (extend_at k new m) ≡ (if text_eq k j then get j m ++ new else get j m)
  unfolding get extend_at
  get-extend_at k j new [] = ground arith
  get-extend_at k j new ((i, vs) ∷ m) =
      ground (arith, text_eq_iff i k, text_eq_iff i j, text_eq_iff k j, get-extend_at k j new m)

  unfoldable pub has_key : Text → Dict V → Bool
  has_key k [] = false
  has_key k ((j, vs) ∷ m) = text_eq j k || has_key k m

  -- no key stands twice
  abbrev pub IsDict : Dict V → Type 0
  IsDict [] = Unit
  IsDict ((k, vs) ∷ m) = (has_key k m ≡ false) × IsDict m

  pub has_key-extend_at :
      (k j : Text) (new : List V) (m : Dict V)
      → has_key j (extend_at k new m) ≡ (text_eq k j || has_key j m)
  unfolding has_key extend_at
  has_key-extend_at k j new [] = refl
  has_key-extend_at k j new ((i, vs) ∷ m) =
      ground (arith, text_eq_iff i k, text_eq_iff i j, text_eq_iff k j, has_key-extend_at k j new m)

  pub IsDict-extend_at :
      (k : Text) (new : List V) (m : Dict V) → IsDict m → IsDict (extend_at k new m)
  unfolding extend_at
  IsDict-extend_at k new [] h = (unfold has_key in refl, tt)
  IsDict-extend_at k new ((i, vs) ∷ m) (h, d) = elim (Bool-cases (text_eq i k)) [
    | inl same ↦ rw same (h, d)
    | inr other ↦ rw other (
      ground (arith, has_key-extend_at k i new m, text_eq_iff i k, text_eq_iff k i),
      IsDict-extend_at k new m d,
    )
  ]

  pub get-no_key : (k : Text) (m : Dict V) → has_key k m ≡ false → get k m ≡ []
  unfolding get has_key
  get-no_key k [] h = refl
  get-no_key k ((j, vs) ∷ m) h = ground (arith, get-no_key k m)

-- a predicate of each value and its key
abbrev pub AllValues {ℓ κ} : {V : Type ℓ} → (Text → V → Type κ) → Dict V → Type κ
AllValues P [] = Unit
AllValues P ((k, vs) ∷ m) = All (P k) vs × AllValues P m

module _ {ℓ κ} {V : Type ℓ} (P : Text → V → Type κ) where
  pub All-get : (k : Text) (m : Dict V) → AllValues P m → All (P k) (get k m)
  unfolding get
  All-get k [] h = tt
  All-get k ((j, vs) ∷ m) (h, t) = elim (Bool-cases (text_eq j k)) [
    | inl same ↦ rw same (rw (text_eq→eq j k same) at h)
    | inr other ↦ rw other (All-get k m t)
  ]

  pub AllValues-extend_at :
      (k : Text) (new : List V) (m : Dict V)
      → All (P k) new
      → AllValues P m
      → AllValues P (extend_at k new m)
  unfolding extend_at
  AllValues-extend_at k new [] n h = (n, tt)
  AllValues-extend_at k new ((j, vs) ∷ m) n (h, t) = elim (Bool-cases (text_eq j k)) [
    | inl same ↦ rw same (All-append (P j) vs new h (rw (text_eq→eq j k same) n), t)
    | inr other ↦ rw other (h, AllValues-extend_at k new m n t)
  ]

pub AllValues-imp {ℓ κ ι} :
    {V : Type ℓ} (P : Text → V → Type κ) (Q : Text → V → Type ι)
    → ((k : Text) (v : V) → P k v → Q k v)
    → (m : Dict V) → AllValues P m
    → AllValues Q m
AllValues-imp P Q g [] h = tt
AllValues-imp P Q g ((k, vs) ∷ m) (h, t) = (All-imp (P k) (Q k) (g k) vs h, AllValues-imp P Q g m t)
