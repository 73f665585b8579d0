-- ===== src/Base/Lists.antt =====
-- Lists over the native numbers: lengths, tests, predicates by recursion.
use Prim.Native.Nat.{ℕ, zero, suc, ◌+◌, ◌-◌, ◌<◌}
use mathlib.Core.Path.{◌≡◌, refl, ap, ◌∙◌}
use mathlib.Core.Bool.{Bool, true, false, ◌||◌}
use mathlib.Core.Option.{Option, none, some}
use mathlib.Core.List.{List, [], ◌∷◌, ◌++◌, map}
use native.Mathlib.Omega.{arith}
use aspect_cli.Base.Tests.{if◌then◌else◌}

module _ {ℓ} {A : Type ℓ} where
  abbrev pub length : List A → ℕ
  length [] = 0
  length (x ∷ xs) = suc (length xs)

  abbrev pub get_elem? : List A → ℕ → Option A
  get_elem? [] i = none
  get_elem? (x ∷ xs) zero = some x
  get_elem? (x ∷ xs) (suc i) = get_elem? xs i

  abbrev pub is_empty : List A → Bool
  is_empty [] = true
  is_empty (x ∷ xs) = false

  -- `Iterator::any`
  abbrev pub any : (A → Bool) → List A → Bool
  any p [] = false
  any p (x ∷ xs) = p x || any p xs

  -- `Iterator::filter` with a Boolean test
  abbrev pub keep : (A → Bool) → List A → List A
  keep p [] = []
  keep p (x ∷ xs) = let rest = keep p xs in if p x then x ∷ rest else rest

  -- what is there from an index on
  unfoldable pub drop : ℕ → List A → List A
  drop zero xs = xs
  drop (suc n) [] = []
  drop (suc n) (x ∷ xs) = drop n xs

  pub length-drop : (n : ℕ) (xs : List A) → length (drop n xs) ≡ length xs - n
  unfolding drop
  length-drop zero xs = omega arith
  length-drop (suc n) [] = omega arith
  length-drop (suc n) (x ∷ xs) = let rest = length-drop n xs in omega (arith, rest)

  -- the number of items to leave out, by an equation
  pub drop_as : (m n : ℕ) (xs : List A) → m ≡ n → drop m xs ≡ drop n xs
  drop_as m n xs e = ap (λ k. drop k xs) e

  pub drop-append :
      (n : ℕ) (xs ys : List A) → drop n (xs ++ ys) ≡ drop n xs ++ drop (n - length xs) ys
  unfolding drop
  drop-append zero xs ys = ap (λ zs. xs ++ zs) (drop_as 0 (0 - length xs) ys (omega arith))
  drop-append (suc n) [] ys = drop_as (suc n) (suc n - 0) ys (omega arith)
  drop-append (suc n) (x ∷ xs) ys =
      drop-append n xs ys
      ∙ ap (λ zs. drop n xs ++ zs)
          (drop_as (n - length xs) (suc n - suc (length xs)) ys (omega arith))

  pub drop-drop : (m n : ℕ) (xs : List A) → drop m (drop n xs) ≡ drop (n + m) xs
  unfolding drop
  drop-drop m zero xs = drop_as m (0 + m) xs (omega arith)
  drop-drop zero (suc n) [] = drop_as (suc n) (suc n + 0) [] (omega arith)
  drop-drop (suc m) (suc n) [] = drop_as (suc (n + suc m)) (suc n + suc m) [] (omega arith)
  drop-drop m (suc n) (x ∷ xs) =
      drop-drop m n xs ∙ drop_as (suc (n + m)) (suc n + m) (x ∷ xs) (omega arith)

  -- `Vec::pop`, and `PathBuf::pop` on the segments
  unfoldable pub pop : List A → List A
  pop [] = []
  pop (x ∷ []) = []
  pop (x ∷ y ∷ s) = x ∷ pop (y ∷ s)

  pub pop-append : (s : List A) (x : A) → pop (s ++ x ∷ []) ≡ s
  unfolding pop
  pop-append [] x = refl
  pop-append (y ∷ []) x = refl
  pop-append (y ∷ z ∷ s) x = ap (◌∷◌ y) (pop-append (z ∷ s) x)

  pub length-append : (xs ys : List A) → length (xs ++ ys) ≡ length xs + length ys
  length-append [] ys = omega arith
  length-append (x ∷ xs) ys = omega (arith, length-append xs ys)

  pub keep-append : (p : A → Bool) (xs ys : List A) → keep p (xs ++ ys) ≡ keep p xs ++ keep p ys
  keep-append p [] ys = refl
  keep-append p (x ∷ xs) ys = ground (arith, keep-append p xs ys)

  pub any-append : (p : A → Bool) (xs ys : List A) → any p (xs ++ ys) ≡ (any p xs || any p ys)
  any-append p [] ys = refl
  any-append p (x ∷ xs) ys = ground (arith, any-append p xs ys)

  pub get_elem?-append_left :
      (xs ys : List A) (i : ℕ) → i < length xs → get_elem? (xs ++ ys) i ≡ get_elem? xs i
  get_elem?-append_left [] ys i h = absurd (omega arith)
  get_elem?-append_left (x ∷ xs) ys zero h = refl
  get_elem?-append_left (x ∷ xs) ys (suc i) h = get_elem?-append_left xs ys i (omega arith)

  pub get_elem?-append_right :
      (xs ys : List A) (i : ℕ) → get_elem? (xs ++ ys) (i + length xs) ≡ get_elem? ys i
  get_elem?-append_right [] ys i = let e : i + 0 ≡ i = omega arith in ap (get_elem? ys) e
  get_elem?-append_right (x ∷ xs) ys i =
      let e : i + suc (length xs) ≡ suc (i + length xs) = omega arith in
      rw e (get_elem?-append_right xs ys i)

-- a predicate of each item
abbrev pub All {ℓ κ} : {A : Type ℓ} → (A → Type κ) → List A → Type κ
All P [] = Unit
All P (x ∷ xs) = P x × All P xs

module _ {ℓ κ} {A : Type ℓ} (P : A → Type κ) where
  pub All-append : (xs ys : List A) → All P xs → All P ys → All P (xs ++ ys)
  All-append [] ys hx hy = hy
  All-append (x ∷ xs) ys hx hy = (hx.0, All-append xs ys hx.1 hy)

  pub All-append_inv : (xs ys : List A) → All P (xs ++ ys) → All P xs × All P ys
  All-append_inv [] ys h = (tt, h)
  All-append_inv (x ∷ xs) ys h = let (a, b) = All-append_inv xs ys h.1 in ((h.0, a), b)

  pub All-keep : (p : A → Bool) (xs : List A) → All P xs → All P (keep p xs)
  All-keep p [] h = tt
  All-keep p (x ∷ xs) h = ground (arith, All-keep p xs h.1)

pub All-map {ℓ κ ι ν} :
    {A : Type ℓ} {B : Type ι} (P : A → Type κ) (Q : B → Type ν) (f : A → B)
    → ((x : A) → P x → Q (f x))
    → (xs : List A) → All P xs
    → All Q (map f xs)
All-map P Q f g [] h = tt
All-map P Q f g (x ∷ xs) h = (g x h.0, All-map P Q f g xs h.1)

pub All-imp {ℓ κ ι} :
    {A : Type ℓ} (P : A → Type κ) (Q : A → Type ι)
    → ((x : A) → P x → Q x)
    → (xs : List A) → All P xs
    → All Q xs
All-imp P Q g [] h = tt
All-imp P Q g (x ∷ xs) h = (g x h.0, All-imp P Q g xs h.1)

-- an item of a list, at its place
pub data In {ℓ} {A : Type ℓ} (x : A) : List A → Type ℓ where
  front : {ys : List A} → In x (x ∷ ys)
  behind : {y : A} {ys : List A} → In x ys → In x (y ∷ ys)

module _ {ℓ} {A : Type ℓ} where
  pub In-append : (x : A) {xs : List A} (ys : List A) → In x xs → In x (xs ++ ys)
  In-append x ys front = front
  In-append x ys (behind h) = behind (In-append x ys h)

  pub In-last : (x : A) (xs : List A) → In x (xs ++ x ∷ [])
  In-last x [] = front
  In-last x (z ∷ xs) = behind (In-last x xs)
