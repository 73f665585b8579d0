-- ===== src/Loader/Confined.antt =====
-- `join_confined` and its base.
use aspect_cli.Base.{
  ℕ, ◌+◌, ◌-◌, ◌<◌, ◌≡◌, refl, sym, ap, subst, ◌↔◌, true, false, List, [], ◌∷◌, ◌++◌, append-nil,
  append_assoc, arith, length, is_empty, pop, length-append, Text,
}
use aspect_cli.Loader.{
  FilePath, Component, root_dir, cur_dir, parent_dir, normal, path_eq, path_eq_refl,
  outside_of_base, Result, ok, err, OnOk, join_from, join_confined,
}

-- a path at or below a base
abbrev pub Inside : FilePath → FilePath → Type 0
Inside base dest = (rest : FilePath) × (dest ≡ base ++ rest)

-- going down a path never climbs above the depth at which it starts
abbrev pub Stays : ℕ → List Component → Type 0
Stays d [] = Unit
Stays d (root_dir ∷ cs) = ⊥
Stays d (cur_dir ∷ cs) = Stays d cs
Stays d (parent_dir ∷ cs) = (0 < d) × Stays (d - 1) cs
Stays d (normal s ∷ cs) = Stays (d + 1) cs

at_base : (base : FilePath) → path_eq (base ++ []) base ≡ true
at_base base = rw (append-nil base) (path_eq_refl base)

below_base : (base rest : FilePath) (x : Text) → path_eq (base ++ x ∷ rest) base ≡ false
unfolding path_eq
below_base [] rest x = refl
below_base (b ∷ base) rest x = ground (arith, below_base base rest x)

pop_below : (base rest : FilePath) (x : Text) → pop (base ++ x ∷ rest) ≡ base ++ pop (x ∷ rest)
unfolding pop
pop_below [] rest x = refl
pop_below (b ∷ []) rest x = refl
pop_below (b ∷ c ∷ base) rest x = ap (◌∷◌ b) (pop_below (c ∷ base) rest x)

-- a destination below the base is left by one segment, the base itself by none
parent_cases {ℓ} :
    (Q : Result FilePath → Type ℓ) (base rest : FilePath) (cs : List Component)
    → (is_empty rest ≡ true → Q (err outside_of_base))
    → (is_empty rest ≡ false → Q (join_from base (base ++ pop rest) cs))
    → Q (join_from base (base ++ rest) (parent_dir ∷ cs))
unfolding join_from
parent_cases Q base [] cs hq hr = rw (at_base base) (hq refl)
parent_cases Q base (x ∷ rest) cs hq hr =
    rw (below_base base rest x, pop_below base rest x) (hr refl)

push_rest :
    (base rest : FilePath) (s : Text) (cs : List Component)
    → join_from base (base ++ rest) (normal s ∷ cs) ≡ join_from base (base ++ (rest ++ s ∷ [])) cs
unfolding join_from
push_rest base rest s cs = ap (λ d. join_from base d cs) (append_assoc base rest (s ∷ []))

join_from-Inside :
    (base rest : FilePath) (cs : List Component)
    → OnOk (Inside base) (join_from base (base ++ rest) cs)
unfolding join_from
join_from-Inside base rest [] = (rest, refl)
join_from-Inside base rest (root_dir ∷ cs) = tt
join_from-Inside base rest (cur_dir ∷ cs) = join_from-Inside base rest cs
join_from-Inside base rest (parent_dir ∷ cs) =
    parent_cases (OnOk (Inside base)) base rest cs (λ top. tt)
      (λ below. join_from-Inside base (pop rest) cs)
join_from-Inside base rest (normal s ∷ cs) =
    subst (OnOk (Inside base)) (sym (push_rest base rest s cs))
      (join_from-Inside base (rest ++ s ∷ []) cs)

-- What `join_confined` returns lies at or below its base, whatever the path that it joins.
pub join_confined-Inside :
    (base : FilePath) (subpath : List Component) → OnOk (Inside base) (join_confined base subpath)
unfolding join_confined
join_confined-Inside base subpath =
    subst (λ d. OnOk (Inside base) (join_from base d subpath)) (append-nil base)
      (join_from-Inside base [] subpath)

abbrev pub IsOk : Result FilePath → Type 0
IsOk (ok p) = Unit
IsOk (err e) = ⊥

length-pop : (rest : FilePath) → length (pop rest) ≡ length rest - 1
unfolding pop
length-pop [] = refl
length-pop (x ∷ []) = refl
length-pop (x ∷ y ∷ rest) = omega (arith, length-pop (y ∷ rest))

not_empty : (rest : FilePath) → is_empty rest ≡ false → 0 < length rest
not_empty [] h = cc
not_empty (x ∷ rest) h = omega arith

empty_length : (rest : FilePath) → is_empty rest ≡ true → length rest ≡ 0
empty_length [] h = refl
empty_length (x ∷ rest) h = cc

join_from_iff :
    (base rest : FilePath) (cs : List Component)
    → IsOk (join_from base (base ++ rest) cs) ↔ Stays (length rest) cs
unfolding join_from
join_from_iff base rest [] = (λ h. tt, λ h. tt)
join_from_iff base rest (root_dir ∷ cs) = (λ h. h, λ h. h)
join_from_iff base rest (cur_dir ∷ cs) = join_from_iff base rest cs
join_from_iff base rest (parent_dir ∷ cs) =
    parent_cases (λ r. IsOk r ↔ ((0 < length rest) × Stays (length rest - 1) cs)) base rest cs
      (λ top. (λ h. absurd h, λ h. absurd (omega (arith, h.0, empty_length rest top))))
      (λ below.
        let (there, back) = join_from_iff base (pop rest) cs in
        let e = length-pop rest in
        (
          λ h. (not_empty rest below, subst (λ n. Stays n cs) e (there h)),
          λ h. back (subst (λ n. Stays n cs) (sym e) h.1),
        ))
join_from_iff base rest (normal s ∷ cs) =
    let (there, back) = join_from_iff base (rest ++ s ∷ []) cs in
    let e : length (rest ++ s ∷ []) ≡ length rest + 1 = length-append rest (s ∷ []) in
    subst (λ r. IsOk r ↔ Stays (length rest + 1) cs) (sym (push_rest base rest s cs))
      (λ h. subst (λ n. Stays n cs) e (there h), λ h. back (subst (λ n. Stays n cs) (sym e) h))

-- `join_confined` succeeds exactly if the path has no root and climbs nowhere above where it starts: a
-- path that leaves the base on its way is refused even if it comes back.
pub join_confined_iff :
    (base : FilePath) (subpath : List Component)
    → IsOk (join_confined base subpath) ↔ Stays 0 subpath
unfolding join_confined
join_confined_iff base subpath =
    subst (λ d. IsOk (join_from base d subpath) ↔ Stays 0 subpath) (append-nil base)
      (join_from_iff base [] subpath)
