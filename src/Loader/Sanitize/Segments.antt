-- ===== src/Loader/Sanitize/Segments.antt =====
-- What an accepted path consists of.
use aspect_cli.Base.{
  ℕ, ◌≡◌, refl, sym, ap, subst, inl, inr, Bool, true, false, List, [], ◌∷◌, if◌then◌else◌,
  Bool-cases, is_empty, All, Text, text, text_eq, text_eq→eq, trim,
}
use aspect_cli.Loader.{
  Component, root_dir, cur_dir, parent_dir, normal, invalid_segment, Result, ok, err, ◌>>=◌,
}
use aspect_cli.Loader.LoadPath.{
  validate_path_segment, components, later_components, byte_length, is_reserved, is_path_char,
}
use aspect_cli.Loader.Sanitize.{validate_segments}

-- a valid file name
abbrev pub IsName : Component → Type 0
IsName (normal s) = validate_path_segment s ≡ ok tt
IsName _ = ⊥

-- parents, then names
abbrev pub Climbs : List Component → Type 0
Climbs [] = Unit
Climbs (root_dir ∷ cs) = ⊥
Climbs (cur_dir ∷ cs) = ⊥
Climbs (parent_dir ∷ cs) = Climbs cs
Climbs (normal s ∷ cs) = All IsName (normal s ∷ cs)

-- a dot, then names; or parents, then names
abbrev pub IsDotted : List Component → Type 0
IsDotted (cur_dir ∷ cs) = All IsName cs
IsDotted cs = Climbs cs

empty_refused : validate_path_segment [] ≡ err invalid_segment
unfolding validate_path_segment
empty_refused = refl

dot_refused : validate_path_segment (text ".") ≡ err invalid_segment
unfolding validate_path_segment text_eq trim byte_length is_reserved is_path_char
dot_refused = refl

dots_refused : validate_path_segment (text "..") ≡ err invalid_segment
unfolding validate_path_segment text_eq trim byte_length is_reserved is_path_char
dots_refused = refl

not_refused :
    (s t : Text)
    → validate_path_segment t ≡ err invalid_segment
    → validate_path_segment s ≡ ok tt
    → text_eq s t ≡ false
not_refused s t bad good = elim (Bool-cases (text_eq s t)) [
  | inl same ↦
      let e : validate_path_segment s ≡ validate_path_segment t =
        ap validate_path_segment (text_eq→eq s t same) in
      cc
  | inr other ↦ other
]

name_not_empty : (s : Text) → validate_path_segment s ≡ ok tt → is_empty s ≡ false
name_not_empty [] h = let bad = empty_refused in cc
name_not_empty (c ∷ s) h = refl

-- a valid name is a component of its own
later_components-name :
    (s : Text) (segments : List Text)
    → validate_path_segment s ≡ ok tt
    → later_components (s ∷ segments) ≡ normal s ∷ later_components segments
unfolding later_components
later_components-name s segments h =
    rw
      (
        name_not_empty s h,
        not_refused s (text ".") dot_refused h,
        not_refused s (text "..") dots_refused h,
      )
      refl

bind-ok :
    (m : Result (Unit {0})) (k : Result (Unit {0}))
    → (m >>= λ valid. k) ≡ ok tt
    → (m ≡ ok tt) × (k ≡ ok tt)
bind-ok (ok tt) k h = (refl, h)
bind-ok (err e) k h = cc

validate_segments-names :
    (seen : Bool) (segments : List Text)
    → validate_segments false seen segments ≡ ok tt
    → All IsName (later_components segments)
unfolding validate_segments
validate_segments-names seen [] h = unfold later_components in tt
validate_segments-names seen (s ∷ segments) h =
    let (name, rest) =
      bind-ok (validate_path_segment s) (validate_segments false seen segments) h in
    rw (later_components-name s segments name) (name, validate_segments-names seen segments rest)

names-Climbs : (cs : List Component) → All IsName cs → Climbs cs
names-Climbs [] h = tt
names-Climbs (root_dir ∷ cs) (h, hs) = absurd h
names-Climbs (cur_dir ∷ cs) (h, hs) = absurd h
names-Climbs (parent_dir ∷ cs) (h, hs) = absurd h
names-Climbs (normal s ∷ cs) h = h

later_components-dot :
    (s : Text) (segments : List Text)
    → text_eq s (text ".") ≡ true
    → later_components (s ∷ segments) ≡ later_components segments
unfolding later_components
later_components-dot [] segments h = refl
later_components-dot (c ∷ s) segments h = rw h refl

later_components-dots :
    (s : Text) (segments : List Text)
    → text_eq s (text ".") ≡ false
    → text_eq s (text "..") ≡ true
    → later_components (s ∷ segments) ≡ parent_dir ∷ later_components segments
unfolding later_components
later_components-dots [] segments h k = let bad : false ≡ true = unfold text_eq in k in cc
later_components-dots (c ∷ s) segments h k = rw (h, k) refl

-- what an accepted segment is while dots are allowed
segment_cases {ℓ} :
    (Q : Type ℓ) (seen : Bool) (s : Text) (segments : List Text)
    → validate_segments true seen (s ∷ segments) ≡ ok tt
    → (text_eq s (text ".") ≡ true → validate_segments true true segments ≡ ok tt → Q)
    → (text_eq s (text ".") ≡ false
        → text_eq s (text "..") ≡ true
        → validate_segments true seen segments ≡ ok tt
        → Q)
    → (text_eq s (text ".") ≡ false
        → validate_path_segment s ≡ ok tt
        → validate_segments false seen segments ≡ ok tt
        → Q)
    → Q
unfolding validate_segments
segment_cases Q seen s segments h dot dots name = elim (Bool-cases (text_eq s (text "."))) [
  | inl is_dot ↦ elim (Bool-cases seen) [
    | inl again ↦ let bad = rw (is_dot, again) at h in cc
    | inr first ↦ dot is_dot (rw (is_dot, first) at h)
  ]
  | inr no_dot ↦ elim (Bool-cases (text_eq s (text ".."))) [
    | inl is_dots ↦ dots no_dot is_dots (rw (no_dot, is_dots) at h)
    | inr no_dots ↦
        let (valid, rest) =
          bind-ok (validate_path_segment s) (validate_segments false seen segments)
            (rw (no_dot, no_dots) at h) in
        name no_dot valid rest
  ]
]

validate_segments-Climbs :
    (seen : Bool) (segments : List Text)
    → validate_segments true seen segments ≡ ok tt
    → Climbs (later_components segments)
validate_segments-Climbs seen [] h = unfold later_components in tt
validate_segments-Climbs seen (s ∷ segments) h =
    segment_cases (Climbs (later_components (s ∷ segments))) seen s segments h
      (λ dot rest.
        rw (later_components-dot s segments dot) (validate_segments-Climbs true segments rest))
      (λ no_dot dots rest.
        rw (later_components-dots s segments no_dot dots)
          (validate_segments-Climbs seen segments rest))
      (λ no_dot name rest.
        rw (later_components-name s segments name)
          (name, validate_segments-names seen segments rest))

components-dot :
    (s : Text) (segments : List Text)
    → text_eq s (text ".") ≡ true
    → components (s ∷ segments) ≡ cur_dir ∷ later_components segments
unfolding components
components-dot [] segments h = let bad : false ≡ true = unfold text_eq in h in cc
components-dot (c ∷ s) segments h = rw h refl

components-plain :
    (c : ℕ) (s : Text) (segments : List Text)
    → text_eq (c ∷ s) (text ".") ≡ false
    → components ((c ∷ s) ∷ segments) ≡ later_components ((c ∷ s) ∷ segments)
unfolding components
components-plain c s segments h =
    ap
      (λ b.
        if b then cur_dir ∷ later_components segments else later_components ((c ∷ s) ∷ segments))
      h

-- the components of an accepted path: a dot in front or none, and what climbs
pub components_cases {ℓ} :
    (Q : List Component → Type ℓ) (segments : List Text)
    → validate_segments true false segments ≡ ok tt
    → ((cs : List Component) → Climbs cs → Q (cur_dir ∷ cs))
    → ((cs : List Component) → Climbs cs → Q cs)
    → Q (components segments)
unfolding components
components_cases Q [] h dotted plain = plain [] tt
components_cases Q ([] ∷ segments) h dotted plain =
    segment_cases (Q (components ([] ∷ segments))) false [] segments h
      (λ dot rest. let bad : false ≡ true = unfold text_eq in dot in cc)
      (λ no_dot dots rest. let bad : false ≡ true = unfold text_eq in dots in cc)
      (λ no_dot name rest. let bad = empty_refused in cc)
components_cases Q ((c ∷ s) ∷ segments) h dotted plain =
    elim (Bool-cases (text_eq (c ∷ s) (text "."))) [
      | inl dot ↦
          let rest : validate_segments true true segments ≡ ok tt =
            segment_cases (validate_segments true true segments ≡ ok tt) false (c ∷ s) segments h
              (λ d r. r) (λ no_dot d r. cc) (λ no_dot d r. cc) in
          subst Q (sym (components-dot (c ∷ s) segments dot))
            (dotted (later_components segments) (validate_segments-Climbs true segments rest))
      | inr no_dot ↦ subst Q (sym (components-plain c s segments no_dot)) (
          plain (later_components ((c ∷ s) ∷ segments))
            (validate_segments-Climbs false ((c ∷ s) ∷ segments) h))
    ]
