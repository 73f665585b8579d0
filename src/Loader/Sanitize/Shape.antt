-- ===== src/Loader/Sanitize/Shape.antt =====
-- The shape of a sanitized load path.
use aspect_cli.Base.{
  ◌≡◌, refl, sym, ◌∙◌, inl, inr, Bool, true, false, not, Option, none, some, List, [], ◌∷◌, ◌++◌,
  append-nil, append_assoc, Bool-cases, if_either, All, Text, text, text_eq, starts_with,
  starts_with_char, contains_char, trim, split,
}
use aspect_cli.Loader.{
  Component, root_dir, cur_dir, parent_dir, normal, LoadError, surrounding_whitespace,
  leading_slash, backslash, double_at, no_axl_filename, double_slash, Result, ok, err, ◌>>=◌, OnOk,
  OnOk-bind,
}
use aspect_cli.Loader.LoadPath.{
  LoadPath, module_specifier, module_subpath, relative_path, guard, validate_module_name,
  components, normalize_from, normalize_rel_path_lexically, starts_with_dots, ends_normal,
}
use aspect_cli.Loader.Sanitize.{
  has_double, named_part, module_part, validate_segments, sorted, sanitize_part, try_from, tail,
  split_double, ends_with, filename,
}
use aspect_cli.Loader.Sanitize.Segments.{IsName, Climbs, IsDotted, components_cases}

abbrev pub IsSorted : LoadPath → Type 0
IsSorted (module_specifier name subpath) = (validate_module_name name ≡ ok tt) × IsDotted subpath
IsSorted (module_subpath subpath) = All IsName subpath
IsSorted (relative_path subpath) = (starts_with_dots subpath ≡ true) × IsDotted subpath

normalize_from-names :
    (done cs : List Component) → All IsName cs → normalize_from done cs ≡ done ++ cs
unfolding normalize_from
normalize_from-names done [] h = sym (append-nil done)
normalize_from-names done (root_dir ∷ cs) (h, hs) = absurd h
normalize_from-names done (cur_dir ∷ cs) (h, hs) = absurd h
normalize_from-names done (parent_dir ∷ cs) (h, hs) = absurd h
normalize_from-names done (normal s ∷ cs) (h, hs) =
    normalize_from-names (done ++ normal s ∷ []) cs hs ∙ append_assoc done (normal s ∷ []) cs

ends_normal-parent : (done : List Component) → ends_normal (done ++ parent_dir ∷ []) ≡ false
ends_normal-parent [] = refl
ends_normal-parent (c ∷ []) = refl
ends_normal-parent (c ∷ d ∷ done) = ends_normal-parent (d ∷ done)

normalize_from-Climbs :
    (done cs : List Component)
    → ends_normal done ≡ false
    → Climbs cs
    → normalize_from done cs ≡ done ++ cs
unfolding normalize_from
normalize_from-Climbs done [] e h = sym (append-nil done)
normalize_from-Climbs done (root_dir ∷ cs) e h = absurd h
normalize_from-Climbs done (cur_dir ∷ cs) e h = absurd h
normalize_from-Climbs done (normal s ∷ cs) e h = normalize_from-names done (normal s ∷ cs) h
normalize_from-Climbs done (parent_dir ∷ cs) e h = rw e (
    normalize_from-Climbs (done ++ parent_dir ∷ []) cs (ends_normal-parent done) h
    ∙ append_assoc done (parent_dir ∷ []) cs)

Climbs-names : (cs : List Component) → starts_with_dots cs ≡ false → Climbs cs → All IsName cs
Climbs-names [] e h = tt
Climbs-names (root_dir ∷ cs) e h = absurd h
Climbs-names (cur_dir ∷ cs) e h = absurd h
Climbs-names (parent_dir ∷ cs) e h = cc
Climbs-names (normal s ∷ cs) e h = h

Climbs-IsDotted : (cs : List Component) → Climbs cs → IsDotted cs
Climbs-IsDotted [] h = tt
Climbs-IsDotted (root_dir ∷ cs) h = absurd h
Climbs-IsDotted (cur_dir ∷ cs) h = absurd h
Climbs-IsDotted (parent_dir ∷ cs) h = h
Climbs-IsDotted (normal s ∷ cs) h = h

IsDotted-names : (cs : List Component) → starts_with_dots cs ≡ false → IsDotted cs → All IsName cs
IsDotted-names [] e h = tt
IsDotted-names (root_dir ∷ cs) e h = absurd h
IsDotted-names (cur_dir ∷ cs) e h = cc
IsDotted-names (parent_dir ∷ cs) e h = cc
IsDotted-names (normal s ∷ cs) e h = h

normal-IsDotted :
    (segments : List Text)
    → validate_segments true false segments ≡ ok tt
    → IsDotted (normalize_rel_path_lexically (components segments))
unfolding normalize_rel_path_lexically
normal-IsDotted segments h =
    components_cases (λ path. IsDotted (normalize_rel_path_lexically path)) segments h
      (λ cs climbs.
        let e : normalize_from [] (cur_dir ∷ cs) ≡ cs =
          unfold normalize_from in normalize_from-Climbs [] cs refl climbs in
        rw e (elim (Bool-cases (starts_with_dots cs)) [
          | inl dots ↦ rw dots (Climbs-IsDotted cs climbs)
          | inr no_dots ↦ rw no_dots (Climbs-names cs no_dots climbs)
        ]))
      (λ cs climbs. plain cs climbs)
  where
    plain : (cs : List Component) → Climbs cs → IsDotted (normalize_rel_path_lexically cs)
    plain [] c = unfold normalize_from in tt
    plain (root_dir ∷ cs) c = absurd c
    plain (cur_dir ∷ cs) c = absurd c
    plain (parent_dir ∷ cs) c = rw (normalize_from-Climbs [] (parent_dir ∷ cs) refl c) c
    plain (normal s ∷ cs) c = rw (normalize_from-Climbs [] (normal s ∷ cs) refl c) c

abbrev HasName : Option Text → Type 0
HasName none = Unit
HasName (some name) = validate_module_name name ≡ ok tt

sorted-IsSorted :
    (name : Option Text) (subpath : List Component)
    → HasName name
    → IsDotted subpath
    → IsSorted (sorted name subpath)
sorted-IsSorted (some name) subpath v h = (v, h)
sorted-IsSorted none subpath v h =
    if_either IsSorted (starts_with_dots subpath) _ _ (λ dots. (dots, h))
      (λ no_dots. IsDotted-names subpath no_dots h)

guarded {ℓ κ} :
    {A : Type ℓ} (P : A → Type κ) (b : Bool) (e : LoadError) (m : Result A)
    → OnOk P m
    → OnOk P (guard b e >>= λ passed. m)
guarded P true e m h = h
guarded P false e m h = tt

-- a check that passed is remembered
checked {κ} :
    (P : LoadPath → Type κ) (m : Result (Unit {0})) (r : Result LoadPath)
    → (m ≡ ok tt → OnOk P r)
    → OnOk P (m >>= λ passed. r)
checked P (ok tt) r h = h refl
checked P (err e) r h = tt

abbrev HasPart : Option Text × Text → Type 0
HasPart (name, path) = HasName name

named_part-HasPart :
    (raw : Text) (split : Option (Text × Text)) → OnOk HasPart (named_part raw split)
named_part-HasPart raw none = tt
named_part-HasPart raw (some (front, rest)) =
    if_either (OnOk HasPart) (contains_char b'/' (tail front)) _ _ (λ slash. tt)
      (λ plain. validated (validate_module_name (tail front)) refl)
  where
    validated :
        (m : Result (Unit {0}))
        → validate_module_name (tail front) ≡ m
        → OnOk HasPart (m >>= λ valid. ok (some (tail front), rest))
    validated (ok tt) e = e
    validated (err x) e = tt

sanitize_part-IsSorted :
    (part : Option Text × Text) → HasPart part → OnOk IsSorted (sanitize_part part)
sanitize_part-IsSorted (name, path) v = guarded IsSorted (not (has_double path)) double_slash _ (
    checked IsSorted (validate_segments true false (split b'/' path)) _ (λ valid.
      sorted-IsSorted name (normalize_rel_path_lexically (components (split b'/' path))) v
        (normal-IsDotted (split b'/' path) valid)))

-- A load path that is accepted is dots in front, one for the file's own directory or one pair for each
-- parent, and valid file names behind them; a path of a module, the one without dots, is names only, and
-- a specifier names a valid module.
pub try_from-IsSorted : (raw : Text) → OnOk IsSorted (try_from raw)
unfolding try_from module_part
try_from-IsSorted raw =
    let p1 = text_eq (trim raw) raw in
    let p2 = not (starts_with_char b'/' raw) in
    let p3 = not (contains_char 92 raw) in
    let p4 = not (starts_with (text "@@") raw) in
    let p5 = ends_with (text ".axl") (filename raw) in
    let m5 : Result LoadPath = module_part raw >>= sanitize_part in
    let m4 = guard p5 no_axl_filename >>= λ passed. m5 in
    let m3 = guard p4 double_at >>= λ passed. m4 in
    let m2 = guard p3 backslash >>= λ passed. m3 in
    let m1 = guard p2 leading_slash >>= λ passed. m2 in
    let part : OnOk HasPart (module_part raw) =
      if_either (OnOk HasPart) (starts_with_char b'@' raw) (named_part raw (split_double raw))
        (ok (none, raw)) (λ named. named_part-HasPart raw (split_double raw)) (λ unnamed. tt) in
    guarded IsSorted p1 surrounding_whitespace m1 (
      guarded IsSorted p2 leading_slash m2 (
        guarded IsSorted p3 backslash m3 (
          guarded IsSorted p4 double_at m4 (
            guarded IsSorted p5 no_axl_filename m5 (
              OnOk-bind HasPart IsSorted (module_part raw) sanitize_part part
                sanitize_part-IsSorted)))))
