-- ===== src/Loader/Modules/Files.antt =====
-- The files that can be in evaluation, and how many are not.
use aspect_cli.Base.{
  ℕ, ◌+◌, ◌≤◌, ◌<◌, ◌≡◌, refl, ap, ap₂, ◌∙◌, subst, inl, inr, Bool, true, false, Option, none, some,
  List, [], ◌∷◌, ◌++◌, map, arith, if◌then◌else◌, Bool-cases, if_either, any, pop, Text,
}
use aspect_cli.Loader.{
  not_builtin, no_module_in_scope, no_script_in_scope, not_in_module, FilePath, Component, normal,
  path_eq, path_eq→eq, Result, ok, err, ◌>>=◌, OnOk, OnOk-bind, join_confined,
}
use aspect_cli.Loader.LoadPath.{LoadPath, module_specifier, module_subpath, relative_path}
use aspect_cli.Loader.Modules.{
  Mod, Source, World, loading, Loader, Outcome, done, failed, out_of_fuel, last?, lookup_module,
  or_error, Target, std, module_file, segment, render, strip_root, is_builtin, resolve_builtin,
  resolve_in, resolve, leave_module, enter, settle,
}
use aspect_cli.Loader.Modules.Balance.{cached-insert, is_loading}

abbrev pub is_listed : List FilePath → FilePath → Bool
is_listed files path = any (path_eq path) files

-- how many of the files are not in evaluation
abbrev pub idle : List FilePath → Loader → ℕ
idle [] l = 0
idle (p ∷ files) l = (if is_loading p l then 0 else 1) + idle files l

-- whatever can be read is among the files
pub record Lists (w : World) (files : List FilePath) : Type 0 where
  pub sources :
      (path : FilePath) (s : Source) → w.source path ≡ some s → is_listed files path ≡ true
  pub builtins :
      (name : Text) (subpath : List Component) (s : Source)
      → w.builtin name (render subpath) ≡ some s
      → is_listed files ((b'@' ∷ name) ∷ map segment subpath) ≡ true

pub idle-marks :
    (files : List FilePath) (a b : Loader)
    → ((path : FilePath) → is_loading path b ≡ is_loading path a)
    → idle files b ≡ idle files a
idle-marks [] a b h = refl
idle-marks (p ∷ files) a b h = ap₂ (λ m n. (if m then 0 else 1) + n) (h p) (idle-marks files a b h)

is_loading-enter :
    (path q : FilePath) (l : Loader)
    → is_loading q (enter path l) ≡ (if path_eq path q then true else is_loading q l)
unfolding enter
is_loading-enter path q l = elim (Bool-cases (path_eq path q)) [
  | inl same ↦ rw (cached-insert path q loading l.loaded_modules, same) refl
  | inr other ↦ rw (cached-insert path q loading l.loaded_modules, other) refl
]

pub idle-enter_le :
    (files : List FilePath) (path : FilePath) (l : Loader)
    → idle files (enter path l) ≤ idle files l
idle-enter_le [] path l = omega arith
idle-enter_le (p ∷ files) path l =
    ground (arith, is_loading-enter path p l, idle-enter_le files path l)

pub idle-enter_lt :
    (files : List FilePath) (path : FilePath) (l : Loader)
    → is_listed files path ≡ true
    → is_loading path l ≡ false
    → idle files (enter path l) < idle files l
idle-enter_lt [] path l h k = cc
idle-enter_lt (p ∷ files) path l h k = elim (Bool-cases (path_eq path p)) [
  | inl same ↦
      let e : path ≡ p = path_eq→eq path p same in
      let off : is_loading p l ≡ false = subst (λ q. is_loading q l ≡ false) e k in
      let on : is_loading p (enter path l) ≡ true =
        is_loading-enter path p l ∙ ap (λ b. if b then true else is_loading p l) same in
      let rest = idle-enter_le files path l in rw (on, off) (omega (arith, rest))
  | inr other ↦
      let later : is_listed files path ≡ true = rw other at h in
      let same : is_loading p (enter path l) ≡ is_loading p l =
        is_loading-enter path p l ∙ ap (λ b. if b then true else is_loading p l) other in
      let rest = idle-enter_lt files path l later k in rw same (omega (arith, rest))
]

abbrev pub IsOver : Outcome → Type 0
IsOver (done l) = Unit
IsOver (failed e l) = Unit
IsOver out_of_fuel = ⊥

pub leave_module-IsOver : (o : Outcome) → IsOver o → IsOver (leave_module o)
leave_module-IsOver (done l) h = tt
leave_module-IsOver (failed e l) h = tt
leave_module-IsOver out_of_fuel h = h

pub settle-IsOver : (path : FilePath) (o : Outcome) → IsOver o → IsOver (settle path o)
unfolding settle
settle-IsOver path (done l) h = tt
settle-IsOver path (failed e l) h = tt
settle-IsOver path out_of_fuel h = h

abbrev pub Anything {ℓ} : {A : Type ℓ} → A → Type 0
Anything a = Unit

pub OnOk-any {ℓ} : {A : Type ℓ} (r : Result A) → OnOk Anything r
OnOk-any (ok a) = tt
OnOk-any (err e) = tt

module _ (w : World) (files : List FilePath) (listed : Lists w files) where
  -- an embedded file is among the files
  abbrev pub Covered : FilePath × Target → Type 0
  Covered (path, std s) = is_listed files path ≡ true
  Covered (path, module_file m) = Unit {0}

  resolve_builtin-Covered :
      (name : Text) (subpath : List Component) → OnOk Covered (resolve_builtin w name subpath)
  unfolding resolve_builtin
  resolve_builtin-Covered name subpath = by_content (w.builtin name (render subpath)) refl
    where
      by_content :
          (o : Option Source)
          → w.builtin name (render subpath) ≡ o
          → OnOk Covered (
              or_error not_builtin o >>= λ source.
              ok ((b'@' ∷ name) ∷ map segment subpath, std source))
      by_content none e = tt
      by_content (some s) e = listed.builtins name subpath s e

  resolve_in-Covered :
      (name : Text) (subpath : List Component) → OnOk Covered (resolve_in w name subpath)
  unfolding resolve_in
  resolve_in-Covered name subpath =
      OnOk-bind Anything Covered (lookup_module name w.modules) _ (OnOk-any _) (λ dep u.
        OnOk-bind Anything Covered (join_confined dep.root subpath) _ (OnOk-any _)
          (λ path v. if_either (OnOk Covered) (w.is_file path) _ _ (λ is. tt) (λ no. tt)))

  in_scope :
      (scope : Mod) (subpath : List Component)
      → OnOk Covered (join_confined scope.root subpath >>= λ path. ok (path, module_file scope))
  in_scope scope subpath =
      OnOk-bind Anything Covered (join_confined scope.root subpath) _ (OnOk-any _) (λ path u. tt)

  -- what is resolved to an embedded file is among the files
  pub resolve-Covered : (l : Loader) (path : LoadPath) → OnOk Covered (resolve w l path)
  unfolding resolve
  resolve-Covered l (module_specifier name subpath) =
      if_either (OnOk Covered) (is_builtin name) _ _
        (λ embedded. resolve_builtin-Covered name subpath)
        (λ other. resolve_in-Covered name subpath)
  resolve-Covered l (module_subpath subpath) =
      OnOk-bind Anything Covered (or_error no_module_in_scope (last? l.module_stack)) _ (OnOk-any _)
        (λ scope u. in_scope scope subpath)
  resolve-Covered l (relative_path subpath) =
      OnOk-bind Anything Covered (or_error no_module_in_scope (last? l.module_stack)) _ (OnOk-any _)
        (λ scope u.
          OnOk-bind Anything Covered (or_error no_script_in_scope (last? l.load_stack)) _
            (OnOk-any _)
            (λ script v.
              OnOk-bind Anything Covered (or_error not_in_module (strip_root scope.root script)) _
                (OnOk-any _) (λ inner t. in_scope scope (map normal (pop inner) ++ subpath))))
