-- ===== src/Loader.antt =====
-- crates/axl-runtime/src/eval: how `load` statements of AXL files find other files. A path is the list
-- of its segments; an absolute one, which a `FilePath` is, has none for the root. A relative path is
-- the list of its components.
pub mod Confined
pub mod LoadPath
pub mod Sanitize
pub mod Modules
mod Tests
use aspect_cli.Base.{
  ℕ, zero, suc, ◌+◌, ◌-◌, ◌*◌, ◌/◌, ◌%◌, ◌^◌, ◌≤◌, ◌<◌, ◌≡◌, refl, sym, ap, ap₂, ◌∙◌, subst, ◌≢◌,
  ◌↔◌, ◌⊎◌, inl, inr, Bool, true, false, not, ◌&&◌, ◌||◌, Option, none, some, List, [], ◌∷◌, ◌++◌,
  map, append-nil, append_assoc, arith, ltb, leb, ◌==◌, if◌then◌else◌, Bool-cases, leb→le, ltb→lt,
  ltb→le, eqb→eq, eqb_refl, if_either, length, get_elem?, is_empty, any, keep, pop, pop-append,
  length-append, keep-append, any-append, get_elem?-append_left, get_elem?-append_right, All,
  All-append, All-append_inv, All-keep, All-map, All-imp, Text, text, text_eq, text_eq→eq,
  text_eq_refl, text_eq_iff, strip_prefix, strip_prefix-append, strip_prefix→eq, starts_with,
  starts_with_char, ends_with_char, contains_char, contains_char-append, split_once, before_char,
  trim_start, trim_end, trim_matches, is_whitespace, trim, to_lower, split_add, split,
  eq_ignore_case, find_char, drop, split_once-append, split_once_cases,
}

abbrev pub FilePath : Type 0
FilePath = List Text

-- `std::path::Component` on Unix
pub data Component : Type 0 where
  root_dir cur_dir parent_dir : Component
  normal : Text → Component

-- `==` on paths
unfoldable pub path_eq : FilePath → FilePath → Bool
unfolding text_eq
path_eq [] [] = true
path_eq [] (d ∷ t) = false
path_eq (c ∷ s) [] = false
path_eq (c ∷ s) (d ∷ t) = text_eq c d && path_eq s t

pub path_eq→eq : (s t : FilePath) → path_eq s t ≡ true → s ≡ t
unfolding path_eq
path_eq→eq [] [] h = refl
path_eq→eq [] (d ∷ t) h = cc
path_eq→eq (c ∷ s) [] h = cc
path_eq→eq (c ∷ s) (d ∷ t) h = ground (arith, text_eq_iff c d, path_eq→eq s t)

pub path_eq_refl : (s : FilePath) → path_eq s s ≡ true
unfolding path_eq
path_eq_refl [] = refl
path_eq_refl (c ∷ s) = ground (arith, text_eq_refl c, path_eq_refl s)

-- the errors of a load, without their texts
pub data LoadError : Type 0 where
  outside_of_base invalid_component : LoadError
  invalid_module_name invalid_segment : LoadError
  surrounding_whitespace leading_slash backslash double_at no_axl_filename : LoadError
  double_slash repeated_dot : LoadError
  undeclared_module no_such_file no_module_in_scope no_script_in_scope : LoadError
  not_in_module not_builtin cycle unreadable evaluation : LoadError

pub data Result {ℓ} (A : Type ℓ) : Type ℓ where
  ok : A → Result A
  err : LoadError → Result A

infixl 5 ◌>>=◌
abbrev pub ◌>>=◌ {ℓ κ} : {A : Type ℓ} {B : Type κ} → Result A → (A → Result B) → Result B
ok a >>= f = f a
err e >>= f = err e

-- what holds of a result that is there
abbrev pub OnOk {ℓ κ} : {A : Type ℓ} → (A → Type κ) → Result A → Type κ
OnOk P (ok a) = P a
OnOk P (err e) = Unit

pub OnOk-bind {ℓ κ ι} :
    {A : Type ℓ} {B : Type ι} (P : A → Type κ) (Q : B → Type κ) (m : Result A) (f : A → Result B)
    → OnOk P m
    → ((a : A) → P a → OnOk Q (f a))
    → OnOk Q (m >>= f)
OnOk-bind P Q (ok a) f h k = k a h
OnOk-bind P Q (err e) f h k = tt

-- the loop of `join_confined`, with the destination so far
unfoldable pub join_from : FilePath → FilePath → List Component → Result FilePath
unfolding path_eq pop
join_from base dest [] = ok dest
join_from base dest (root_dir ∷ cs) = err invalid_component
join_from base dest (cur_dir ∷ cs) = join_from base dest cs
join_from base dest (parent_dir ∷ cs) =
    let above = join_from base (pop dest) cs in
    if path_eq dest base then err outside_of_base else above
join_from base dest (normal s ∷ cs) = join_from base (dest ++ s ∷ []) cs

unfoldable pub join_confined : FilePath → List Component → Result FilePath
unfolding join_from
join_confined base subpath = join_from base base subpath
