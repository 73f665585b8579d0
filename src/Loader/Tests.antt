-- ===== src/Loader/Tests.antt =====
-- The properties of load paths and of the loader at a small repository.
use aspect_cli.Base.{
  ◌<◌, ◌≡◌, refl, ◌↔◌, inl, inr, Bool, true, false, Option, none, some, List, [], ◌∷◌, arith,
  if◌then◌else◌, Bool-cases, pop, text, text_eq, starts_with, contains_char, trim, split, front,
  starts_with_char, to_lower,
}
use aspect_cli.Loader.{FilePath, normal, parent_dir, path_eq, cycle, OnOk, join_confined, join_from}
use aspect_cli.Loader.Confined.{IsOk, Stays, join_confined_iff}
use aspect_cli.Loader.LoadPath.{
  validate_path_segment, components, later_components, normalize_rel_path_lexically, normalize_from,
  is_path_char, is_reserved, byte_length,
}
use aspect_cli.Loader.Sanitize.{
  try_from, module_part, split_double, has_double, validate_segments, filename, ends_with,
}
use aspect_cli.Loader.Sanitize.Shape.{IsSorted, try_from-IsSorted}
use aspect_cli.Loader.Modules.{
  Mod, Source, World, Loader, loaded, done, failed, eval_module, eval_module_impl, run_loads, load,
  resolve, resolve_in, resolve_builtin, lookup_module, strip_root, render, enter, settle, cached,
  insert, remove,
}
use aspect_cli.Loader.Modules.Balance.{Balanced, eval_module-Balanced}
use aspect_cli.Loader.Modules.Files.{idle, Lists, IsOver}
use aspect_cli.Loader.Modules.Ends.{eval_module-IsOver}
use aspect_cli.Loader.Modules.Resolve.{within, IsWithin}
use aspect_cli.Loader.Modules.Scope.{eval_module-IsWithin}

abbrev repo : Mod
repo = record { name = text "repo"; root = text "repo" ∷ [] }

abbrev top_file : FilePath
top_file = text "repo" ∷ text "top.axl" ∷ []

abbrev lib_file : FilePath
lib_file = text "repo" ∷ text "lib" ∷ text "lib.axl" ∷ []

abbrev files : FilePath → Bool → Option Source
files path again =
    if path_eq path top_file
    then some (record { loads = text "./lib/lib.axl" ∷ []; fails = false })
    else if path_eq path lib_file
    then some (record { loads = if again then text "../top.axl" ∷ [] else []; fails = false })
    else none

-- two files, the second of which loads the first again or not
abbrev world : Bool → World
world again = record {
  source = λ path. files path again;
  is_file = λ path. true;
  builtin = λ name subpath. none;
  modules = repo ∷ [];
}

abbrev fresh : Loader
fresh = record { load_stack = []; module_stack = []; loaded_modules = [] }

abbrev both : List FilePath
both = top_file ∷ lib_file ∷ []

both-Lists : Lists (world true) both
both-Lists = record {
  sources = λ path s e. elim (Bool-cases (path_eq path top_file)) [
    | inl top ↦ rw top refl
    | inr other ↦ elim (Bool-cases (path_eq path lib_file)) [
      | inl lib ↦ rw (other, lib) refl
      | inr neither ↦ let bad = rw (other, neither) at e in cc
    ]
  ];
  builtins = λ name subpath s e. cc;
}

loads_lib :
    eval_module (world false) 3 repo top_file fresh
    ≡ done (record {
      load_stack = [];
      module_stack = [];
      loaded_modules = (top_file, loaded) ∷ (lib_file, loaded) ∷ [];
    })
unfolding eval_module eval_module_impl run_loads load resolve resolve_in resolve_builtin
    lookup_module strip_root render enter settle cached insert remove pop path_eq join_confined
    join_from try_from module_part validate_segments has_double split_double filename ends_with
    validate_path_segment is_path_char is_reserved byte_length components later_components
    normalize_rel_path_lexically normalize_from text_eq trim starts_with split contains_char
    starts_with_char to_lower
loads_lib = refl

cycle_is_found : eval_module (world true) 3 repo top_file fresh ≡ failed cycle fresh
unfolding eval_module eval_module_impl run_loads load resolve resolve_in resolve_builtin
    lookup_module strip_root render enter settle cached insert remove pop path_eq join_confined
    join_from try_from module_part validate_segments has_double split_double filename ends_with
    validate_path_segment is_path_char is_reserved byte_length components later_components
    normalize_rel_path_lexically normalize_from text_eq trim starts_with split contains_char
    starts_with_char to_lower
cycle_is_found = refl

join_confined_iff_example :
    IsOk (join_confined repo.root (parent_dir ∷ normal (text "repo") ∷ []))
    ↔ Stays 0 (parent_dir ∷ normal (text "repo") ∷ [])
join_confined_iff_example = join_confined_iff repo.root (parent_dir ∷ normal (text "repo") ∷ [])

try_from-IsSorted_example : OnOk IsSorted (try_from (text "../../lib/b.axl"))
try_from-IsSorted_example = try_from-IsSorted (text "../../lib/b.axl")

eval_module-Balanced_example : Balanced fresh (eval_module (world true) 3 repo top_file fresh)
eval_module-Balanced_example = eval_module-Balanced (world true) 3 repo top_file fresh

eval_module-IsOver_example : IsOver (eval_module (world true) 3 repo top_file fresh)
eval_module-IsOver_example =
    eval_module-IsOver (world true) both both-Lists 3 repo top_file fresh two_idle
  where
    two_idle : idle both fresh < 3
    two_idle = unfold cached in omega arith

eval_module-IsWithin_example :
    IsWithin (repo ∷ []) (eval_module (world false) 3 repo top_file fresh)
eval_module-IsWithin_example =
    eval_module-IsWithin (repo ∷ []) (world false) (front, tt) 3 repo top_file fresh front
      (within repo front (text "top.axl" ∷ [], refl)) (record { scopes = tt; entries = tt })
