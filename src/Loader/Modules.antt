-- ===== src/Loader/Modules.antt =====
-- `AxlLoader` of crates/axl-runtime/src/eval/load.rs. The file system and the evaluator are a `World`: what
-- a file, read and parsed, loads in order, and whether its evaluation fails then. A frozen module is
-- told by its path. `fuel` bounds the depth of nested loads.
pub mod Balance
pub mod Files
pub mod Ends
pub mod Resolve
pub mod Scope
use aspect_cli.Base.{
  ℕ, zero, suc, ◌+◌, ◌-◌, ◌*◌, ◌/◌, ◌%◌, ◌^◌, ◌≤◌, ◌<◌, ◌≡◌, refl, sym, ap, ap₂, ◌∙◌, subst, ◌≢◌,
  ◌↔◌, ◌⊎◌, inl, inr, Bool, true, false, not, ◌&&◌, ◌||◌, Option, none, some, List, [], ◌∷◌, ◌++◌,
  map, append-nil, append_assoc, arith, ltb, leb, ◌==◌, if◌then◌else◌, Bool-cases, leb→le, ltb→lt,
  ltb→le, eqb→eq, eqb_refl, if_either, length, get_elem?, is_empty, any, keep, pop, pop-append,
  length-append, keep-append, any-append, get_elem?-append_left, get_elem?-append_right, All,
  All-append, All-append_inv, All-keep, All-map, All-imp, Text, text, text_eq, text_eq→eq,
  text_eq_refl, text_eq_iff, strip_prefix, strip_prefix-append, strip_prefix→eq, starts_with,
  starts_with_char, ends_with_char, contains_char, contains_char-append, split_once, before_char,
  trim_start, trim_end, trim_matches, is_whitespace, trim, to_lower, split_add, split,
  eq_ignore_case, find_char, drop, split_once-append, split_once_cases,
}
use aspect_cli.Loader.{
  FilePath, Component, normal, root_dir, cur_dir, parent_dir, path_eq, LoadError, undeclared_module,
  no_such_file, no_module_in_scope, no_script_in_scope, not_in_module, not_builtin, cycle,
  unreadable, evaluation, Result, ok, err, ◌>>=◌, join_confined,
}
use aspect_cli.Loader.LoadPath.{LoadPath, module_specifier, module_subpath, relative_path}
use aspect_cli.Loader.Sanitize.{try_from}

-- `Mod`, as far as loads read it
pub record Mod : Type 0 where
  pub name : Text
  pub root : FilePath

-- a file that can be read and parsed
pub record Source : Type 0 where
  pub loads : List Text
  pub fails : Bool

-- outside the loader: files, the embedded files of `@std` and `@bazel`, and the declared modules
pub record World : Type 0 where
  pub source : FilePath → Option Source
  pub is_file : FilePath → Bool
  pub builtin : Text → Text → Option Source
  pub modules : List Mod

-- `LoadState`
pub data LoadState : Type 0 where
  loading loaded : LoadState

-- the three cells of `AxlLoader`
pub record Loader : Type 0 where
  pub load_stack : List FilePath
  pub module_stack : List Mod
  pub loaded_modules : List (FilePath × LoadState)

-- a load ends with a module or with an error, and the cells keep their changes; or the fuel is spent
pub data Outcome : Type 0 where
  done : Loader → Outcome
  failed : LoadError → Loader → Outcome
  out_of_fuel : Outcome

unfoldable pub cached : FilePath → List (FilePath × LoadState) → Option LoadState
unfolding path_eq
cached path [] = none
cached path ((p, state) ∷ entries) =
    let rest = cached path entries in if path_eq p path then some state else rest

-- `HashMap::remove`
unfoldable pub remove : FilePath → List (FilePath × LoadState) → List (FilePath × LoadState)
unfolding path_eq
remove path [] = []
remove path ((p, state) ∷ entries) =
    let rest = remove path entries in if path_eq p path then rest else (p, state) ∷ rest

-- `HashMap::insert`
unfoldable pub insert :
    FilePath → LoadState → List (FilePath × LoadState) → List (FilePath × LoadState)
unfolding remove
insert path state entries = (path, state) ∷ remove path entries

abbrev pub last? {ℓ} : {A : Type ℓ} → List A → Option A
last? [] = none
last? (x ∷ []) = some x
last? (x ∷ y ∷ xs) = last? (y ∷ xs)

-- `find` by name
unfoldable pub lookup_module : Text → List Mod → Result Mod
lookup_module name [] = err undeclared_module
lookup_module name (m ∷ modules) =
    let rest = lookup_module name modules in if text_eq m.name name then ok m else rest

abbrev pub or_error {ℓ} : {A : Type ℓ} → LoadError → Option A → Result A
or_error e none = err e
or_error e (some a) = ok a

-- what is loaded: an embedded file, or a file in the scope of a module
pub data Target : Type 0 where
  std : Source → Target
  module_file : Mod → Target

abbrev pub segment : Component → Text
segment root_dir = text "/"
segment cur_dir = text "."
segment parent_dir = text ".."
segment (normal s) = s

-- a relative path as text
unfoldable pub render : List Component → Text
render [] = []
render (c ∷ []) = segment c
render (c ∷ d ∷ cs) = segment c ++ b'/' ∷ render (d ∷ cs)

-- `Path::strip_prefix`
unfoldable pub strip_root : FilePath → FilePath → Option FilePath
unfolding text_eq
strip_root [] path = some path
strip_root (r ∷ root) [] = none
strip_root (r ∷ root) (p ∷ path) =
    let rest = strip_root root path in if text_eq r p then rest else none

abbrev pub is_builtin : Text → Bool
is_builtin name = text_eq name (text "std") || text_eq name (text "bazel")

abbrev pub push_module : Mod → Loader → Loader
push_module m l = record l { module_stack = l.module_stack ++ m ∷ [] }

abbrev pub pop_module : Loader → Loader
pop_module l = record l { module_stack = pop l.module_stack }

abbrev pub leave_module : Outcome → Outcome
leave_module (done l) = done (pop_module l)
leave_module (failed e l) = failed e (pop_module l)
leave_module out_of_fuel = out_of_fuel

abbrev pub then_next : (Loader → Outcome) → Outcome → Outcome
then_next next (done l) = next l
then_next next (failed e l) = failed e l
then_next next out_of_fuel = out_of_fuel

-- before and after `eval_module_inner`
unfoldable pub enter : FilePath → Loader → Loader
unfolding insert
enter path l = record l {
  load_stack = l.load_stack ++ path ∷ [];
  loaded_modules = insert path loading l.loaded_modules;
}

unfoldable pub settle : FilePath → Outcome → Outcome
unfolding insert remove pop
settle path (done l) = done (record l {
  load_stack = pop l.load_stack;
  loaded_modules = insert path loaded l.loaded_modules;
})
settle path (failed e l) =
    failed e
      (record l { load_stack = pop l.load_stack; loaded_modules = remove path l.loaded_modules })
settle path out_of_fuel = out_of_fuel

abbrev pub by_state : FilePath → Loader → Outcome → Option LoadState → Outcome
by_state path l fresh (some loaded) = done l
by_state path l fresh (some loading) = failed cycle l
by_state path l fresh none = fresh

module _ (w : World) where
  -- the arms of the match in `load`
  unfoldable pub resolve_builtin : Text → List Component → Result (FilePath × Target)
  unfolding render
  resolve_builtin name subpath =
      or_error not_builtin (w.builtin name (render subpath)) >>= λ source.
      ok ((b'@' ∷ name) ∷ map segment subpath, std source)

  unfoldable pub resolve_in : Text → List Component → Result (FilePath × Target)
  unfolding lookup_module
  resolve_in name subpath = lookup_module name w.modules >>= λ dep.
      join_confined dep.root subpath >>= λ path.
      if w.is_file path then ok (path, module_file dep) else err no_such_file

  unfoldable pub resolve : Loader → LoadPath → Result (FilePath × Target)
  unfolding resolve_builtin resolve_in strip_root pop
  resolve l (module_specifier name subpath) =
      if is_builtin name then resolve_builtin name subpath else resolve_in name subpath
  resolve l (module_subpath subpath) =
      or_error no_module_in_scope (last? l.module_stack) >>= λ scope.
      join_confined scope.root subpath >>= λ path. ok (path, module_file scope)
  resolve l (relative_path subpath) =
      or_error no_module_in_scope (last? l.module_stack) >>= λ scope.
      or_error no_script_in_scope (last? l.load_stack) >>= λ script.
      or_error not_in_module (strip_root scope.root script) >>= λ inner.
      join_confined scope.root (map normal (pop inner) ++ subpath) >>= λ path.
      ok (path, module_file scope)

  -- `eval_std_module` and `eval_module`, with `eval_module_impl` given
  abbrev pub eval_target :
      (FilePath → Option Source → Loader → Outcome) → Loader → FilePath × Target → Outcome
  eval_target eval l (path, std source) = eval path (some source) l
  eval_target eval l (path, module_file m) =
      leave_module (eval path (w.source path) (push_module m l))

  abbrev pub with_target :
      (FilePath → Option Source → Loader → Outcome) → Loader → Result (FilePath × Target) → Outcome
  with_target eval l (err e) = failed e l
  with_target eval l (ok target) = eval_target eval l target

  unfoldable pub load : (FilePath → Option Source → Loader → Outcome) → Text → Loader → Outcome
  unfolding resolve
  load eval raw l = with_target eval l (try_from raw >>= resolve l)

  -- the loads of a file, and the rest of its evaluation
  unfoldable pub run_loads :
      (FilePath → Option Source → Loader → Outcome) → Bool → List Text → Loader → Outcome
  unfolding load
  run_loads eval fails [] l = if fails then failed evaluation l else done l
  run_loads eval fails (raw ∷ loads) l = then_next (run_loads eval fails loads) (load eval raw l)

  abbrev pub eval_module_inner :
      (FilePath → Option Source → Loader → Outcome) → Option Source → Loader → Outcome
  eval_module_inner eval none l = failed unreadable l
  eval_module_inner eval (some source) l = run_loads eval source.fails source.loads l

  unfoldable pub eval_module_impl : ℕ → FilePath → Option Source → Loader → Outcome
  unfolding run_loads enter settle cached
  eval_module_impl zero path source l = out_of_fuel
  eval_module_impl (suc fuel) path source l =
      let fresh = settle path (eval_module_inner (eval_module_impl fuel) source (enter path l)) in
      by_state path l fresh (cached path l.loaded_modules)

  -- `eval_module`
  unfoldable pub eval_module : ℕ → Mod → FilePath → Loader → Outcome
  unfolding eval_module_impl
  eval_module fuel scope path l =
      leave_module (eval_module_impl fuel path (w.source path) (push_module scope l))
