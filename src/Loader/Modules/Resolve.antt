-- ===== src/Loader/Modules/Resolve.antt =====
-- Which files a load path can resolve to.
use aspect_cli.Base.{List, [], ◌∷◌, ◌++◌, map, if_either, pop, All, All-append, Text, text_eq, In}
use aspect_cli.Loader.{
  not_builtin, no_module_in_scope, no_script_in_scope, not_in_module, FilePath, Component, normal,
  path_eq, ok, ◌>>=◌, OnOk, OnOk-bind, join_confined, LoadError,
}
use aspect_cli.Loader.LoadPath.{LoadPath, module_specifier, module_subpath, relative_path}
use aspect_cli.Loader.Modules.{
  Mod, World, LoadState, loading, loaded, Loader, Outcome, done, failed, out_of_fuel, remove,
  insert, last?, lookup_module, or_error, Target, std, module_file, segment, render, strip_root,
  is_builtin, resolve_builtin, resolve_in, resolve, push_module, leave_module, enter, settle,
}
use aspect_cli.Loader.Confined.{Inside, join_confined-Inside}
use aspect_cli.Loader.Modules.Files.{Anything, OnOk-any}

-- a file within one of the modules, or an embedded one
pub data Allowed (modules : List Mod) : FilePath → Type 0 where
  within : (m : Mod) {path : FilePath} → In m modules → Inside m.root path → Allowed modules path
  embedded : (name : Text) (rest : FilePath) → Allowed modules ((b'@' ∷ name) ∷ rest)

OnOk-last {ℓ κ} :
    {A : Type ℓ} (P : A → Type κ) (e : LoadError) (xs : List A)
    → All P xs
    → OnOk P (or_error e (last? xs))
OnOk-last P e [] h = tt
OnOk-last P e (x ∷ []) h = h.0
OnOk-last P e (x ∷ y ∷ xs) h = OnOk-last P e (y ∷ xs) h.1

All-pop {ℓ κ} : {A : Type ℓ} (P : A → Type κ) (xs : List A) → All P xs → All P (pop xs)
unfolding pop
All-pop P [] h = tt
All-pop P (x ∷ []) h = tt
All-pop P (x ∷ y ∷ xs) h = (h.0, All-pop P (y ∷ xs) h.1)

module _ (modules : List Mod) where
  abbrev Entry : FilePath × LoadState → Type 0
  Entry (path, state) = Allowed modules path

  -- the modules in scope are known, and the files that were entered are allowed
  pub record Within (l : Loader) : Type 0 where
    pub scopes : All (λ m. In m modules) l.module_stack
    pub entries : All Entry l.loaded_modules

  All-remove :
      (path : FilePath) (entries : List (FilePath × LoadState))
      → All Entry entries
      → All Entry (remove path entries)
  unfolding remove
  All-remove path [] h = tt
  All-remove path ((p, state) ∷ entries) h =
      if_either (All Entry) (path_eq p path) _ _ (λ same. All-remove path entries h.1)
        (λ other. (h.0, All-remove path entries h.1))

  All-insert :
      (path : FilePath) (state : LoadState) (entries : List (FilePath × LoadState))
      → Allowed modules path
      → All Entry entries
      → All Entry (insert path state entries)
  unfolding insert
  All-insert path state entries a h = (a, All-remove path entries h)

  abbrev pub IsWithin : Outcome → Type 0
  IsWithin (done l) = Within l
  IsWithin (failed e l) = Within l
  IsWithin out_of_fuel = Unit

  pub leave_module-IsWithin : (o : Outcome) → IsWithin o → IsWithin (leave_module o)
  leave_module-IsWithin (done l) h = record {
    scopes = All-pop (λ m. In m modules) l.module_stack h.scopes;
    entries = h.entries;
  }
  leave_module-IsWithin (failed e l) h = record {
    scopes = All-pop (λ m. In m modules) l.module_stack h.scopes;
    entries = h.entries;
  }
  leave_module-IsWithin out_of_fuel h = tt

  pub push_module-Within :
      (m : Mod) (l : Loader) → In m modules → Within l → Within (push_module m l)
  push_module-Within m l i h = record {
    scopes = All-append (λ n. In n modules) l.module_stack (m ∷ []) h.scopes (i, tt);
    entries = h.entries;
  }

  pub enter-Within :
      (path : FilePath) (l : Loader) → Allowed modules path → Within l → Within (enter path l)
  unfolding enter
  enter-Within path l a h = record {
    scopes = h.scopes;
    entries = All-insert path loading l.loaded_modules a h.entries;
  }

  pub settle-IsWithin :
      (path : FilePath) (o : Outcome) → Allowed modules path → IsWithin o → IsWithin (settle path o)
  unfolding settle
  settle-IsWithin path (done l) a h = record {
    scopes = h.scopes;
    entries = All-insert path loaded l.loaded_modules a h.entries;
  }
  settle-IsWithin path (failed e l) a h = record {
    scopes = h.scopes;
    entries = All-remove path l.loaded_modules h.entries;
  }
  settle-IsWithin path out_of_fuel a h = tt

  -- an allowed file, with a known module as its scope
  abbrev pub Resolved : FilePath × Target → Type 0
  Resolved (path, std s) = Allowed modules path
  Resolved (path, module_file m) = Allowed modules path × In m modules

  module _ (w : World) (declared : All (λ m. In m modules) w.modules) where
    lookup_module-In :
        (name : Text) (ms : List Mod)
        → All (λ m. In m modules) ms
        → OnOk (λ m. In m modules) (lookup_module name ms)
    unfolding lookup_module
    lookup_module-In name [] h = tt
    lookup_module-In name (m ∷ ms) h =
        if_either (OnOk (λ m. In m modules)) (text_eq m.name name) _ _ (λ same. h.0)
          (λ other. lookup_module-In name ms h.1)

    joined :
        (m : Mod) (subpath : List Component)
        → In m modules
        → OnOk Resolved (join_confined m.root subpath >>= λ path. ok (path, module_file m))
    joined m subpath i =
        OnOk-bind (Inside m.root) Resolved (join_confined m.root subpath) _
          (join_confined-Inside m.root subpath) (λ path h. (within m i h, i))

    -- A load path resolves to an embedded file, or to a file within the module that it names or that is
    -- in scope, whatever parents it climbs to.
    pub resolve-Resolved :
        (l : Loader) (path : LoadPath) → Within l → OnOk Resolved (resolve w l path)
    unfolding resolve resolve_builtin resolve_in
    resolve-Resolved l (module_specifier name subpath) h =
        if_either (OnOk Resolved) (is_builtin name) _ _
          (λ builtin.
            OnOk-bind Anything Resolved (or_error not_builtin (w.builtin name (render subpath))) _
              (OnOk-any _) (λ s u. embedded name (map segment subpath)))
          (λ other.
            OnOk-bind (λ m. In m modules) Resolved (lookup_module name w.modules) _
              (lookup_module-In name w.modules declared)
              (λ dep i.
                OnOk-bind (Inside dep.root) Resolved (join_confined dep.root subpath) _
                  (join_confined-Inside dep.root subpath)
                  (λ path inside.
                    if_either (OnOk Resolved) (w.is_file path) _ _ (λ is. (within dep i inside, i))
                      (λ no. tt))))
    resolve-Resolved l (module_subpath subpath) h =
        OnOk-bind (λ m. In m modules) Resolved (or_error no_module_in_scope (last? l.module_stack))
          _ (OnOk-last (λ m. In m modules) no_module_in_scope l.module_stack h.scopes)
          (λ scope i. joined scope subpath i)
    resolve-Resolved l (relative_path subpath) h =
        OnOk-bind (λ m. In m modules) Resolved (or_error no_module_in_scope (last? l.module_stack))
          _ (OnOk-last (λ m. In m modules) no_module_in_scope l.module_stack h.scopes)
          (λ scope i.
            OnOk-bind Anything Resolved (or_error no_script_in_scope (last? l.load_stack)) _
              (OnOk-any _)
              (λ script v.
                OnOk-bind Anything Resolved (or_error not_in_module (strip_root scope.root script))
                  _ (OnOk-any _) (λ inner t. joined scope (map normal (pop inner) ++ subpath) i)))
