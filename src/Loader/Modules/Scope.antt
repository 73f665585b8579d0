-- ===== src/Loader/Modules/Scope.antt =====
-- Which files the evaluation of a file enters.
use aspect_cli.Base.{
  ℕ, zero, suc, Bool, true, false, Option, none, some, List, [], ◌∷◌, All, Text, In,
}
use aspect_cli.Loader.{FilePath, Result, ok, err, ◌>>=◌, OnOk, OnOk-bind}
use aspect_cli.Loader.Sanitize.{try_from}
use aspect_cli.Loader.Modules.{
  Mod, Source, World, LoadState, loading, loaded, Loader, Outcome, done, failed, out_of_fuel,
  cached, Target, std, module_file, resolve, push_module, with_target, load, then_next, run_loads,
  eval_module_inner, enter, by_state, eval_module_impl, eval_module,
}
use aspect_cli.Loader.Modules.Files.{Anything, OnOk-any}
use aspect_cli.Loader.Modules.Resolve.{
  Allowed, Within, IsWithin, Resolved, leave_module-IsWithin, push_module-Within, enter-Within,
  settle-IsWithin, resolve-Resolved,
}

module _ (modules : List Mod) (w : World) (declared : All (λ m. In m modules) w.modules) where
  module _ (eval : FilePath → Option Source → Loader → Outcome)
      (kept : (path : FilePath) (source : Option Source) (l : Loader)
        → Allowed modules path
        → Within modules l
        → IsWithin modules (eval path source l)) where
    with_target-IsWithin :
        (l : Loader) (r : Result (FilePath × Target))
        → Within modules l
        → OnOk (Resolved modules) r
        → IsWithin modules (with_target w eval l r)
    with_target-IsWithin l (err e) h r = h
    with_target-IsWithin l (ok (path, std s)) h r = kept path (some s) l r h
    with_target-IsWithin l (ok (path, module_file m)) h (a, i) =
        leave_module-IsWithin modules (eval path (w.source path) (push_module m l))
          (kept path (w.source path) (push_module m l) a (push_module-Within modules m l i h))

    load-IsWithin :
        (raw : Text) (l : Loader) → Within modules l → IsWithin modules (load w eval raw l)
    unfolding load
    load-IsWithin raw l h = with_target-IsWithin l (try_from raw >>= resolve w l) h (
        OnOk-bind Anything (Resolved modules) (try_from raw) (resolve w l) (OnOk-any _)
          (λ path u. resolve-Resolved modules w declared l path h))

    then_next-IsWithin :
        (next : Loader → Outcome) (o : Outcome)
        → ((m : Loader) → Within modules m → IsWithin modules (next m))
        → IsWithin modules o
        → IsWithin modules (then_next next o)
    then_next-IsWithin next (done m) h k = h m k
    then_next-IsWithin next (failed e m) h k = k
    then_next-IsWithin next out_of_fuel h k = tt

    run_loads-IsWithin :
        (fails : Bool) (loads : List Text) (l : Loader)
        → Within modules l
        → IsWithin modules (run_loads w eval fails loads l)
    unfolding run_loads
    run_loads-IsWithin true [] l h = h
    run_loads-IsWithin false [] l h = h
    run_loads-IsWithin fails (raw ∷ loads) l h =
        then_next-IsWithin (run_loads w eval fails loads) (load w eval raw l)
          (run_loads-IsWithin fails loads) (load-IsWithin raw l h)

    inner-IsWithin :
        (source : Option Source) (l : Loader)
        → Within modules l
        → IsWithin modules (eval_module_inner w eval source l)
    inner-IsWithin none l h = h
    inner-IsWithin (some source) l h = run_loads-IsWithin source.fails source.loads l h

  by_state-IsWithin :
      (path : FilePath) (l : Loader) (o : Outcome) (state : Option LoadState)
      → Within modules l
      → IsWithin modules o
      → IsWithin modules (by_state path l o state)
  by_state-IsWithin path l o none h k = k
  by_state-IsWithin path l o (some loading) h k = h
  by_state-IsWithin path l o (some loaded) h k = h

  eval_module_impl-IsWithin :
      (fuel : ℕ) (path : FilePath) (source : Option Source) (l : Loader)
      → Allowed modules path
      → Within modules l
      → IsWithin modules (eval_module_impl w fuel path source l)
  unfolding eval_module_impl
  eval_module_impl-IsWithin zero path source l a h = tt
  eval_module_impl-IsWithin (suc fuel) path source l a h =
      by_state-IsWithin path l _ (cached path l.loaded_modules) h (
        settle-IsWithin modules path
          (eval_module_inner w (eval_module_impl w fuel) source (enter path l)) a
          (inner-IsWithin (eval_module_impl w fuel) (eval_module_impl-IsWithin fuel) source
            (enter path l) (enter-Within modules path l a h)))

  -- If the module in scope and those declared are known, and the file is allowed, then after its
  -- evaluation, whether it succeeds or fails, every file that is cached is embedded or lies within a known
  -- module, whatever load statements the files hold, and only known modules are in scope.
  pub eval_module-IsWithin :
      (fuel : ℕ) (scope : Mod) (path : FilePath) (l : Loader)
      → In scope modules
      → Allowed modules path
      → Within modules l
      → IsWithin modules (eval_module w fuel scope path l)
  unfolding eval_module
  eval_module-IsWithin fuel scope path l i a h =
      leave_module-IsWithin modules
        (eval_module_impl w fuel path (w.source path) (push_module scope l))
        (eval_module_impl-IsWithin fuel path (w.source path) (push_module scope l) a
          (push_module-Within modules scope l i h))
