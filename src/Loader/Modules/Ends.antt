-- ===== src/Loader/Modules/Ends.antt =====
-- How deep loads nest.
use aspect_cli.Base.{
  ℕ, zero, suc, ◌<◌, ◌≡◌, refl, sym, subst, Bool, true, false, Option, none, some, List, [], ◌∷◌,
  arith, Text,
}
use aspect_cli.Loader.{FilePath, Result, ok, err, ◌>>=◌, OnOk, unreadable}
use aspect_cli.Loader.LoadPath.{LoadPath}
use aspect_cli.Loader.Sanitize.{try_from}
use aspect_cli.Loader.Modules.{
  Mod, Source, World, LoadState, loading, loaded, Loader, Outcome, done, failed, out_of_fuel,
  cached, Target, std, module_file, resolve, push_module, with_target, load, then_next, run_loads,
  enter, by_state, eval_module_impl, eval_module,
}
use aspect_cli.Loader.Modules.Balance.{
  is_loading, Balanced, with_target-Balanced, eval_module_impl-Balanced,
}
use aspect_cli.Loader.Modules.Files.{
  is_listed, idle, Lists, idle-marks, idle-enter_lt, IsOver, leave_module-IsOver, settle-IsOver,
  Covered, resolve-Covered,
}

module _ (w : World) (files : List FilePath) (listed : Lists w files) where
  -- what is known of a call for a file: its source, if there is one, shows that it is listed
  abbrev IsCovered : FilePath → Option Source → Type 0
  IsCovered path none = Unit {0}
  IsCovered path (some s) = is_listed files path ≡ true

  source-IsCovered : (path : FilePath) (o : Option Source) → w.source path ≡ o → IsCovered path o
  source-IsCovered path none e = tt
  source-IsCovered path (some s) e = listed.sources path s e

  module _ (eval : FilePath → Option Source → Loader → Outcome) (fuel : ℕ)
      (balanced : (path : FilePath) (source : Option Source) (l : Loader)
        → Balanced l (eval path source l))
      (over : (path : FilePath) (source : Option Source) (l : Loader)
        → IsCovered path source
        → idle files l < fuel
        → IsOver (eval path source l)) where
    with_target-IsOver :
        (l : Loader) (r : Result (FilePath × Target))
        → idle files l < fuel
        → OnOk (Covered w files listed) r
        → IsOver (with_target w eval l r)
    with_target-IsOver l (err e) lt c = tt
    with_target-IsOver l (ok (path, std s)) lt c = over path (some s) l c lt
    with_target-IsOver l (ok (path, module_file m)) lt c =
        leave_module-IsOver (eval path (w.source path) (push_module m l)) (
          over path (w.source path) (push_module m l) (source-IsCovered path (w.source path) refl)
            (subst (λ n. n < fuel) (sym (idle-marks files l (push_module m l) (λ p. refl))) lt))

    load-IsOver : (raw : Text) (l : Loader) → idle files l < fuel → IsOver (load w eval raw l)
    unfolding load
    load-IsOver raw l lt =
        with_target-IsOver l (try_from raw >>= resolve w l) lt (covered (try_from raw))
      where
        covered : (r : Result LoadPath) → OnOk (Covered w files listed) (r >>= resolve w l)
        covered (ok path) = resolve-Covered w files listed l path
        covered (err e) = tt

    then_next-IsOver :
        (l : Loader) (next : Loader → Outcome) (o : Outcome)
        → idle files l < fuel
        → ((m : Loader) → idle files m < fuel → IsOver (next m))
        → Balanced l o
        → IsOver o
        → IsOver (then_next next o)
    then_next-IsOver l next (done m) lt h b v =
        h m (subst (λ n. n < fuel) (sym (idle-marks files l m b.marks)) lt)
    then_next-IsOver l next (failed e m) lt h b v = tt
    then_next-IsOver l next out_of_fuel lt h b v = v

    run_loads-IsOver :
        (fails : Bool) (loads : List Text) (l : Loader)
        → idle files l < fuel
        → IsOver (run_loads w eval fails loads l)
    unfolding run_loads
    run_loads-IsOver true [] l lt = tt
    run_loads-IsOver false [] l lt = tt
    run_loads-IsOver fails (raw ∷ loads) l lt =
        then_next-IsOver l (run_loads w eval fails loads) (load w eval raw l) lt
          (run_loads-IsOver fails loads)
          (unfold load in with_target-Balanced w eval balanced l (try_from raw >>= resolve w l))
          (load-IsOver raw l lt)

  by_state-IsOver :
      (path : FilePath) (l : Loader) (o : Outcome) (state : Option LoadState)
      → (state ≡ none → IsOver o)
      → IsOver (by_state path l o state)
  by_state-IsOver path l o none h = h refl
  by_state-IsOver path l o (some loading) h = tt
  by_state-IsOver path l o (some loaded) h = tt

  eval_module_impl-IsOver :
      (fuel : ℕ) (path : FilePath) (source : Option Source) (l : Loader)
      → IsCovered path source
      → idle files l < fuel
      → IsOver (eval_module_impl w fuel path source l)
  unfolding eval_module_impl
  eval_module_impl-IsOver zero path source l c lt = absurd (omega (arith, lt))
  eval_module_impl-IsOver (suc fuel) path none l c lt =
      by_state-IsOver path l _ (cached path l.loaded_modules)
        (λ fresh. settle-IsOver path (failed unreadable (enter path l)) tt)
  eval_module_impl-IsOver (suc fuel) path (some s) l c lt =
      by_state-IsOver path l _ (cached path l.loaded_modules) (λ fresh.
        let off : is_loading path l ≡ false = rw fresh refl in
        let fewer = idle-enter_lt files path l c off in
        settle-IsOver path (run_loads w (eval_module_impl w fuel) s.fails s.loads (enter path l)) (
          run_loads-IsOver (eval_module_impl w fuel) fuel (eval_module_impl-Balanced w fuel)
            (eval_module_impl-IsOver fuel) s.fails s.loads (enter path l)
            (omega (arith, fewer, lt))))

  -- If what can be read is among finitely many files, the evaluation of a file ends with more fuel than
  -- there are files not in evaluation, whatever the files load: a cycle of loads is an error.
  pub eval_module-IsOver :
      (fuel : ℕ) (scope : Mod) (path : FilePath) (l : Loader)
      → idle files l < fuel
      → IsOver (eval_module w fuel scope path l)
  unfolding eval_module
  eval_module-IsOver fuel scope path l lt =
      leave_module-IsOver (eval_module_impl w fuel path (w.source path) (push_module scope l)) (
        eval_module_impl-IsOver fuel path (w.source path) (push_module scope l)
          (source-IsCovered path (w.source path) refl)
          (subst (λ n. n < fuel) (sym (idle-marks files l (push_module scope l) (λ p. refl))) lt))
