-- ===== src/Loader/Modules/Balance.antt =====
-- What a load does to the stacks and to the marks of files in evaluation.
use aspect_cli.Base.{
  ℕ, zero, suc, ◌≡◌, refl, ap, ◌∙◌, subst, ◌↔◌, inl, inr, Bool, true, false, Option, none, some,
  List, [], ◌∷◌, arith, if◌then◌else◌, Bool-cases, pop, pop-append, Text,
}
use aspect_cli.Loader.{FilePath, path_eq, path_eq→eq, path_eq_refl, Result, ok, err, ◌>>=◌}
use aspect_cli.Loader.Sanitize.{try_from}
use aspect_cli.Loader.Modules.{
  Mod, Source, World, LoadState, loading, loaded, Loader, Outcome, done, failed, out_of_fuel,
  cached, remove, insert, Target, std, module_file, resolve, push_module, leave_module, with_target,
  load, then_next, run_loads, eval_module_inner, enter, settle, by_state, eval_module_impl,
  eval_module,
}

pub path_eq_iff : (s t : FilePath) → (path_eq s t ≡ true) ↔ (s ≡ t)
path_eq_iff s t = (path_eq→eq s t, λ e. rw e (path_eq_refl t))

pub cached-remove :
    (p q : FilePath) (entries : List (FilePath × LoadState))
    → cached q (remove p entries) ≡ (if path_eq p q then none else cached q entries)
unfolding cached remove
cached-remove p q [] = ground arith
cached-remove p q ((r, state) ∷ entries) =
    ground (arith, path_eq_iff r p, path_eq_iff r q, path_eq_iff p q, cached-remove p q entries)

pub cached-insert :
    (p q : FilePath) (state : LoadState) (entries : List (FilePath × LoadState))
    → cached q (insert p state entries) ≡ (if path_eq p q then some state else cached q entries)
unfolding cached insert
cached-insert p q state entries = ground (arith, cached-remove p q entries)

abbrev is_loading_state : Option LoadState → Bool
is_loading_state none = false
is_loading_state (some loading) = true
is_loading_state (some loaded) = false

-- a file is in evaluation
abbrev pub is_loading : FilePath → Loader → Bool
is_loading path l = is_loading_state (cached path l.loaded_modules)

-- the same stacks, and the same files in evaluation
pub record Same (a b : Loader) : Type 0 where
  pub scripts : b.load_stack ≡ a.load_stack
  pub scopes : b.module_stack ≡ a.module_stack
  pub marks : (path : FilePath) → is_loading path b ≡ is_loading path a

abbrev pub Balanced : Loader → Outcome → Type 0
Balanced l (done m) = Same l m
Balanced l (failed e m) = Same l m
Balanced l out_of_fuel = Unit

pub Same-refl : (l : Loader) → Same l l
Same-refl l = record { scripts = refl; scopes = refl; marks = λ path. refl }

pub Same-trans : (a b c : Loader) → Same a b → Same b c → Same a c
Same-trans a b c h k = record {
  scripts = k.scripts ∙ h.scripts;
  scopes = k.scopes ∙ h.scopes;
  marks = λ path. k.marks path ∙ h.marks path;
}

Balanced-after : (a b : Loader) (o : Outcome) → Same a b → Balanced b o → Balanced a o
Balanced-after a b (done m) h k = Same-trans a b m h k
Balanced-after a b (failed e m) h k = Same-trans a b m h k
Balanced-after a b out_of_fuel h k = tt

pub leave_module-Balanced :
    (m : Mod) (l : Loader) (o : Outcome)
    → Balanced (push_module m l) o
    → Balanced l (leave_module o)
leave_module-Balanced m l (done n) h = record {
  scripts = h.scripts;
  scopes = ap pop h.scopes ∙ pop-append l.module_stack m;
  marks = h.marks;
}
leave_module-Balanced m l (failed e n) h = record {
  scripts = h.scripts;
  scopes = ap pop h.scopes ∙ pop-append l.module_stack m;
  marks = h.marks;
}
leave_module-Balanced m l out_of_fuel h = tt

-- a mark that was set in between, and taken off again
marks_settled :
    (path q : FilePath) (l n : Loader) (state : Option LoadState)
    → cached path l.loaded_modules ≡ none
    → is_loading_state state ≡ false
    → is_loading q n
      ≡ is_loading_state (if path_eq path q then some loading else cached q l.loaded_modules)
    → is_loading_state (if path_eq path q then state else cached q n.loaded_modules)
      ≡ is_loading q l
marks_settled path q l n state fresh idle h = elim (Bool-cases (path_eq path q)) [
  | inl same ↦
      let e : path ≡ q = path_eq→eq path q same in
      let unmarked : cached q l.loaded_modules ≡ none =
        subst (λ p. cached p l.loaded_modules ≡ none) e fresh in
      rw (same, unmarked) idle
  | inr other ↦ rw other (rw other at h)
]

settle-Balanced :
    (path : FilePath) (l : Loader) (o : Outcome)
    → cached path l.loaded_modules ≡ none
    → Balanced (enter path l) o
    → Balanced l (settle path o)
unfolding enter settle
settle-Balanced path l (done n) fresh h = record {
  scripts = ap pop h.scripts ∙ pop-append l.load_stack path;
  scopes = h.scopes;
  marks = λ q.
      ap is_loading_state (cached-insert path q loaded n.loaded_modules)
      ∙ marks_settled path q l n (some loaded) fresh refl
          (h.marks q ∙ ap is_loading_state (cached-insert path q loading l.loaded_modules));
}
settle-Balanced path l (failed e n) fresh h = record {
  scripts = ap pop h.scripts ∙ pop-append l.load_stack path;
  scopes = h.scopes;
  marks = λ q.
      ap is_loading_state (cached-remove path q n.loaded_modules)
      ∙ marks_settled path q l n none fresh refl
          (h.marks q ∙ ap is_loading_state (cached-insert path q loading l.loaded_modules));
}
settle-Balanced path l out_of_fuel fresh h = tt

module _ (w : World) where
  module _ (eval : FilePath → Option Source → Loader → Outcome)
      (balanced : (path : FilePath) (source : Option Source) (l : Loader)
        → Balanced l (eval path source l)) where
    pub with_target-Balanced :
        (l : Loader) (r : Result (FilePath × Target)) → Balanced l (with_target w eval l r)
    with_target-Balanced l (err e) = Same-refl l
    with_target-Balanced l (ok (path, std source)) = balanced path (some source) l
    with_target-Balanced l (ok (path, module_file m)) =
        leave_module-Balanced m l (eval path (w.source path) (push_module m l))
          (balanced path (w.source path) (push_module m l))

    then_next-Balanced :
        (l : Loader) (next : Loader → Outcome) (o : Outcome)
        → ((m : Loader) → Balanced m (next m))
        → Balanced l o
        → Balanced l (then_next next o)
    then_next-Balanced l next (done m) h k = Balanced-after l m (next m) k (h m)
    then_next-Balanced l next (failed e m) h k = k
    then_next-Balanced l next out_of_fuel h k = tt

    run_loads-Balanced :
        (fails : Bool) (loads : List Text) (l : Loader)
        → Balanced l (run_loads w eval fails loads l)
    unfolding run_loads load
    run_loads-Balanced true [] l = Same-refl l
    run_loads-Balanced false [] l = Same-refl l
    run_loads-Balanced fails (raw ∷ loads) l =
        then_next-Balanced l (run_loads w eval fails loads) (load w eval raw l)
          (run_loads-Balanced fails loads) (with_target-Balanced l (try_from raw >>= resolve w l))

    inner-Balanced :
        (source : Option Source) (l : Loader) → Balanced l (eval_module_inner w eval source l)
    inner-Balanced none l = Same-refl l
    inner-Balanced (some source) l = run_loads-Balanced source.fails source.loads l

  by_state-Balanced :
      (path : FilePath) (l : Loader) (o : Outcome) (state : Option LoadState)
      → (state ≡ none → Balanced l o)
      → Balanced l (by_state path l o state)
  by_state-Balanced path l o none h = h refl
  by_state-Balanced path l o (some loading) h = Same-refl l
  by_state-Balanced path l o (some loaded) h = Same-refl l

  pub eval_module_impl-Balanced :
      (fuel : ℕ) (path : FilePath) (source : Option Source) (l : Loader)
      → Balanced l (eval_module_impl w fuel path source l)
  unfolding eval_module_impl
  eval_module_impl-Balanced zero path source l = tt
  eval_module_impl-Balanced (suc fuel) path source l =
      by_state-Balanced path l _ (cached path l.loaded_modules) (λ fresh.
        settle-Balanced path l (eval_module_inner w (eval_module_impl w fuel) source (enter path l))
          fresh
          (inner-Balanced (eval_module_impl w fuel) (eval_module_impl-Balanced fuel) source
            (enter path l)))

  -- Whether it succeeds or fails, the evaluation of a file leaves the stack of scripts and the stack of
  -- modules as they were, and exactly the files that were in evaluation before are in evaluation after it.
  pub eval_module-Balanced :
      (fuel : ℕ) (scope : Mod) (path : FilePath) (l : Loader)
      → Balanced l (eval_module w fuel scope path l)
  unfolding eval_module
  eval_module-Balanced fuel scope path l =
      leave_module-Balanced scope l
        (eval_module_impl w fuel path (w.source path) (push_module scope l))
        (eval_module_impl-Balanced fuel path (w.source path) (push_module scope l))
