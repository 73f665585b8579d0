-- ===== src/HealthCheck/Actions.antt =====
-- What a health check does, and when.
use aspect_cli.Base.Int.{pos, negsuc}
use aspect_cli.Base.{
  ◌<◌, ◌≤◌, ◌^◌, ◌-◌, ltb, arith, ℕ, ◌≡◌, refl, sym, subst, Bool, true, false, Option, none, some,
  List, [], ◌∷◌, ◌++◌, if◌then◌else◌, Text, if_either,
}
use aspect_cli.Base.Int.{ℤ}
use aspect_cli.HealthCheck.{
  World, CheckResult, Action, probed, asked_output_base, removed, killed, Entry, absent, directory,
  other, Outcome, healthy, unhealthy, inconclusive, HealthCheckResult, output_base_from_flags,
  extract_server_pid, get_output_base, cleanup_stranded_sandbox_state, trash_dir, cleanup_if_known,
  may_retry, recovered, failed, retry_probe, sigkill_if_running, is_pid_running, as_i32,
  kill_and_retry, server_pid_file, recover_at, run,
}

-- whether the last probe succeeded
abbrev pub last_probe : Bool → List Action → Bool
last_probe so_far [] = so_far
last_probe so_far (probed r ∷ actions) = last_probe r.success actions
last_probe so_far (asked_output_base ∷ actions) = last_probe so_far actions
last_probe so_far (removed path ∷ actions) = last_probe so_far actions
last_probe so_far (killed pid ∷ actions) = last_probe so_far actions

abbrev pub is_healthy : Outcome → Bool
is_healthy healthy = true
is_healthy unhealthy = false
is_healthy inconclusive = false

-- the target is the number itself below 2 ^ 31, and above that the number less 2 ^ 32: -1 for 2 ^ 32 - 1
abbrev pub IsSigned : ℕ → ℤ → Type 0
IsSigned pid target =
    (pid < 2 ^ 31 → target ≡ pos pid) × (2 ^ 31 ≤ pid → target ≡ negsuc (2 ^ 32 - 1 - pid))

as_i32-IsSigned : (pid : ℕ) → IsSigned pid (as_i32 pid)
unfolding as_i32
as_i32-IsSigned pid = (
  λ below. let e : ltb pid (2 ^ 31) ≡ true = ground (arith, below) in rw e refl,
  λ above. let e : ltb pid (2 ^ 31) ≡ false = ground (arith, above) in rw e refl,
)

module _ (w : World) where
  -- the signal goes to the target that the number in the server's file under the given output base gives
  -- as a signed number of 32 bits (one process only for 1 to 2 ^ 31 - 1), after a probe that failed in a
  -- way that may be a lock, and only if that target accepts a signal
  abbrev pub MayKill : List Text → ℤ → Type 0
  MayKill flags target =
      (w.first_probe.success ≡ false)
      × (may_retry w w.first_probe.exit_code ≡ true)
      × ((output_base : Text) × (pid : ℕ) × (output_base_from_flags flags ≡ some output_base)
          × (extract_server_pid w (server_pid_file w output_base) ≡ some pid)
          × (is_pid_running w pid ≡ true)
          × IsSigned pid target)

  -- what may be done, after a probe with the given success: Bazel is asked for its output base and state
  -- is removed only where the last probe succeeded, since both would wait for the lock, or break a server
  abbrev pub Cautious : List Text → Bool → List Action → Type 0
  Cautious flags free [] = Unit
  Cautious flags free (probed r ∷ actions) = Cautious flags r.success actions
  Cautious flags free (asked_output_base ∷ actions) = (free ≡ true) × Cautious flags free actions
  Cautious flags free (removed path ∷ actions) = (free ≡ true) × Cautious flags free actions
  Cautious flags free (killed pid ∷ actions) =
      (free ≡ false) × MayKill flags pid × Cautious flags free actions

  cleanup-Cautious :
      (flags : List Text) (output_base : Text)
      → Cautious flags true (cleanup_stranded_sandbox_state w output_base)
        × (last_probe true (cleanup_stranded_sandbox_state w output_base) ≡ true)
  unfolding cleanup_stranded_sandbox_state
  cleanup-Cautious flags output_base = by_entry (w.entry (trash_dir w output_base))
    where
      by_removal :
          (b : Bool)
          → Cautious flags true (if b then removed (trash_dir w output_base) ∷ [] else [])
            × (last_probe true (if b then removed (trash_dir w output_base) ∷ [] else []) ≡ true)
      by_removal true = ((refl, tt), refl)
      by_removal false = (tt, refl)

      by_entry :
          (e : Entry)
          → Cautious flags true (elim e [
            | absent ↦ []
            | _ ↦
                if w.can_remove (trash_dir w output_base)
                then removed (trash_dir w output_base) ∷ []
                else []
          ])
            × (last_probe true (elim e [
              | absent ↦ []
              | _ ↦
                  if w.can_remove (trash_dir w output_base)
                  then removed (trash_dir w output_base) ∷ []
                  else []
            ])
                ≡ true)
      by_entry absent = (tt, refl)
      by_entry directory = by_removal (w.can_remove (trash_dir w output_base))
      by_entry other = by_removal (w.can_remove (trash_dir w output_base))

  -- the actions are cautious, and the outcome tells the last probe
  abbrev Sound : List Text → Bool → HealthCheckResult × List Action → Type 0
  Sound flags free r = Cautious flags free r.1 × (is_healthy r.0.outcome ≡ last_probe free r.1)

  cleanup_if_known-Cautious :
      (flags : List Text) (o : Option Text)
      → Cautious flags true (cleanup_if_known w o) × (last_probe true (cleanup_if_known w o) ≡ true)
  cleanup_if_known-Cautious flags none = (tt, refl)
  cleanup_if_known-Cautious flags (some base) = cleanup-Cautious flags base

  -- behind a probe that succeeded
  probe_passed :
      (flags : List Text) (r : CheckResult) (actions : List Action)
      → r.success ≡ true
      → Cautious flags true actions × (last_probe true actions ≡ true)
      → Sound flags false (recovered w, probed r ∷ actions)
  probe_passed flags r actions success (c, l) =
      subst (λ b. Cautious flags b actions × (true ≡ last_probe b actions)) (sym success) (c, sym l)

  -- behind one that failed
  probe_failed :
      (flags : List Text) (r : CheckResult) (result : HealthCheckResult) (actions : List Action)
      → r.success ≡ false
      → Sound flags false (result, actions)
      → Sound flags false (result, probed r ∷ actions)
  probe_failed flags r result actions failure s =
      subst (λ b. Cautious flags b actions × (is_healthy result.outcome ≡ last_probe b actions))
        (sym failure) s

  retry_probe-Sound :
      (flags : List Text) (output_base : Text) → Sound flags false (retry_probe w output_base)
  unfolding retry_probe
  retry_probe-Sound flags output_base =
      if_either (Sound flags false) w.second_probe.success _ _
        (λ success.
          probe_passed flags w.second_probe (cleanup_stranded_sandbox_state w output_base) success
            (cleanup-Cautious flags output_base))
        (λ failure. (tt, sym failure))

  module _ (flags : List Text) (failure : w.first_probe.success ≡ false)
      (retryable : may_retry w w.first_probe.exit_code ≡ true) where
    kill_and_retry-Sound :
        (output_base : Text) (o : Option ℕ)
        → output_base_from_flags flags ≡ some output_base
        → extract_server_pid w (server_pid_file w output_base) ≡ o
        → Sound flags false (kill_and_retry w output_base o)
    unfolding sigkill_if_running
    kill_and_retry-Sound output_base none e f = (tt, refl)
    kill_and_retry-Sound output_base (some pid) e f =
        let (c, l) = retry_probe-Sound flags output_base in
        if_either
          (λ kills.
            Sound flags false
              ((retry_probe w output_base).0, kills ++ (retry_probe w output_base).1))
          (is_pid_running w pid) _ _
          (λ runs. (
            (refl, (failure, retryable, (output_base, pid, e, f, runs, as_i32-IsSigned pid)), c),
            l,
          ))
          (λ gone. (c, l))

    recover_at-Sound :
        (o : Option Text) → output_base_from_flags flags ≡ o → Sound flags false (recover_at w o)
    recover_at-Sound none e = (tt, refl)
    recover_at-Sound (some output_base) e =
        kill_and_retry-Sound output_base (extract_server_pid w (server_pid_file w output_base)) e
          refl

  -- Whatever Bazel, the files and the processes answer: Bazel is asked for its output base, and stranded
  -- state is removed, only if the last probe succeeded; a kill signal is sent only if the first probe
  -- failed without or with a retryable exit code, the server's file under the output base of the flags
  -- holds a number, and the target accepts a signal; the target is that number, less 2 ^ 32 from 2 ^ 31
  -- on, so it need not be a single process. The check reports a healthy server exactly if its last probe
  -- succeeded.
  pub run-Sound :
      (flags : List Text)
      → Cautious flags false (run w flags).1
        × (is_healthy (run w flags).0.outcome ≡ last_probe false (run w flags).1)
  unfolding run
  run-Sound flags =
      if_either (Sound flags false) w.first_probe.success _ _
        (λ success.
          let (c, l) = cleanup_if_known-Cautious flags (get_output_base w) in
          probe_passed flags w.first_probe
            (asked_output_base ∷ cleanup_if_known w (get_output_base w)) success ((refl, c), l))
        (λ failure.
          if_either (Sound flags false) (may_retry w w.first_probe.exit_code) _ _
            (λ retryable.
              probe_failed flags w.first_probe (recover_at w (output_base_from_flags flags)).0
                (recover_at w (output_base_from_flags flags)).1 failure
                (recover_at-Sound flags failure retryable (output_base_from_flags flags) refl))
            (λ final.
              probe_failed flags w.first_probe (failed w inconclusive) [] failure (tt, refl)))
