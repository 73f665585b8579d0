-- ===== src/HealthCheck.antt =====
-- crates/axl-runtime/src/engine/bazel/health_check.rs, with `is_pid_running` and `sigkill` of process.rs:
-- the server of Bazel is probed, and a server that holds its lock is killed. What Bazel, the file system
-- and the operating system answer is a `World`; what the check does to them is a list of actions, in
-- order. Exit codes are those of Unix, and the messages of the result are left out.
pub mod Actions
mod Tests
use aspect_cli.Base.{
  ℕ, ◌+◌, ◌-◌, ◌*◌, ◌^◌, Bool, true, false, not, ◌&&◌, ◌||◌, Option, none, some, List, [], ◌∷◌,
  ◌++◌, if◌then◌else◌, is_empty, any, Text, text, trim, strip_prefix, starts_with_char,
  ends_with_char, is_digit, all, ltb, ◌==◌,
}
use aspect_cli.Base.Int.{ℤ, pos, negsuc}

-- `CheckResult`, and what the probe printed
pub record CheckResult : Type 0 where
  pub success : Bool
  pub exit_code : Option ℕ

-- a path of the file system
pub data Entry : Type 0 where
  absent directory other : Entry

pub record World : Type 0 where
  pub first_probe : CheckResult
  pub second_probe : CheckResult
  -- `bazel info output_base`: whether it succeeds, and what it prints; nothing if it cannot be started
  pub info_output_base : Option (Bool × Text)
  pub entry : Text → Entry
  pub can_remove : Text → Bool
  pub read : Text → Option Text
  -- `kill` with signal 0 succeeds
  pub accepts_signal : ℤ → Bool

pub data Action : Type 0 where
  probed : CheckResult → Action
  asked_output_base : Action
  removed : Text → Action
  killed : ℤ → Action

pub data Outcome : Type 0 where
  healthy unhealthy inconclusive : Outcome

pub record HealthCheckResult : Type 0 where
  pub outcome : Outcome
  pub exit_code : Option ℕ

abbrev pub retryable_exit_codes : List ℕ
retryable_exit_codes = 1 ∷ 37 ∷ 36 ∷ 9 ∷ []

-- `Path::join` with a relative path
unfoldable pub join_path : Text → Text → Text
unfolding ends_with_char
join_path base name =
    if is_empty base || ends_with_char b'/' base then base ++ name else base ++ b'/' ∷ name

-- the number of a text of digits, behind what was read
unfoldable pub number_from : ℕ → Text → ℕ
number_from n [] = n
number_from n (c ∷ s) = number_from (10 * n + (c - b'0')) s

abbrev pub without_plus : Text → Text
without_plus [] = []
without_plus (c ∷ s) = if c == b'+' then s else c ∷ s

-- `str::parse::<u32>`
unfoldable pub parse_u32 : Text → Option ℕ
unfolding number_from
parse_u32 s =
    let digits = without_plus s in
    let n = number_from 0 digits in
    if not (is_empty digits) && all is_digit digits && ltb n (2 ^ 32) then some n else none

abbrev pub parse_pid_text : Option Text → Option ℕ
parse_pid_text none = none
parse_pid_text (some content) = parse_u32 (trim content)

-- the value of the first flag that has one
unfoldable pub output_base_from_flags : List Text → Option Text
unfolding strip_prefix
output_base_from_flags [] = none
output_base_from_flags (flag ∷ flags) =
    let rest = output_base_from_flags flags in
    elim (strip_prefix (text "--output_base=") flag) [
      | none ↦ rest
      | some value ↦ if is_empty value then rest else some value
    ]

abbrev pub printed_path : Option (Bool × Text) → Option Text
printed_path none = none
printed_path (some (success, stdout)) =
    if success && not (is_empty (trim stdout)) then some (trim stdout) else none

-- `pid as i32`
unfoldable pub as_i32 : ℕ → ℤ
as_i32 pid = if ltb pid (2 ^ 31) then pos pid else negsuc (2 ^ 32 - 1 - pid)

module _ (w : World) where
  unfoldable pub extract_server_pid : Text → Option ℕ
  unfolding parse_u32
  extract_server_pid path =
      if starts_with_char b'/' path then parse_pid_text (w.read path) else none

  unfoldable pub get_output_base : Option Text
  get_output_base = printed_path w.info_output_base

  abbrev pub trash_dir : Text → Text
  trash_dir output_base =
      join_path (join_path output_base (text "sandbox")) (text "_moved_trash_dir")

  -- what is removed, as a directory or as a file
  unfoldable pub cleanup_stranded_sandbox_state : Text → List Action
  unfolding join_path
  cleanup_stranded_sandbox_state output_base = elim (w.entry (trash_dir output_base)) [
    | absent ↦ []
    | _ ↦ if w.can_remove (trash_dir output_base) then removed (trash_dir output_base) ∷ [] else []
  ]

  abbrev pub cleanup_if_known : Option Text → List Action
  cleanup_if_known none = []
  cleanup_if_known (some base) = cleanup_stranded_sandbox_state base

  abbrev pub may_retry : Option ℕ → Bool
  may_retry none = true
  may_retry (some code) = any (λ c. c == code) retryable_exit_codes

  abbrev pub failed : Outcome → HealthCheckResult
  failed outcome = record { outcome = outcome; exit_code = w.first_probe.exit_code }

  abbrev pub recovered : HealthCheckResult
  recovered = record { outcome = healthy; exit_code = some 0 }

  -- the second probe
  unfoldable pub retry_probe : Text → HealthCheckResult × List Action
  unfolding cleanup_stranded_sandbox_state
  retry_probe output_base =
      if w.second_probe.success
      then (recovered, probed w.second_probe ∷ cleanup_stranded_sandbox_state output_base)
      else (failed unhealthy, probed w.second_probe ∷ [])

  unfoldable pub is_pid_running : ℕ → Bool
  unfolding as_i32
  is_pid_running pid = w.accepts_signal (as_i32 pid)

  unfoldable pub sigkill_if_running : ℕ → List Action
  unfolding is_pid_running
  sigkill_if_running pid = if is_pid_running pid then killed (as_i32 pid) ∷ [] else []

  -- from the process id of the server on
  abbrev pub kill_and_retry : Text → Option ℕ → HealthCheckResult × List Action
  kill_and_retry output_base none = (failed unhealthy, [])
  kill_and_retry output_base (some pid) =
      let (result, actions) = retry_probe output_base in (result, sigkill_if_running pid ++ actions)

  abbrev pub server_pid_file : Text → Text
  server_pid_file output_base =
      join_path (join_path output_base (text "server")) (text "server.pid.txt")

  abbrev pub recover_at : Option Text → HealthCheckResult × List Action
  recover_at none = (failed unhealthy, [])
  recover_at (some output_base) =
      kill_and_retry output_base (extract_server_pid (server_pid_file output_base))

  unfoldable pub run : List Text → HealthCheckResult × List Action
  unfolding output_base_from_flags extract_server_pid get_output_base retry_probe join_path
      sigkill_if_running
  run startup_flags =
      let (result, actions) = recover_at (output_base_from_flags startup_flags) in
      if w.first_probe.success
      then (recovered, probed w.first_probe ∷ asked_output_base ∷ cleanup_if_known get_output_base)
      else if may_retry w.first_probe.exit_code
      then (result, probed w.first_probe ∷ actions)
      else (failed inconclusive, probed w.first_probe ∷ [])
