-- ===== src/HealthCheck/Tests.antt =====
-- The health check of a server that holds its lock, until it is killed.
use aspect_cli.Base.{
  ◌≡◌, refl, true, false, none, some, List, [], ◌∷◌, if◌then◌else◌, Text, text, text_eq,
  starts_with_char, ends_with_char, trim, strip_prefix,
}
use aspect_cli.Base.Int.{pos, negsuc}
use aspect_cli.HealthCheck.{
  World, CheckResult, probed, killed, absent, healthy, output_base_from_flags, extract_server_pid,
  cleanup_stranded_sandbox_state, retry_probe, sigkill_if_running, is_pid_running, as_i32, run,
  join_path, parse_u32, number_from,
}
use aspect_cli.HealthCheck.Actions.{Cautious, last_probe, is_healthy, run-Sound}

abbrev locked : CheckResult
locked = record { success = false; exit_code = some 9 }

abbrev up : CheckResult
up = record { success = true; exit_code = some 0 }

-- a server whose process is named by the file
abbrev world : Text → World
world content = record {
  first_probe = locked;
  second_probe = up;
  info_output_base = none;
  entry = λ path. absent;
  can_remove = λ path. false;
  read = λ path. if text_eq path (text "/ob/server/server.pid.txt") then some content else none;
  accepts_signal = λ target. true;
}

abbrev flags : List Text
flags = text "--output_base=" ∷ text "--output_base=/ob" ∷ []

server_is_killed : run (world (text " 1234 ")) flags ≡ (
  record { outcome = healthy; exit_code = some 0 },
  probed locked ∷ killed (pos 1234) ∷ probed up ∷ [],
)
unfolding run output_base_from_flags extract_server_pid retry_probe sigkill_if_running
    is_pid_running as_i32 join_path parse_u32 number_from cleanup_stranded_sandbox_state
    strip_prefix text_eq starts_with_char ends_with_char trim
server_is_killed = refl

-- signal targets that are no single process: the group of the caller, and everything
zero_is_killed : run (world (text "0")) flags ≡ (
  record { outcome = healthy; exit_code = some 0 },
  probed locked ∷ killed (pos 0) ∷ probed up ∷ [],
)
unfolding run output_base_from_flags extract_server_pid retry_probe sigkill_if_running
    is_pid_running as_i32 join_path parse_u32 number_from cleanup_stranded_sandbox_state
    strip_prefix text_eq starts_with_char ends_with_char trim
zero_is_killed = refl

all_are_killed : as_i32 4294967295 ≡ negsuc 0
unfolding as_i32
all_are_killed = refl

run-Sound_example :
    Cautious (world (text "1234")) flags false (run (world (text "1234")) flags).1
    × (is_healthy (run (world (text "1234")) flags).0.outcome
        ≡ last_probe false (run (world (text "1234")) flags).1)
run-Sound_example = run-Sound (world (text "1234")) flags
