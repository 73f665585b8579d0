-- ===== src/Sink/Reconnect.antt =====
-- The reconnect loop of `work` in crates/axl-runtime/src/engine/bazel/sink/grpc.rs. What `drive_stream`
-- returns in each round, and how far the acks are then, is given from outside; texts of errors and
-- messages for the user are left out, and so is the sleep before the next round.
pub mod Budget
use aspect_cli.Base.{ℕ, ◌+◌, Bool, true, false, ◌&&◌, List, [], ◌∷◌, ltb, leb, if◌then◌else◌}

-- `DriveOutcome`, with whether an error can be retried
pub data DriveOutcome : Type 0 where
  done upstream_closed transient fatal : DriveOutcome

-- one call of `drive_stream`: its outcome, and `max_acked` after it
pub record Drive : Type 0 where
  pub outcome : DriveOutcome
  pub acked : ℕ

-- the variables of the loop; `max_acked` starts at 0 and only rises
pub record Loop : Type 0 where
  pub attempt : ℕ
  pub max_acked : ℕ
  pub warned_transient : Bool

abbrev pub start : Loop
start = record { attempt = 0; max_acked = 0; warned_transient = false }

-- the end of a round: another round, the way out of the loop, or a failure of the sink
pub data Round : Type 0 where
  reconnect : Loop → Round
  stream_ended : Round
  giving_up : ℕ → Round
  non_retryable : Round

abbrev pub made_progress : Loop → Drive → Bool
made_progress l d = ltb l.max_acked d.acked

-- the arm for a transient error; `max_retries` of 0 wins over the progress
unfoldable pub after_transient : ℕ → Loop → Drive → Round
after_transient max_retries l d =
    let progress = made_progress l d in
    if progress && ltb 0 max_retries
    then reconnect (record l { attempt = 0; max_acked = d.acked })
    else if leb max_retries l.attempt
    then giving_up l.attempt
    else reconnect (record {
      attempt = if progress then l.attempt else l.attempt + 1;
      max_acked = d.acked;
      warned_transient = true;
    })

abbrev pub round : ℕ → Loop → Drive → DriveOutcome → Round
round max_retries l d done = stream_ended
round max_retries l d upstream_closed = stream_ended
round max_retries l d transient = after_transient max_retries l d
round max_retries l d fatal = non_retryable

-- the loop, as long as `drive_stream` returns
unfoldable pub reconnect_loop : ℕ → Round → List Drive → Round
unfolding after_transient
reconnect_loop max_retries r [] = r
reconnect_loop max_retries stream_ended (d ∷ drives) = stream_ended
reconnect_loop max_retries (giving_up n) (d ∷ drives) = giving_up n
reconnect_loop max_retries non_retryable (d ∷ drives) = non_retryable
reconnect_loop max_retries (reconnect l) (d ∷ drives) =
    reconnect_loop max_retries (round max_retries l d d.outcome) drives
