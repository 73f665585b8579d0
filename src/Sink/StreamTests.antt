-- ===== src/Sink/StreamTests.antt =====
-- The properties of a stream and of the whole sink at concrete inputs.
use aspect_cli.Sink.Reconnect.{after_transient}
use aspect_cli.Base.{ℕ, ◌≡◌, refl, inl, Bool, true, false, none, some, [], ◌∷◌, ◌++◌, arith, ◌==◌}
use aspect_cli.Base.Int.{pos}
use aspect_cli.Sink.RetryBuffer.{
  prune_until, take_evicted, push_item, Item, new, push_item, take_evicted,
}
use aspect_cli.Sink.RetryBuffer.Laws.{new-IsValid}
use aspect_cli.Sink.Scalars.{transport, status, deadline_exceeded, is_retryable}
use aspect_cli.Sink.Stream.{
  record_ack, drain_acks, enqueue, RetryConfig, Codec, StreamState, Connection, accepted, stalled,
  arrived, timed_out, opened, event_received, ack_received, Script, running,
}
use aspect_cli.Sink.Stream.Select.{drive_stream}
use aspect_cli.Sink.Stream.Accounts.{Accounts, Settled}
use aspect_cli.Sink.Stream.Outcome.{drive_stream-Settled}
use aspect_cli.Sink.Stream.Sent.{Sent}
use aspect_cli.Sink.Stream.Replay.{drive_stream-Sent}
use aspect_cli.Sink.Stream.Deadlines.{has_returned}
use aspect_cli.Sink.Stream.Timeouts.{drive_stream-times_out, extended, timers}
use aspect_cli.Sink.Upload.{
  answered, attempt_timed_out, attempt_failed, acknowledged, call_failed, retry_lifecycle, Session,
  connected, work, new_state, SinkRun, delivered,
}
use aspect_cli.Sink.Upload.Lifecycle.{retry_lifecycle-budget}
use aspect_cli.Sink.Upload.Totals.{IsDelivered, work-IsDelivered}

-- an event is its size; the event of size 1 is the last one
abbrev sizes : Codec ℕ ℕ
sizes = record {
  last_message = λ size. size == 1;
  bazel_event = λ seq size. size;
  encoded_len = λ size. size;
}

abbrev knobs : RetryConfig
knobs = record {
  max_retries = 2;
  retry_min_delay = 10;
  retry_max_buffer_bytes = 8;
  timeout = none;
  send_stall_timeout = 60;
  ack_progress_timeout = 120;
  half_close_timeout = 30;
}

abbrev empty_state : StreamState ℕ
empty_state = new_state knobs

empty_state-Accounts : Accounts 0 empty_state
unfolding new_state new
empty_state-Accounts = record { valid = new-IsValid 8; rises = tt; covered = omega arith }

-- two events are written, the first of which is acked; then a write stalls
abbrev shed : Script ℕ
shed = record {
  first_accepted = true;
  first_event = arrived 3;
  opening = opened;
  replies = λ seq. accepted;
  drained = [];
  opened_at = 5;
  arms =
      event_received 6 4 accepted [] ∷ ack_received 7 (pos 1) ∷ event_received 8 2 stalled [] ∷ [];
}

-- the rest is replayed, and the last event is acked
abbrev resumed : Script ℕ
resumed = record shed {
  first_event = timed_out;
  arms = event_received 9 1 accepted [] ∷ ack_received 10 (pos 4) ∷ [];
}

-- two events are written and the backend is silent
abbrev silent : Script ℕ
silent = record shed { arms = event_received 6 4 accepted [] ∷ [] }

drive_stream-Settled_example : Settled 0 (drive_stream sizes knobs shed empty_state)
drive_stream-Settled_example =
    drive_stream-Settled sizes knobs 0 shed empty_state empty_state-Accounts

drive_stream-Sent_example : Sent (drive_stream sizes knobs silent empty_state)
drive_stream-Sent_example = drive_stream-Sent sizes knobs 0 silent empty_state empty_state-Accounts

abbrev one_item : ℕ → ℕ → Item ℕ
one_item seq size = record { seq = seq; size = size; request = size }

abbrev silent_state : StreamState ℕ
silent_state = record {
  buffer = record {
    cap_bytes = 8;
    bytes = 7;
    evicted = 0;
    items = one_item 1 3 ∷ one_item 2 4 ∷ [];
  };
  next_seq = 3;
  max_acked = 0;
  last_message_sent = false;
}

abbrev silent_connection : Connection ℕ
silent_connection = record {
  written = one_item 1 3 ∷ one_item 2 4 ∷ [];
  sender_open = true;
  ack_deadline = some 125;
  half_close_deadline = none;
  warned = 0;
}

silent_runs : drive_stream sizes knobs silent empty_state ≡ running silent_state silent_connection
unfolding drive_stream new_state new take_evicted enqueue push_item
silent_runs = refl

drive_stream-times_out_example :
    has_returned
      (drive_stream sizes knobs (extended sizes knobs silent (timers sizes knobs 126)) empty_state)
    ≡ true
drive_stream-times_out_example =
    drive_stream-times_out sizes knobs 6 126 silent empty_state silent_state silent_connection
      (omega arith) (omega arith, tt) (omega arith) (omega arith) silent_runs (inl refl)

abbrev session : Session ℕ
session = record {
  setup = connected;
  build_enqueued = attempt_timed_out ∷ answered ∷ [];
  invocation_started = answered ∷ [];
  streams = shed ∷ resumed ∷ [];
  invocation_finished = answered ∷ [];
  build_finished = answered ∷ [];
  post_stream_late = false;
}

work-IsDelivered_example : IsDelivered (work sizes knobs session)
work-IsDelivered_example = work-IsDelivered sizes knobs session

retry_lifecycle-budget_example :
    (retry_lifecycle 2 0 ((attempt_timed_out ∷ []) ++ answered ∷ []) ≡ acknowledged)
    × (retry_lifecycle 2 0
          ((attempt_timed_out ∷ attempt_failed transport ∷ []) ++ attempt_timed_out ∷ [])
        ≡ call_failed (status deadline_exceeded))
unfolding is_retryable
retry_lifecycle-budget_example =
    retry_lifecycle-budget 2 (attempt_timed_out ∷ [])
      (attempt_timed_out ∷ attempt_failed transport ∷ []) [] attempt_timed_out (tt, tt)
      (omega arith) (tt, (refl, tt)) refl tt

-- the session above succeeds
abbrev is_success : SinkRun ℕ → Bool
is_success (delivered st told) = true
is_success _ = false

session_succeeds : is_success (work sizes knobs session) ≡ true
unfolding work drive_stream new_state new take_evicted enqueue push_item retry_lifecycle record_ack
    after_transient drain_acks prune_until
session_succeeds = refl
