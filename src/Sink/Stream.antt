-- ===== src/Sink/Stream.antt =====
-- `drive_stream` of crates/axl-runtime/src/engine/bazel/sink/grpc.rs: one bidirectional stream to the
-- backend. What the backend, the clock and the producer of events do is a script: how the opening
-- goes, and the arms of `select!` in the order in which they are taken. An arm whose guard is false
-- is not taken. `Opened`, `Sending` and `Arrival` are the ends of the bounded waits. Texts and debug
-- output are left out; sequence numbers are numbers without a bound.
pub mod Select
pub mod Accounts
pub mod Outcome
pub mod Writes
pub mod Sent
pub mod Replay
pub mod Deadlines
pub mod Timeouts
use aspect_cli.Base.{
  ℕ, ◌+◌, Bool, true, false, Option, none, some, List, [], ◌∷◌, ◌++◌, leb, ◌==◌, if◌then◌else◌,
  is_empty,
}
use aspect_cli.Base.Int.{ℤ, max_signed}
use aspect_cli.Sink.RetryBuffer.{Item, RetryBuffer, push_item, prune_until}
use aspect_cli.Sink.Reconnect.{DriveOutcome, transient, fatal}

-- `RetryConfig`; times are in nanoseconds
pub record RetryConfig : Type 0 where
  pub max_retries : ℕ
  pub retry_min_delay : ℕ
  pub retry_max_buffer_bytes : ℕ
  pub timeout : Option ℕ
  pub send_stall_timeout : ℕ
  pub ack_progress_timeout : ℕ
  pub half_close_timeout : ℕ

-- what the protocol crate does with an event: `build_tool::bazel_event` and `encoded_len`
pub record Codec {ℓ κ} (E : Type ℓ) (R : Type κ) : Type (ℓ ⊔ κ) where
  pub last_message : E → Bool
  pub bazel_event : ℕ → E → R
  pub encoded_len : R → ℕ

-- `StreamState`
pub record StreamState {κ} (R : Type κ) : Type κ where
  pub buffer : RetryBuffer R
  pub next_seq : ℕ
  pub max_acked : ℕ
  pub last_message_sent : Bool

-- what `drive_stream` keeps for itself: the requests given to the channel, whether `sender_opt` holds
-- the sender, the armed deadlines, and the evictions it warned of
pub record Connection {κ} (R : Type κ) : Type κ where
  pub written : List (Item R)
  pub sender_open : Bool
  pub ack_deadline : Option ℕ
  pub half_close_deadline : Option ℕ
  pub warned : ℕ

-- how a bounded write into the request channel ends
pub data Sending : Type 0 where
  accepted stream_closed stalled : Sending

-- how the wait for the first event ends
pub data Arrival {ℓ} (E : Type ℓ) : Type ℓ where
  arrived : E → Arrival E
  producer_gone timed_out : Arrival E

-- how the opening of the stream ends; an error can be retried or not
pub data Opened : Type 0 where
  opened open_timed_out : Opened
  open_failed : Bool → Opened

-- an arm of `select!`, with the time at which it is taken
pub data Arm {ℓ} (E : Type ℓ) : Type ℓ where
  event_received : ℕ → E → Sending → List ℤ → Arm E
  upstream_ended : ℕ → Arm E
  ack_received : ℕ → ℤ → Arm E
  server_error : Bool → Arm E
  response_ended : Arm E
  half_close_elapsed : ℕ → Arm E
  ack_elapsed : ℕ → Arm E

pub record Script {ℓ} (E : Type ℓ) : Type ℓ where
  pub first_accepted : Bool
  pub first_event : Arrival E
  pub opening : Opened
  pub replies : ℕ → Sending
  pub drained : List ℤ
  pub opened_at : ℕ
  pub arms : List (Arm E)

-- the loop goes on, or `drive_stream` has returned
pub data Drive {κ} (R : Type κ) : Type κ where
  running : StreamState R → Connection R → Drive R
  returned : StreamState R → Connection R → DriveOutcome → Drive R

abbrev pub get_or_insert : Option ℕ → ℕ → Option ℕ
get_or_insert none t = some t
get_or_insert (some d) t = some d

-- a deadline is armed and not later than the time
abbrev pub is_due : Option ℕ → ℕ → Bool
is_due none now = false
is_due (some d) now = leb d now

abbrev pub is_some : Option ℕ → Bool
is_some none = false
is_some (some d) = true

abbrev pub is_this : ℕ → Option ℕ → Bool
is_this seq none = false
is_this seq (some n) = seq == n

abbrev pub failure : Bool → DriveOutcome
failure retryable = if retryable then transient else fatal

module _ {κ} {R : Type κ} where
  abbrev pub unacked : StreamState R → List (Item R)
  unacked st = st.buffer.items

  abbrev pub all_acked : StreamState R → Bool
  all_acked st = is_empty st.buffer.items

  -- before the stream is open
  abbrev pub closed_connection : Connection R
  closed_connection = record {
    written = [];
    sender_open = true;
    ack_deadline = none;
    half_close_deadline = none;
    warned = 0;
  }

  unfoldable pub record_ack : StreamState R → ℤ → StreamState R
  record_ack st seq = record st {
    buffer = prune_until st.buffer seq;
    max_acked = max_signed st.max_acked seq;
  }

  unfoldable pub drain_acks : List ℤ → StreamState R → StreamState R
  drain_acks [] st = st
  drain_acks (seq ∷ acks) st = drain_acks acks (record_ack st seq)

  -- the channel afterwards, or nothing for a transient failure
  unfoldable pub send_bounded : Sending → List (Item R) → Item R → Option (List (Item R))
  send_bounded accepted channel item = some (channel ++ item ∷ [])
  send_bounded stream_closed channel item = none
  send_bounded stalled channel item = none

  -- the rest of the loop, or its end at a failed write
  abbrev pub go_on :
      (List (Item R) → List (Item R) × Bool)
      → List (Item R)
      → Option (List (Item R))
      → List (Item R) × Bool
  go_on rest channel none = (channel, false)
  go_on rest channel (some channel') = rest channel'

  -- the loop over the buffered entries; false if a write failed
  unfoldable pub replay :
      Option ℕ → (ℕ → Sending) → List (Item R) → List (Item R) → List (Item R) × Bool
  unfolding send_bounded
  replay preloaded replies channel [] = (channel, true)
  replay preloaded replies channel (x ∷ items) =
      let skipped = replay preloaded replies channel items in
      if is_this x.seq preloaded
      then skipped
      else go_on (λ channel'. replay preloaded replies channel' items) channel
          (send_bounded (replies x.seq) channel x)

module _ {ℓ κ} {E : Type ℓ} {R : Type κ} (codec : Codec E R) where
  abbrev pub request_item : ℕ → E → Item R
  request_item seq event = record {
    seq = seq;
    size = codec.encoded_len (codec.bazel_event seq event);
    request = codec.bazel_event seq event;
  }

  -- an event gets the next number and is retained
  unfoldable pub enqueue : StreamState R → E → StreamState R
  enqueue st event = record st {
    buffer = push_item st.buffer (request_item st.next_seq event);
    next_seq = st.next_seq + 1;
  }
