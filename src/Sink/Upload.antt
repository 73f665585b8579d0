-- ===== src/Sink/Upload.antt =====
-- `work` of crates/axl-runtime/src/engine/bazel/sink/grpc.rs, from the first lifecycle call to the
-- outcome of the sink: what `retry_lifecycle` and `drive_stream` meet is given by scripts. The texts
-- of errors, the sleeps and the warnings but for the counts of evicted events are left out.
pub mod Lifecycle
pub mod Totals
use aspect_cli.Base.{
  ℕ, zero, suc, ◌+◌, ◌-◌, ◌*◌, ◌/◌, ◌%◌, ◌^◌, ◌≤◌, ◌<◌, ◌≡◌, refl, sym, ap, ap₂, ◌∙◌, subst, ◌≢◌,
  ◌↔◌, ◌⊎◌, inl, inr, Bool, true, false, not, ◌&&◌, ◌||◌, Option, none, some, List, [], ◌∷◌, ◌++◌,
  map, append-nil, append_assoc, arith, ltb, leb, ◌==◌, if◌then◌else◌, Bool-cases, leb→le, ltb→lt,
  ltb→le, eqb→eq, eqb_refl, if_either, length, get_elem?, is_empty, any, keep, length-append,
  keep-append, any-append, get_elem?-append_left, get_elem?-append_right, All, All-append,
  All-append_inv, All-keep, All-map, All-imp, Text, text, text_eq, text_eq→eq, text_eq_refl,
  text_eq_iff, strip_prefix, strip_prefix-append, strip_prefix→eq, starts_with, starts_with_char,
  ends_with_char, contains_char, contains_char-append, split_once, before_char, trim_start,
  trim_end, trim_matches, is_whitespace, trim, to_lower, split_add, split, eq_ignore_case,
  find_char, drop, split_once-append, split_once_cases,
}
use aspect_cli.Base.Int.{ℤ, pos}
use aspect_cli.Sink.RetryBuffer
use aspect_cli.Sink.Scalars.{
  ClientError, status, deadline_exceeded, is_retryable, SinkStats, from_counters,
}
use aspect_cli.Sink.Reconnect.{
  DriveOutcome, Loop, start, Round, reconnect, stream_ended, giving_up, non_retryable, round,
}
use aspect_cli.Sink.Stream.{
  RetryConfig, Codec, StreamState, Connection, Script, Drive, running, returned,
}
use aspect_cli.Sink.Stream.Select.{drive_stream}

-- how one attempt of a lifecycle call ends
pub data Attempt : Type 0 where
  answered attempt_timed_out : Attempt
  attempt_failed : ClientError → Attempt

-- a lifecycle call: done, failed, or still under way behind this many attempts
pub data Call : Type 0 where
  acknowledged : Call
  call_failed : ClientError → Call
  under_way : ℕ → Call

-- `retry_lifecycle`
unfoldable pub retry_lifecycle : ℕ → ℕ → List Attempt → Call
retry_lifecycle max_retries attempt [] = under_way attempt
retry_lifecycle max_retries attempt (answered ∷ attempts) = acknowledged
retry_lifecycle max_retries attempt (attempt_timed_out ∷ attempts) =
    let later = retry_lifecycle max_retries (attempt + 1) attempts in
    if leb max_retries attempt then call_failed (status deadline_exceeded) else later
retry_lifecycle max_retries attempt (attempt_failed e ∷ attempts) =
    let later = retry_lifecycle max_retries (attempt + 1) attempts in
    if not (is_retryable e) || leb max_retries attempt then call_failed e else later

-- why a sink fails
pub data SinkError : Type 0 where
  setup_failed setup_timed_out : SinkError
  lifecycle_failed : ClientError → SinkError
  gave_up : ℕ → SinkError
  stream_refused : SinkError
  post_stream_timed_out : SinkError

-- `SinkOutcome`, or the sink is at work; the counts of evicted events that were warned of stand beside it
pub data SinkRun {κ} (R : Type κ) : Type κ where
  delivered : StreamState R → ℕ → SinkRun R
  failed : SinkError → SinkStats → SinkRun R
  at_work : SinkRun R

-- the end of the reconnect loop
pub data Upload {κ} (R : Type κ) : Type κ where
  ended : StreamState R → ℕ → Upload R
  stopped : SinkError → StreamState R → Upload R
  streaming : Upload R

-- how `Client::new` ends
pub data Setup : Type 0 where
  connected refused stuck : Setup

-- what the sink meets
pub record Session {ℓ} (E : Type ℓ) : Type ℓ where
  pub setup : Setup
  pub build_enqueued : List Attempt
  pub invocation_started : List Attempt
  pub streams : List (Script E)
  pub invocation_finished : List Attempt
  pub build_finished : List Attempt
  pub post_stream_late : Bool

abbrev pub no_stats : SinkStats
no_stats = record { sent = 0; acked = 0 }

abbrev pub is_set : Option ℕ → Bool
is_set none = false
is_set (some t) = true

module _ {κ} {R : Type κ} where
  unfoldable pub stats_of : StreamState R → SinkStats
  stats_of st = from_counters (pos st.next_seq) (pos st.max_acked)

  -- the state before the first stream
  unfoldable pub new_state : RetryConfig → StreamState R
  new_state retry = record {
    buffer = RetryBuffer.new retry.retry_max_buffer_bytes;
    next_seq = 1;
    max_acked = 0;
    last_message_sent = false;
  }

  abbrev pub after_round : (Loop → Upload R) → StreamState R → ℕ → Round → Upload R
  after_round rest st told (reconnect l) = rest l
  after_round rest st told stream_ended = ended st told
  after_round rest st told (giving_up n) = stopped (gave_up n) st
  after_round rest st told non_retryable = stopped stream_refused st

  abbrev pub after_drive : ℕ → (StreamState R → ℕ → Loop → Upload R) → Loop → ℕ → Drive R → Upload R
  after_drive max_retries rest l told (running st c) = streaming
  after_drive max_retries rest l told (returned st c outcome) =
      after_round (rest st (told + c.warned)) st (told + c.warned)
        (round max_retries l (record { outcome = outcome; acked = st.max_acked }) outcome)

  -- `send_lifecycle_logged` and what follows it
  abbrev pub after_call : SinkStats → SinkRun R → Call → SinkRun R
  after_call stats rest acknowledged = rest
  after_call stats rest (call_failed e) = failed (lifecycle_failed e) stats
  after_call stats rest (under_way n) = at_work

module _ {ℓ κ} {E : Type ℓ} {R : Type κ} (codec : Codec E R) (retry : RetryConfig) where
  -- the loop of reconnects, with the evictions that the user was told of
  unfoldable pub upload : List (Script E) → StreamState R → ℕ → Loop → Upload R
  upload [] st told l = streaming
  upload (script ∷ scripts) st told l =
      after_drive retry.max_retries (upload scripts) l told (drive_stream codec retry script st)

  -- the calls after the stream, under the user's timeout if there is one
  unfoldable pub post_stream : Session E → StreamState R → ℕ → SinkRun R
  post_stream session st told =
      let calls =
        after_call (stats_of st)
          (after_call (stats_of st) (delivered st told)
            (retry_lifecycle retry.max_retries 0 session.build_finished))
          (retry_lifecycle retry.max_retries 0 session.invocation_finished) in
      if session.post_stream_late && is_set retry.timeout
      then failed post_stream_timed_out (stats_of st)
      else calls

  abbrev pub after_upload : Session E → Upload R → SinkRun R
  after_upload session (ended st told) = post_stream session st told
  after_upload session (stopped e st) = failed e (stats_of st)
  after_upload session streaming = at_work

  unfoldable pub after_setup : Session E → Setup → SinkRun R
  after_setup session refused = failed setup_failed no_stats
  after_setup session stuck = failed setup_timed_out no_stats
  after_setup session connected =
      after_call no_stats
        (after_call no_stats
          (after_upload session (upload session.streams (new_state retry) 0 start))
          (retry_lifecycle retry.max_retries 0 session.invocation_started))
        (retry_lifecycle retry.max_retries 0 session.build_enqueued)

  unfoldable pub work : Session E → SinkRun R
  unfolding after_setup upload post_stream
  work session = after_setup session session.setup
