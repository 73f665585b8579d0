-- ===== src/Sink/Upload/Totals.antt =====
-- What a sink that reports success has delivered.
use aspect_cli.Base.{
  ℕ, zero, suc, ◌+◌, ◌-◌, ◌≤◌, ◌≡◌, refl, ◌≢◌, true, ◌&&◌, List, [], ◌∷◌, arith, if_either, length,
  is_empty,
}
use aspect_cli.Sink.Stream.Outcome.{drive_stream-Settled}
use aspect_cli.Base.Int.{ℤ, pos}
use aspect_cli.Sink.RetryBuffer.{Item}
use aspect_cli.Sink.RetryBuffer
use aspect_cli.Sink.RetryBuffer.Laws.{new-IsValid}
use aspect_cli.Sink.Scalars.{from_counters, SinkStats}
use aspect_cli.Sink.Reconnect.{
  DriveOutcome, done, upstream_closed, transient, fatal, Loop, start, Round, reconnect,
  stream_ended, giving_up, non_retryable, round, after_transient,
}
use aspect_cli.Sink.Stream.{
  RetryConfig, Codec, StreamState, Script, Drive, running, returned, all_acked,
}
use aspect_cli.Sink.Upload.{
  Call, acknowledged, call_failed, under_way, retry_lifecycle, post_stream_timed_out, is_set,
  SinkRun, delivered, failed, at_work, Upload, ended, stopped, streaming, Setup, connected, refused,
  stuck, Session, stats_of, no_stats, new_state, after_round, after_drive, after_call, upload,
  post_stream, after_upload, after_setup, work, drive_stream,
}
use aspect_cli.Sink.Reconnect
use aspect_cli.Sink.RetryBuffer.Numbers.{above}
use aspect_cli.Sink.Stream.Accounts.{Accounts, Settled}

sent_le : (n : ℕ) (z : ℤ) → (from_counters (pos n) z).sent ≤ n - 1
unfolding from_counters
sent_le zero z = omega arith
sent_le (suc n) z = omega arith

after_transient-ne :
    (max_retries : ℕ) (l : Loop) (d : Reconnect.Drive)
    → after_transient max_retries l d ≢ stream_ended
unfolding after_transient
after_transient-ne max_retries l d h = ground arith

nothing_above {κ} :
    {R : Type κ} (m : ℕ) (items : List (Item R))
    → is_empty items ≡ true
    → length (above m items) ≡ 0
nothing_above m [] h = refl
nothing_above m (x ∷ items) h = cc

module _ {κ} {R : Type κ} where
  -- the stream ended with nothing retained, and the accounts kept
  abbrev Completed : Upload R → Type 0
  Completed (ended st told) = Accounts told st × (all_acked st ≡ true)
  Completed (stopped e st) = Unit {0}
  Completed streaming = Unit {0}

  -- a success: nothing is retained, and what was sent but is not below the highest ack was evicted
  abbrev pub IsDelivered : SinkRun R → Type 0
  IsDelivered (delivered st told) =
      (all_acked st ≡ true)
      × ((stats_of st).sent ≤ (stats_of st).acked + (told + st.buffer.evicted))
  IsDelivered (failed e stats) = Unit {0}
  IsDelivered at_work = Unit {0}

  IsDelivered-after_call :
      (stats : SinkStats) (rest : SinkRun R) (call : Call)
      → IsDelivered rest
      → IsDelivered (after_call stats rest call)
  IsDelivered-after_call stats rest acknowledged h = h
  IsDelivered-after_call stats rest (call_failed e) h = tt
  IsDelivered-after_call stats rest (under_way n) h = tt

  stats-le :
      (st : StreamState R) (told : ℕ)
      → Accounts told st
      → all_acked st ≡ true
      → (stats_of st).sent ≤ (stats_of st).acked + (told + st.buffer.evicted)
  unfolding stats_of from_counters
  stats-le st told h empty = omega (
    arith,
    h.covered,
    sent_le st.next_seq (pos st.max_acked),
    nothing_above st.max_acked st.buffer.items empty,
  )

module _ {ℓ κ} {E : Type ℓ} {R : Type κ} (codec : Codec E R) (retry : RetryConfig) where
  after_round-Completed :
      (told : ℕ) (rest : Loop → Upload R) (st : StreamState R) (r : Round)
      → r ≢ stream_ended
      → ((m : Loop) → Completed (rest m))
      → Completed (after_round rest st told r)
  after_round-Completed told rest st (reconnect l) ne h = h l
  after_round-Completed told rest st stream_ended ne h = absurd (ne refl)
  after_round-Completed told rest st (giving_up n) ne h = tt
  after_round-Completed told rest st non_retryable ne h = tt

  after_drive-Completed :
      (rest : StreamState R → ℕ → Loop → Upload R) (l : Loop) (told : ℕ) (d : Drive R)
      → Settled told d
      → ((st : StreamState R) (t : ℕ) (m : Loop) → Accounts t st → Completed (rest st t m))
      → Completed (after_drive retry.max_retries rest l told d)
  after_drive-Completed rest l told (running st c) h k = tt
  after_drive-Completed rest l told (returned st c done) (a, (empty, last)) k = (a, empty)
  after_drive-Completed rest l told (returned st c upstream_closed) (a, empty) k = (a, empty)
  after_drive-Completed rest l told (returned st c transient) (a, e) k =
      after_round-Completed (told + c.warned) (rest st (told + c.warned)) st _
        (after_transient-ne retry.max_retries l
          (record { outcome = transient; acked = st.max_acked }))
        (λ m. k st (told + c.warned) m a)
  after_drive-Completed rest l told (returned st c fatal) (a, e) k = tt

  upload-Completed :
      (scripts : List (Script E)) (st : StreamState R) (told : ℕ) (l : Loop)
      → Accounts told st
      → Completed (upload codec retry scripts st told l)
  unfolding upload
  upload-Completed [] st told l h = tt
  upload-Completed (script ∷ scripts) st told l h =
      after_drive-Completed (upload codec retry scripts) l told (drive_stream codec retry script st)
        (drive_stream-Settled codec retry told script st h) (upload-Completed scripts)

  new_state-Accounts : Accounts 0 (new_state {R = R} retry)
  unfolding new_state RetryBuffer.new
  new_state-Accounts = record {
    valid = new-IsValid retry.retry_max_buffer_bytes;
    rises = tt;
    covered = omega arith;
  }

  post_stream-IsDelivered :
      (session : Session E) (st : StreamState R) (told : ℕ)
      → Completed (ended st told)
      → IsDelivered (post_stream codec retry session st told)
  unfolding post_stream
  post_stream-IsDelivered session st told (a, empty) =
      let stats = stats_of st in
      let finished = retry_lifecycle retry.max_retries 0 session.invocation_finished in
      let built = retry_lifecycle retry.max_retries 0 session.build_finished in
      let success : IsDelivered (delivered st told) = (empty, stats-le st told a empty) in
      let calls =
        IsDelivered-after_call stats (after_call stats (delivered st told) built) finished
          (IsDelivered-after_call stats (delivered st told) built success) in
      if_either (IsDelivered {R = R}) (session.post_stream_late && is_set retry.timeout)
        (failed post_stream_timed_out stats)
        (after_call stats (after_call stats (delivered st told) built) finished) (λ late. tt)
        (λ in_time. calls)

  after_upload-IsDelivered :
      (session : Session E) (u : Upload R)
      → Completed u
      → IsDelivered (after_upload codec retry session u)
  after_upload-IsDelivered session (ended st told) h = post_stream-IsDelivered session st told h
  after_upload-IsDelivered session (stopped e st) h = tt
  after_upload-IsDelivered session streaming h = tt

  after_setup-IsDelivered :
      (session : Session E) (setup : Setup) → IsDelivered (after_setup codec retry session setup)
  unfolding after_setup
  after_setup-IsDelivered session refused = tt
  after_setup-IsDelivered session stuck = tt
  after_setup-IsDelivered session connected =
      let enqueued = retry_lifecycle retry.max_retries 0 session.build_enqueued in
      let begun = retry_lifecycle retry.max_retries 0 session.invocation_started in
      let u = upload codec retry session.streams (new_state retry) 0 start in
      let rest = after_upload codec retry session u in
      IsDelivered-after_call no_stats (after_call no_stats rest begun) enqueued (
        IsDelivered-after_call no_stats rest begun (
          after_upload-IsDelivered session u
            (upload-Completed session.streams (new_state retry) 0 start new_state-Accounts)))

  -- Whatever the backend does and however often the sink reconnects, if the sink reports success then it
  -- retains no event, and the events it sent are at most as many as the highest ack and the evicted ones,
  -- which the user was told of or which are still counted.
  pub work-IsDelivered : (session : Session E) → IsDelivered (work codec retry session)
  unfolding work
  work-IsDelivered session = after_setup-IsDelivered session session.setup
