-- ===== src/Sink/Stream/Select.antt =====
-- `preload_first_event` and `drive_stream` of crates/axl-runtime/src/engine/bazel/sink/grpc.rs.
use aspect_cli.Base.{
  ℕ, ◌+◌, Bool, true, false, not, ◌&&◌, ◌||◌, Option, none, some, List, [], ◌∷◌, if◌then◌else◌,
}
use aspect_cli.Base.Int.{ℤ}
use aspect_cli.Sink.RetryBuffer.{Item, take_evicted}
use aspect_cli.Sink.Reconnect.{done, upstream_closed, transient}
use aspect_cli.Sink.Stream.{
  RetryConfig, Codec, StreamState, Connection, Sending, Arrival, arrived, producer_gone, timed_out,
  Opened, opened, open_timed_out, open_failed, Arm, event_received, upstream_ended, ack_received,
  server_error, response_ended, half_close_elapsed, ack_elapsed, Script, Drive, running, returned,
  get_or_insert, is_due, is_some, failure, unacked, all_acked, closed_connection, record_ack,
  drain_acks, send_bounded, replay, request_item, enqueue,
}

-- the state, what is in the channel, and the number of the entry that was sent ahead, or a failure
pub data Preload {κ} (R : Type κ) : Type κ where
  preloaded : StreamState R → List (Item R) → Option ℕ → Preload R
  refused : StreamState R → Preload R

module _ {ℓ κ} {E : Type ℓ} {R : Type κ} (codec : Codec E R) (retry : RetryConfig) where
  unfoldable pub preload_fresh : Bool → Arrival E → StreamState R → Preload R
  preload_fresh accepted (arrived event) st =
      let st' = enqueue codec st event in
      if accepted
      then preloaded
          (record st' { last_message_sent = st.last_message_sent || codec.last_message event })
          (request_item codec st.next_seq event ∷ []) (some st.next_seq)
      else refused st'
  preload_fresh accepted producer_gone st = preloaded st [] none
  preload_fresh accepted timed_out st = preloaded st [] none

  unfoldable pub preload_from : Bool → Arrival E → StreamState R → List (Item R) → Preload R
  unfolding preload_fresh
  preload_from accepted first st (x ∷ items) =
      if accepted then preloaded st (x ∷ []) (some x.seq) else refused st
  preload_from accepted first st [] =
      if st.last_message_sent then preloaded st [] none else preload_fresh accepted first st

  unfoldable pub preload_first_event : Bool → Arrival E → StreamState R → Preload R
  unfolding preload_from
  preload_first_event accepted first st = preload_from accepted first st (unacked st)

  -- the arm for an event, after the write
  unfoldable pub after_write :
      ℕ → E → List ℤ → StreamState R → Connection R → Option (List (Item R)) → Drive R
  after_write now event drained st c none = returned (drain_acks drained st) c transient
  after_write now event drained st c (some channel) =
      if codec.last_message event
      then running (record st { last_message_sent = true })
          (record c {
            written = channel;
            sender_open = false;
            half_close_deadline =
                get_or_insert c.half_close_deadline (now + retry.half_close_timeout);
          })
      else running st (record c { written = channel })

  -- `now` is the time of both deadlines; the source takes that of the half-close deadline after the write,
  -- which may be later by as long as the write may take
  unfoldable pub on_event : ℕ → E → Sending → List ℤ → StreamState R → Connection R → Drive R
  unfolding after_write
  on_event now event sending drained st c =
      after_write now event drained (enqueue codec st event)
        (record c {
          ack_deadline = get_or_insert c.ack_deadline (now + retry.ack_progress_timeout);
        })
        (send_bounded sending c.written (request_item codec st.next_seq event))

  unfoldable pub on_upstream_ended : ℕ → StreamState R → Connection R → Drive R
  on_upstream_ended now st c =
      let c' = record c { sender_open = false } in
      if all_acked st
      then returned st c' upstream_closed
      else running st (record c' {
        half_close_deadline = get_or_insert c.half_close_deadline (now + retry.half_close_timeout);
      })

  unfoldable pub on_ack : ℕ → ℤ → StreamState R → Connection R → Drive R
  on_ack now seq st c =
      let st' = record_ack st seq in
      let c' = record c {
        ack_deadline = if all_acked st' then none else some (now + retry.ack_progress_timeout);
      } in
      if st'.last_message_sent && all_acked st'
      then returned st' c' done
      else if not c.sender_open && all_acked st'
      then returned st' c' upstream_closed
      else running st' c'

  unfoldable pub on_response_ended : StreamState R → Connection R → Drive R
  on_response_ended st c =
      if st.last_message_sent && all_acked st
      then returned st c done
      else if not c.sender_open && all_acked st
      then returned st c upstream_closed
      else returned st c transient

  unfoldable pub on_half_close : StreamState R → Connection R → Drive R
  on_half_close st c =
      if all_acked st
      then returned st c (if st.last_message_sent then done else upstream_closed)
      else returned st c transient

  -- the guards of `select!`; a timer fires when its deadline is due
  unfoldable pub enabled : Arm E → StreamState R → Connection R → Bool
  enabled (event_received now event sending drained) st c =
      not st.last_message_sent && c.sender_open
  enabled (upstream_ended now) st c = not st.last_message_sent && c.sender_open
  enabled (ack_received now seq) st c = true
  enabled (server_error retryable) st c = true
  enabled response_ended st c = true
  enabled (half_close_elapsed now) st c = is_due c.half_close_deadline now
  enabled (ack_elapsed now) st c = is_due c.ack_deadline now && not (is_some c.half_close_deadline)

  unfoldable pub take_arm : Arm E → StreamState R → Connection R → Drive R
  unfolding on_event on_upstream_ended on_ack on_response_ended on_half_close
  take_arm (event_received now event sending drained) st c = on_event now event sending drained st c
  take_arm (upstream_ended now) st c = on_upstream_ended now st c
  take_arm (ack_received now seq) st c = on_ack now seq st c
  take_arm (server_error retryable) st c = returned st c (failure retryable)
  take_arm response_ended st c = on_response_ended st c
  take_arm (half_close_elapsed now) st c = on_half_close st c
  take_arm (ack_elapsed now) st c = returned st c transient

  unfoldable pub select : Arm E → StreamState R → Connection R → Drive R
  unfolding enabled take_arm
  select arm st c = if enabled arm st c then take_arm arm st c else running st c

  -- the `loop`
  unfoldable pub select_loop : List (Arm E) → Drive R → Drive R
  unfolding select
  select_loop [] d = d
  select_loop (arm ∷ arms) (returned st c outcome) = returned st c outcome
  select_loop (arm ∷ arms) (running st c) = select_loop arms (select arm st c)

  -- what is armed before the loop
  unfoldable pub enter_loop : ℕ → StreamState R → Connection R → Drive R
  enter_loop now st c = running st (record c {
    sender_open = not st.last_message_sent;
    ack_deadline = if all_acked st then none else some (now + retry.ack_progress_timeout);
    half_close_deadline =
        if st.last_message_sent then some (now + retry.half_close_timeout) else none;
  })

  -- the warning of evictions, and the replay
  unfoldable pub start_stream : Script E → StreamState R → List (Item R) → Option ℕ → Drive R
  unfolding enter_loop replay
  start_stream script st channel first =
      let (buffer, evicted) = take_evicted st.buffer in
      let st' = record st { buffer = buffer } in
      let (written, sent) = replay first script.replies channel buffer.items in
      let c = record closed_connection { written = written; warned = evicted } in
      if sent
      then enter_loop script.opened_at st' c
      else returned (drain_acks script.drained st') c transient

  unfoldable pub open_stream :
      Opened → Script E → StreamState R → List (Item R) → Option ℕ → Drive R
  unfolding start_stream
  open_stream opened script st channel first = start_stream script st channel first
  open_stream open_timed_out script st channel first =
      returned st (record closed_connection { written = channel }) transient
  open_stream (open_failed retryable) script st channel first =
      returned st (record closed_connection { written = channel }) (failure retryable)

  unfoldable pub after_preload : Script E → Preload R → Drive R
  unfolding open_stream select_loop
  after_preload script (refused st) = returned st closed_connection transient
  after_preload script (preloaded st channel first) =
      select_loop script.arms (open_stream script.opening script st channel first)

  unfoldable pub drive_stream : Script E → StreamState R → Drive R
  unfolding preload_first_event after_preload
  drive_stream script st =
      after_preload script (preload_first_event script.first_accepted script.first_event st)
