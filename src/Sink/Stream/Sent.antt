-- ===== src/Sink/Stream/Sent.antt =====
-- The requests of one connection.
use aspect_cli.Base.{
  In, In-append, In-last, ℕ, ◌+◌, ◌≡◌, refl, not, none, List, [], ◌∷◌, ◌++◌, arith, if_either, All,
  All-append, All-keep, All-imp,
}
use aspect_cli.Base.Int.{ℤ}
use aspect_cli.Sink.RetryBuffer.{push_item}
use aspect_cli.Sink.RetryBuffer.Laws.{RisesBelow, items-prune_until, push_item-longest_suffix}
use aspect_cli.Sink.RetryBuffer.Numbers.{RisesBelow-append}
use aspect_cli.Sink.Stream.{
  RetryConfig, Codec, StreamState, Connection, Sending, accepted, stream_closed, stalled, Arm,
  event_received, upstream_ended, ack_received, server_error, response_ended, half_close_elapsed,
  ack_elapsed, Drive, running, returned, get_or_insert, unacked, all_acked, record_ack, drain_acks,
  send_bounded, request_item, enqueue,
}
use aspect_cli.Sink.Stream.Select.{
  after_write, on_event, on_upstream_ended, on_ack, on_response_ended, on_half_close, enabled,
  take_arm, select, select_loop,
}
use aspect_cli.Sink.Stream.Accounts.{Accounts, Settled, take_arm-Settled, first_that_holds}
use aspect_cli.Sink.Stream.Writes.{All-longest_suffix, RisesBelow-weaken}

module _ {κ} {R : Type κ} where
  -- the numbers rise, and every retained event was written
  pub record Sends (st : StreamState R) (c : Connection R) : Type κ where
    pub rising : RisesBelow st.next_seq c.written
    pub complete : All (λ x. In x c.written) (unacked st)

  abbrev pub Sent : Drive R → Type κ
  Sent (running st c) = Sends st c
  Sent (returned st c outcome) = Unit {κ} × RisesBelow st.next_seq c.written

  pub drain_acks-next_seq :
      (acks : List ℤ) (st : StreamState R) → (drain_acks acks st).next_seq ≡ st.next_seq
  unfolding drain_acks record_ack
  drain_acks-next_seq [] st = refl
  drain_acks-next_seq (ack ∷ acks) st = drain_acks-next_seq acks (record_ack st ack)

  record_ack-Sends :
      (lost : ℕ) (ack : ℤ) (st : StreamState R) (c : Connection R)
      → Accounts lost st
      → Sends st c
      → Sends (record_ack st ack) c
  unfolding record_ack
  record_ack-Sends lost ack st c a h = record {
    rising = h.rising;
    complete =
        rw (items-prune_until ack st.next_seq st.buffer a.rises)
          (All-keep (λ x. In x c.written) _ st.buffer.items h.complete);
  }

module _ {ℓ κ} {E : Type ℓ} {R : Type κ} (codec : Codec E R) (retry : RetryConfig) where
  enqueue-Sends :
      (lost : ℕ) (event : E) (st : StreamState R) (c : Connection R)
      → Accounts lost st
      → Sends st c
      → Sends
          (enqueue codec st event)
          (record c { written = c.written ++ request_item codec st.next_seq event ∷ [] })
  unfolding enqueue push_item
  enqueue-Sends lost event st c a h =
      let item = request_item codec st.next_seq event in
      record {
        rising = RisesBelow-append st.next_seq c.written item refl h.rising;
        complete = rw (push_item-longest_suffix st.buffer st.buffer.items item a.valid.counted) (
            All-longest_suffix (λ x. In x (c.written ++ item ∷ [])) st.buffer.cap_bytes
              (st.buffer.items ++ item ∷ [])
              (All-append (λ x. In x (c.written ++ item ∷ [])) st.buffer.items (item ∷ [])
                (All-imp (λ x. In x c.written) (λ x. In x (c.written ++ item ∷ []))
                  (λ x. In-append x (item ∷ [])) st.buffer.items h.complete)
                (In-last item c.written, tt)));
      }

  write_failed :
      (now : ℕ) (event : E) (drained : List ℤ) (st : StreamState R) (c : Connection R)
      → RisesBelow st.next_seq c.written
      → Sent (after_write codec retry now event drained (enqueue codec st event) c none)
  unfolding after_write enqueue
  write_failed now event drained st c h = (
    tt,
    rw (drain_acks-next_seq drained (enqueue codec st event))
        (RisesBelow-weaken st.next_seq (st.next_seq + 1) c.written (omega arith) h),
  )

  on_event-Sent :
      (lost now : ℕ) (event : E) (sending : Sending) (drained : List ℤ) (st : StreamState R)
      (c : Connection R)
      → Accounts lost st
      → Sends st c
      → Sent (on_event codec retry now event sending drained st c)
  unfolding on_event send_bounded after_write
  on_event-Sent lost now event accepted drained st c a h =
      let k = enqueue-Sends lost event st c a h in
      if_either Sent (codec.last_message event) _ _
        (λ last. record { rising = k.rising; complete = k.complete })
        (λ more. record { rising = k.rising; complete = k.complete })
  on_event-Sent lost now event stream_closed drained st c a h =
      write_failed now event drained st
        (record c {
          ack_deadline = get_or_insert c.ack_deadline (now + retry.ack_progress_timeout);
        })
        h.rising
  on_event-Sent lost now event stalled drained st c a h =
      write_failed now event drained st
        (record c {
          ack_deadline = get_or_insert c.ack_deadline (now + retry.ack_progress_timeout);
        })
        h.rising

  take_arm-Sent :
      (lost : ℕ) (arm : Arm E) (st : StreamState R) (c : Connection R)
      → Accounts lost st
      → Sends st c
      → Sent (take_arm codec retry arm st c)
  unfolding take_arm on_upstream_ended on_ack on_response_ended on_half_close
  take_arm-Sent lost (event_received now event sending drained) st c a h =
      on_event-Sent lost now event sending drained st c a h
  take_arm-Sent lost (upstream_ended now) st c a h =
      if_either Sent (all_acked st) _ _ (λ empty. (tt, h.rising))
        (λ some_left. record { rising = h.rising; complete = h.complete })
  take_arm-Sent lost (ack_received now ack) st c a h =
      let k = record_ack-Sends lost ack st c a h in
      let st' = record_ack st ack in
      first_that_holds Sent st'.last_message_sent (all_acked st') (not c.sender_open) _ _ _
        (λ last empty. (tt, k.rising)) (λ empty. (tt, k.rising))
        (record { rising = k.rising; complete = k.complete })
  take_arm-Sent lost (server_error retryable) st c a h = (tt, h.rising)
  take_arm-Sent lost response_ended st c a h =
      first_that_holds Sent st.last_message_sent (all_acked st) (not c.sender_open) _ _ _
        (λ last empty. (tt, h.rising)) (λ empty. (tt, h.rising)) (tt, h.rising)
  take_arm-Sent lost (half_close_elapsed now) st c a h =
      if_either Sent (all_acked st) _ _ (λ empty. (tt, h.rising)) (λ some_left. (tt, h.rising))
  take_arm-Sent lost (ack_elapsed now) st c a h = (tt, h.rising)

  pub select_loop-Sent :
      (lost : ℕ) (arms : List (Arm E)) (d : Drive R)
      → Settled lost d
      → Sent d
      → Sent (select_loop codec retry arms d)
  unfolding select_loop select
  select_loop-Sent lost [] d a h = h
  select_loop-Sent lost (arm ∷ arms) (returned st c outcome) a h = h
  select_loop-Sent lost (arm ∷ arms) (running st c) a h =
      if_either (λ d. Sent (select_loop codec retry arms d)) (enabled codec retry arm st c) _ _
        (λ able.
          select_loop-Sent lost arms (take_arm codec retry arm st c)
            (take_arm-Settled codec retry lost arm st c a)
            (take_arm-Sent (lost + c.warned) arm st c a h))
        (λ idle. select_loop-Sent lost arms (running st c) a h)
