-- ===== src/Sink/Stream/Deadlines.antt =====
-- The deadlines that bound every wait of a stream.
use aspect_cli.Base.{
  ℕ, ◌+◌, ◌≤◌, ◌≡◌, refl, Bool, true, false, not, Option, none, some, List, [], ◌∷◌, arith,
  if◌then◌else◌, if_either, All,
}
use aspect_cli.Base.Int.{ℤ}
use aspect_cli.Sink.RetryBuffer.{Item, take_evicted}
use aspect_cli.Sink.Stream.{
  RetryConfig, Codec, StreamState, Connection, Sending, accepted, stream_closed, stalled, Arm,
  event_received, upstream_ended, ack_received, server_error, response_ended, half_close_elapsed,
  ack_elapsed, Script, Drive, running, returned, is_due, is_some, get_or_insert, all_acked,
  record_ack, send_bounded, replay,
}
use aspect_cli.Sink.Stream.Select.{
  after_write, on_event, on_upstream_ended, on_ack, on_response_ended, on_half_close, enabled,
  take_arm, select, select_loop, enter_loop, start_stream,
}
use aspect_cli.Sink.Stream.Accounts.{first_that_holds}

-- a deadline that is armed lies at or before the limit
abbrev pub Bounded : Option ℕ → ℕ → Type 0
Bounded none limit = Unit {0}
Bounded (some d) limit = d ≤ limit

get_or_insert-Bounded :
    (o : Option ℕ) (v limit : ℕ) → Bounded o limit → v ≤ limit → Bounded (get_or_insert o v) limit
get_or_insert-Bounded none v limit h le = le
get_or_insert-Bounded (some d) v limit h le = h

get_or_insert_armed : (o : Option ℕ) (v : ℕ) → is_some (get_or_insert o v) ≡ true
get_or_insert_armed none v = refl
get_or_insert_armed (some d) v = refl

armed_unless : (b : Bool) (v : ℕ) → b ≡ false → is_some (if b then none else some v) ≡ true
armed_unless true v h = cc
armed_unless false v h = refl

armed_unless-Bounded :
    (b : Bool) (v limit : ℕ) → v ≤ limit → Bounded (if b then none else some v) limit
armed_unless-Bounded true v limit le = tt
armed_unless-Bounded false v limit le = le

armed_if-Bounded : (b : Bool) (v limit : ℕ) → v ≤ limit → Bounded (if b then some v else none) limit
armed_if-Bounded true v limit le = le
armed_if-Bounded false v limit le = tt

armed_if : (b : Bool) (v : ℕ) → not b ≡ false → is_some (if b then some v else none) ≡ true
armed_if true v h = refl
armed_if false v h = cc

unarmed_if : (b : Bool) (v : ℕ) → not b ≡ true → is_some (if b then some v else none) ≡ false
unarmed_if true v h = cc
unarmed_if false v h = refl

pub due :
    (o : Option ℕ) (limit now : ℕ)
    → is_some o ≡ true
    → Bounded o limit
    → limit ≤ now
    → is_due o now ≡ true
due none limit now h b le = cc
due (some d) limit now h b le = ground (arith, b, le)

module _ {ℓ} {E : Type ℓ} where
  -- an arm that arms a deadline was taken by then
  abbrev pub Until : ℕ → Arm E → Type 0
  Until t (event_received now event sending drained) = now ≤ t
  Until t (upstream_ended now) = now ≤ t
  Until t (ack_received now seq) = now ≤ t
  Until t (server_error retryable) = Unit {0}
  Until t response_ended = Unit {0}
  Until t (half_close_elapsed now) = Unit {0}
  Until t (ack_elapsed now) = Unit {0}

module _ {κ} {R : Type κ} where
  pub record Watched (retry : RetryConfig) (t : ℕ) (st : StreamState R) (c : Connection R)
      : Type 0 where
    pub ack_bounded : Bounded c.ack_deadline (t + retry.ack_progress_timeout)
    pub half_bounded : Bounded c.half_close_deadline (t + retry.half_close_timeout)
    pub waiting : c.sender_open ≡ true → all_acked st ≡ false → is_some c.ack_deadline ≡ true
    pub closing : c.sender_open ≡ false → is_some c.half_close_deadline ≡ true
    pub half_open : c.sender_open ≡ true → is_some c.half_close_deadline ≡ false

  abbrev pub IsWatched : RetryConfig → ℕ → Drive R → Type 0
  IsWatched retry t (running st c) = Watched retry t st c
  IsWatched retry t (returned st c outcome) = Unit {0}

  abbrev pub has_returned : Drive R → Bool
  has_returned (running st c) = false
  has_returned (returned st c outcome) = true

module _ {ℓ κ} {E : Type ℓ} {R : Type κ} (codec : Codec E R) (retry : RetryConfig) (t : ℕ) where
  on_event-Watched :
      (now : ℕ) (event : E) (sending : Sending) (drained : List ℤ) (st : StreamState R)
      (c : Connection R)
      → now ≤ t
      → Watched retry t st c
      → IsWatched retry t (on_event codec retry now event sending drained st c)
  unfolding on_event send_bounded after_write
  on_event-Watched now event stream_closed drained st c le h = tt
  on_event-Watched now event stalled drained st c le h = tt
  on_event-Watched now event accepted drained st c le h =
      let acks =
        get_or_insert-Bounded c.ack_deadline (now + retry.ack_progress_timeout)
          (t + retry.ack_progress_timeout) h.ack_bounded (omega (arith, le)) in
      if_either (IsWatched retry t) (codec.last_message event) _ _
        (λ last. record {
          ack_bounded = acks;
          half_bounded =
              get_or_insert-Bounded c.half_close_deadline (now + retry.half_close_timeout)
                (t + retry.half_close_timeout) h.half_bounded (omega (arith, le));
          waiting = λ shut some_left. cc;
          closing =
              λ shut. get_or_insert_armed c.half_close_deadline (now + retry.half_close_timeout);
          half_open = λ shut. cc;
        })
        (λ more. record {
          ack_bounded = acks;
          half_bounded = h.half_bounded;
          waiting = λ still some_left.
              get_or_insert_armed c.ack_deadline (now + retry.ack_progress_timeout);
          closing = h.closing;
          half_open = h.half_open;
        })

  take_arm-Watched :
      (arm : Arm E) (st : StreamState R) (c : Connection R)
      → Until t arm
      → Watched retry t st c
      → IsWatched retry t (take_arm codec retry arm st c)
  unfolding take_arm on_upstream_ended on_ack on_response_ended on_half_close
  take_arm-Watched (event_received now event sending drained) st c le h =
      on_event-Watched now event sending drained st c le h
  take_arm-Watched (upstream_ended now) st c le h =
      if_either (IsWatched retry t) (all_acked st) _ _ (λ empty. tt)
        (λ some_left. record {
          ack_bounded = h.ack_bounded;
          half_bounded =
              get_or_insert-Bounded c.half_close_deadline (now + retry.half_close_timeout)
                (t + retry.half_close_timeout) h.half_bounded (omega (arith, le));
          waiting = λ shut some_left. cc;
          closing =
              λ shut. get_or_insert_armed c.half_close_deadline (now + retry.half_close_timeout);
          half_open = λ shut. cc;
        })
  take_arm-Watched (ack_received now ack) st c le h =
      let st' = record_ack st ack in
      let v = now + retry.ack_progress_timeout in
      first_that_holds (IsWatched retry t) st'.last_message_sent (all_acked st') (not c.sender_open)
        _ _ _ (λ last empty. tt) (λ empty. tt)
        (record {
          ack_bounded =
              armed_unless-Bounded (all_acked st') v (t + retry.ack_progress_timeout)
                (omega (arith, le));
          half_bounded = h.half_bounded;
          waiting = λ still some_left. armed_unless (all_acked st') v some_left;
          closing = h.closing;
          half_open = h.half_open;
        })
  take_arm-Watched (server_error retryable) st c le h = tt
  take_arm-Watched response_ended st c le h =
      first_that_holds (IsWatched retry t) st.last_message_sent (all_acked st) (not c.sender_open) _
        _ _ (λ last empty. tt) (λ empty. tt) tt
  take_arm-Watched (half_close_elapsed now) st c le h =
      if_either (IsWatched retry t) (all_acked st) _ _ (λ empty. tt) (λ some_left. tt)
  take_arm-Watched (ack_elapsed now) st c le h = tt

  pub select_loop-Watched :
      (arms : List (Arm E)) (d : Drive R)
      → All (Until t) arms
      → IsWatched retry t d
      → IsWatched retry t (select_loop codec retry arms d)
  unfolding select_loop select
  select_loop-Watched [] d le h = h
  select_loop-Watched (arm ∷ arms) (returned st c outcome) le h = tt
  select_loop-Watched (arm ∷ arms) (running st c) (le, les) h =
      if_either (λ d. IsWatched retry t (select_loop codec retry arms d))
        (enabled codec retry arm st c) _ _
        (λ able.
          select_loop-Watched arms (take_arm codec retry arm st c) les
            (take_arm-Watched arm st c le h))
        (λ idle. select_loop-Watched arms (running st c) les h)

  pub start_stream-Watched :
      (script : Script E) (st : StreamState R) (channel : List (Item R)) (first : Option ℕ)
      → script.opened_at ≤ t
      → IsWatched retry t (start_stream codec retry script st channel first)
  unfolding start_stream enter_loop take_evicted
  start_stream-Watched script st channel first le =
      let halves = script.opened_at + retry.half_close_timeout in
      let acks = script.opened_at + retry.ack_progress_timeout in
      if_either (IsWatched retry t) (replay first script.replies channel st.buffer.items).1 _ _
        (λ ok. record {
          ack_bounded =
              armed_unless-Bounded (all_acked st) acks (t + retry.ack_progress_timeout)
                (omega (arith, le));
          half_bounded =
              armed_if-Bounded st.last_message_sent halves (t + retry.half_close_timeout)
                (omega (arith, le));
          waiting = λ still some_left. armed_unless (all_acked st) acks some_left;
          closing = λ shut. armed_if st.last_message_sent halves shut;
          half_open = λ still. unarmed_if st.last_message_sent halves still;
        })
        (λ part. tt)
