-- ===== src/Sink/Stream/Accounts.antt =====
-- Where an event is that got a number: acked, retained, or counted as evicted.
use aspect_cli.Base.{
  ℕ, ◌+◌, ◌-◌, ◌≤◌, ◌≡◌, refl, ap, ◌∙◌, inl, inr, Bool, true, false, not, ◌&&◌, Option, none, some,
  List, [], ◌∷◌, arith, ltb, if◌then◌else◌, Bool-cases, ltb→lt, ltb→le, length,
}
use aspect_cli.Base.Int.{ℤ, pos, negsuc, max_signed, le_signed}
use aspect_cli.Sink.RetryBuffer.{Item, RetryBuffer, prune_items, prune_until}
use aspect_cli.Sink.RetryBuffer.Numbers.{push_item_keeps-IsValid}
use aspect_cli.Sink.RetryBuffer.Laws.{RisesBelow, IsValid, prune_until-IsValid, items-prune_until}
use aspect_cli.Sink.RetryBuffer.Numbers.{
  above, push_item-RisesBelow, prune_until-RisesBelow, push_item-above, above-le, above-keep,
}
use aspect_cli.Sink.Reconnect.{DriveOutcome, done, upstream_closed, transient, fatal}
use aspect_cli.Sink.Stream.{
  RetryConfig, Codec, StreamState, Connection, Sending, Arm, event_received, upstream_ended,
  ack_received, server_error, response_ended, half_close_elapsed, ack_elapsed, Drive, running,
  returned, failure, all_acked, record_ack, drain_acks, send_bounded, request_item, enqueue,
  get_or_insert,
}
use aspect_cli.Sink.Stream.Select.{
  after_write, on_event, on_upstream_ended, on_ack, on_response_ended, on_half_close, enabled,
  take_arm, select, select_loop,
}

le-max_signed : (n : ℕ) (ack : ℤ) → n ≤ max_signed n ack
le-max_signed n (pos m) = omega arith
le-max_signed n (negsuc m) = omega arith

module _ {κ} {R : Type κ} where
  -- with `lost` evictions that were warned about before
  pub record Accounts (lost : ℕ) (st : StreamState R) : Type 0 where
    pub valid : IsValid st.buffer
    pub rises : RisesBelow st.next_seq st.buffer.items
    pub covered :
        st.next_seq
        ≤ st.max_acked
          + length (above st.max_acked st.buffer.items)
          + (lost + st.buffer.evicted)
          + 1

  prune_items-evicted :
      (ack : ℤ) (b : RetryBuffer R) (items : List (Item R))
      → (prune_items ack b items).evicted ≡ b.evicted
  unfolding prune_items
  prune_items-evicted ack b [] = refl
  prune_items-evicted ack b (x ∷ items) = elim (Bool-cases (le_signed x.seq ack)) [
    | inl acked ↦
        rw acked
          (prune_items-evicted ack (record b { bytes = b.bytes - x.size; items = items }) items)
    | inr newer ↦ rw newer refl
  ]

  prune_until-evicted : (ack : ℤ) (b : RetryBuffer R) → (prune_until b ack).evicted ≡ b.evicted
  unfolding prune_until
  prune_until-evicted ack b = prune_items-evicted ack b b.items

  pub record_ack-Accounts :
      (lost : ℕ) (ack : ℤ) (st : StreamState R)
      → Accounts lost st
      → Accounts lost (record_ack st ack)
  unfolding record_ack
  record_ack-Accounts lost ack st h =
      let m = max_signed st.max_acked ack in
      let b = prune_until st.buffer ack in
      let kept : above m b.items ≡ above m st.buffer.items =
        ap (above m) (items-prune_until ack st.next_seq st.buffer h.rises)
        ∙ above-keep ack st.max_acked st.buffer.items in
      record {
        valid = prune_until-IsValid ack st.buffer h.valid;
        rises = prune_until-RisesBelow ack st.next_seq st.buffer h.rises;
        covered = omega (
          arith,
          ap length kept,
          h.covered,
          prune_until-evicted ack st.buffer,
          le-max_signed st.max_acked ack,
          above-le st.max_acked m st.next_seq st.buffer.items (le-max_signed st.max_acked ack)
              h.rises,
        );
      }

  pub drain_acks-Accounts :
      (lost : ℕ) (acks : List ℤ) (st : StreamState R)
      → Accounts lost st
      → Accounts lost (drain_acks acks st)
  unfolding drain_acks
  drain_acks-Accounts lost [] st h = h
  drain_acks-Accounts lost (ack ∷ acks) st h =
      drain_acks-Accounts lost acks (record_ack st ack) (record_ack-Accounts lost ack st h)

  -- what a way out of the stream tells of its state
  abbrev pub Concludes : StreamState R → DriveOutcome → Type 0
  Concludes st done = (all_acked st ≡ true) × (st.last_message_sent ≡ true)
  Concludes st upstream_closed = all_acked st ≡ true
  Concludes st transient = Unit {0}
  Concludes st fatal = Unit {0}

  abbrev pub Settled : ℕ → Drive R → Type 0
  Settled lost (running st c) = Accounts (lost + c.warned) st
  Settled lost (returned st c outcome) = Accounts (lost + c.warned) st × Concludes st outcome

  ended-Concludes :
      (st : StreamState R)
      → all_acked st ≡ true
      → (last : Bool) → st.last_message_sent ≡ last
      → Concludes st (if last then done else upstream_closed)
  ended-Concludes st empty true e = (empty, e)
  ended-Concludes st empty false e = empty

  pub first_that_holds {ι} :
      (Q : Drive R → Type ι) (last empty shut : Bool) (a b c : Drive R)
      → (last ≡ true → empty ≡ true → Q a)
      → (empty ≡ true → Q b)
      → Q c
      → Q (if last && empty then a else if shut && empty then b else c)
  first_that_holds Q true true shut a b c ha hb hc = ha refl refl
  first_that_holds Q true false true a b c ha hb hc = hc
  first_that_holds Q true false false a b c ha hb hc = hc
  first_that_holds Q false true true a b c ha hb hc = hb refl
  first_that_holds Q false false true a b c ha hb hc = hc
  first_that_holds Q false true false a b c ha hb hc = hc
  first_that_holds Q false false false a b c ha hb hc = hc

  pub failure-Concludes : (st : StreamState R) (retryable : Bool) → Concludes st (failure retryable)
  failure-Concludes st true = tt
  failure-Concludes st false = tt

module _ {ℓ κ} {E : Type ℓ} {R : Type κ} (codec : Codec E R) (retry : RetryConfig) where
  pub enqueue-Accounts :
      (lost : ℕ) (st : StreamState R) (event : E)
      → Accounts lost st
      → Accounts lost (enqueue codec st event)
  unfolding enqueue
  enqueue-Accounts lost st event h =
      let item = request_item codec st.next_seq event in
      record {
        valid = push_item_keeps-IsValid st.buffer item h.valid;
        rises = push_item-RisesBelow st.next_seq st.buffer item h.valid refl h.rises;
        covered = elim (Bool-cases (ltb st.max_acked st.next_seq)) [
          | inl new ↦ omega (
            arith,
            h.covered,
            push_item-above st.max_acked st.buffer item (ltb→lt st.max_acked st.next_seq new),
          )
          | inr old ↦ omega (arith, ltb→le st.max_acked st.next_seq old)
        ];
      }

  after_write-Settled :
      (lost now : ℕ) (event : E) (drained : List ℤ) (st : StreamState R) (c : Connection R)
      (channel : Option (List (Item R)))
      → Accounts (lost + c.warned) st
      → Settled lost (after_write codec retry now event drained st c channel)
  unfolding after_write
  after_write-Settled lost now event drained st c none h =
      (drain_acks-Accounts (lost + c.warned) drained st h, tt)
  after_write-Settled lost now event drained st c (some channel) h =
      elim (Bool-cases (codec.last_message event)) [
        | inl last ↦ rw last (record { valid = h.valid; rises = h.rises; covered = h.covered })
        | inr more ↦ rw more h
      ]

  on_event-Settled :
      (lost now : ℕ) (event : E) (sending : Sending) (drained : List ℤ) (st : StreamState R)
      (c : Connection R)
      → Accounts (lost + c.warned) st
      → Settled lost (on_event codec retry now event sending drained st c)
  unfolding on_event
  on_event-Settled lost now event sending drained st c h =
      after_write-Settled lost now event drained (enqueue codec st event)
        (record c {
          ack_deadline = get_or_insert c.ack_deadline (now + retry.ack_progress_timeout);
        })
        (send_bounded sending c.written (request_item codec st.next_seq event))
        (enqueue-Accounts (lost + c.warned) st event h)

  on_upstream_ended-Settled :
      (lost now : ℕ) (st : StreamState R) (c : Connection R)
      → Accounts (lost + c.warned) st
      → Settled lost (on_upstream_ended codec retry now st c)
  unfolding on_upstream_ended
  on_upstream_ended-Settled lost now st c h = elim (Bool-cases (all_acked st)) [
    | inl empty ↦ rw empty (h, empty)
    | inr some_left ↦ rw some_left h
  ]

  -- the two tests before a return
  wound_up :
      (lost : ℕ) (st : StreamState R) (c : Connection R) (otherwise : Drive R)
      → Accounts (lost + c.warned) st
      → Settled lost otherwise
      → Settled lost (
          if st.last_message_sent && all_acked st
          then returned st c done
          else if not c.sender_open && all_acked st
          then returned st c upstream_closed
          else otherwise)
  wound_up lost st c otherwise h rest =
      first_that_holds (Settled lost) st.last_message_sent (all_acked st) (not c.sender_open)
        (returned st c done) (returned st c upstream_closed) otherwise
        (λ last empty. (h, (empty, last))) (λ empty. (h, empty)) rest

  on_half_close-Settled :
      (lost : ℕ) (st : StreamState R) (c : Connection R)
      → Accounts (lost + c.warned) st
      → Settled lost (on_half_close codec retry st c)
  unfolding on_half_close
  on_half_close-Settled lost st c h = elim (Bool-cases (all_acked st)) [
    | inl empty ↦ rw empty (h, ended-Concludes st empty st.last_message_sent refl)
    | inr some_left ↦ rw some_left (h, tt)
  ]

  pub take_arm-Settled :
      (lost : ℕ) (arm : Arm E) (st : StreamState R) (c : Connection R)
      → Accounts (lost + c.warned) st
      → Settled lost (take_arm codec retry arm st c)
  unfolding take_arm on_ack on_response_ended
  take_arm-Settled lost (event_received now event sending drained) st c h =
      on_event-Settled lost now event sending drained st c h
  take_arm-Settled lost (upstream_ended now) st c h = on_upstream_ended-Settled lost now st c h
  take_arm-Settled lost (ack_received now ack) st c h =
      let after = record_ack-Accounts (lost + c.warned) ack st h in
      let st' = record_ack st ack in
      let c' = record c {
        ack_deadline = if all_acked st' then none else some (now + retry.ack_progress_timeout);
      } in
      wound_up lost st' c' (running st' c') after after
  take_arm-Settled lost (server_error retryable) st c h = (h, failure-Concludes st retryable)
  take_arm-Settled lost response_ended st c h =
      wound_up lost st c (returned st c transient) h (h, tt)
  take_arm-Settled lost (half_close_elapsed now) st c h = on_half_close-Settled lost st c h
  take_arm-Settled lost (ack_elapsed now) st c h = (h, tt)

  pub select_loop-Settled :
      (lost : ℕ) (arms : List (Arm E)) (d : Drive R)
      → Settled lost d
      → Settled lost (select_loop codec retry arms d)
  unfolding select_loop select
  select_loop-Settled lost [] d h = h
  select_loop-Settled lost (arm ∷ arms) (returned st c outcome) h = h
  select_loop-Settled lost (arm ∷ arms) (running st c) h =
      elim (Bool-cases (enabled codec retry arm st c)) [
        | inl able ↦ rw able (
            select_loop-Settled lost arms (take_arm codec retry arm st c)
              (take_arm-Settled lost arm st c h))
        | inr idle ↦ rw idle (select_loop-Settled lost arms (running st c) h)
      ]
