-- ===== src/Sink/Stream/Outcome.antt =====
-- What a whole stream leaves behind.
use aspect_cli.Base.{
  ℕ, ◌+◌, inl, inr, Bool, true, false, Option, none, List, [], ◌∷◌, arith, Bool-cases, if_either,
}
use aspect_cli.Sink.RetryBuffer.{Item, take_evicted}
use aspect_cli.Sink.Stream.{
  RetryConfig, Codec, StreamState, Arrival, arrived, producer_gone, timed_out, Opened, opened,
  open_timed_out, open_failed, Script, unacked, replay,
}
use aspect_cli.Sink.Stream.Select.{
  Preload, preloaded, refused, preload_fresh, preload_from, preload_first_event, enter_loop,
  start_stream, open_stream, after_preload, drive_stream,
}
use aspect_cli.Sink.Stream.Accounts.{
  Accounts, Settled, drain_acks-Accounts, enqueue-Accounts, select_loop-Settled, failure-Concludes,
}

module _ {ℓ κ} {E : Type ℓ} {R : Type κ} (codec : Codec E R) (retry : RetryConfig) where
  abbrev pub Prepared : ℕ → Preload R → Type 0
  Prepared lost (preloaded st channel first) = Accounts lost st
  Prepared lost (refused st) = Accounts lost st

  preload_fresh-Prepared :
      (lost : ℕ) (ok : Bool) (first : Arrival E) (st : StreamState R)
      → Accounts lost st
      → Prepared lost (preload_fresh codec retry ok first st)
  unfolding preload_fresh
  preload_fresh-Prepared lost true (arrived event) st h =
      let k = enqueue-Accounts codec retry lost st event h in
      record { valid = k.valid; rises = k.rises; covered = k.covered }
  preload_fresh-Prepared lost false (arrived event) st h =
      enqueue-Accounts codec retry lost st event h
  preload_fresh-Prepared lost ok producer_gone st h = h
  preload_fresh-Prepared lost ok timed_out st h = h

  pub preload_from-Prepared :
      (lost : ℕ) (ok : Bool) (first : Arrival E) (st : StreamState R) (items : List (Item R))
      → Accounts lost st
      → Prepared lost (preload_from codec retry ok first st items)
  unfolding preload_from
  preload_from-Prepared lost true first st (x ∷ items) h = h
  preload_from-Prepared lost false first st (x ∷ items) h = h
  preload_from-Prepared lost ok first st [] h =
      if_either (Prepared lost) st.last_message_sent (preloaded st [] none)
        (preload_fresh codec retry ok first st) (λ last. h)
        (λ more. preload_fresh-Prepared lost ok first st h)

  start_stream-Settled :
      (lost : ℕ) (script : Script E) (st : StreamState R) (channel : List (Item R))
      (first : Option ℕ)
      → Accounts lost st
      → Settled lost (start_stream codec retry script st channel first)
  unfolding start_stream enter_loop take_evicted
  start_stream-Settled lost script st channel first h =
      let sent = replay first script.replies channel st.buffer.items in
      let k : Accounts (lost + st.buffer.evicted)
          (record st { buffer = record st.buffer { evicted = 0 } }) =
        record {
          valid = record { counted = h.valid.counted; within = h.valid.within };
          rises = h.rises;
          covered = omega (arith, h.covered);
        } in
      elim (Bool-cases sent.1) [
        | inl all ↦ rw all k
        | inr part ↦ rw part (drain_acks-Accounts (lost + st.buffer.evicted) script.drained _ k, tt)
      ]

  pub open_stream-Settled :
      (lost : ℕ) (opening : Opened) (script : Script E) (st : StreamState R)
      (channel : List (Item R)) (first : Option ℕ)
      → Accounts lost st
      → Settled lost (open_stream codec retry opening script st channel first)
  unfolding open_stream
  open_stream-Settled lost opened script st channel first h =
      start_stream-Settled lost script st channel first h
  open_stream-Settled lost open_timed_out script st channel first h =
      (record { valid = h.valid; rises = h.rises; covered = omega (arith, h.covered) }, tt)
  open_stream-Settled lost (open_failed retryable) script st channel first h = (
    record { valid = h.valid; rises = h.rises; covered = omega (arith, h.covered) },
    failure-Concludes st retryable,
  )

  after_preload-Settled :
      (lost : ℕ) (script : Script E) (p : Preload R)
      → Prepared lost p
      → Settled lost (after_preload codec retry script p)
  unfolding after_preload
  after_preload-Settled lost script (refused st) h =
      (record { valid = h.valid; rises = h.rises; covered = omega (arith, h.covered) }, tt)
  after_preload-Settled lost script (preloaded st channel first) h =
      select_loop-Settled codec retry lost script.arms _
        (open_stream-Settled lost script.opening script st channel first h)

  -- Whatever the backend does, a stream keeps the accounts of the events: those that got a number are
  -- at most as many as the highest ack, the retained ones above it, and the evicted ones, which were
  -- warned of or are still counted. If it ends with `Done` or `UpstreamClosed` it retains no event, and
  -- for `Done` the last message was sent.
  pub drive_stream-Settled :
      (lost : ℕ) (script : Script E) (st : StreamState R)
      → Accounts lost st
      → Settled lost (drive_stream codec retry script st)
  unfolding drive_stream preload_first_event
  drive_stream-Settled lost script st h =
      after_preload-Settled lost script _
        (preload_from-Prepared lost script.first_accepted script.first_event st (unacked st) h)
