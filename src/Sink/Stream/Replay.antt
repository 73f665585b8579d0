-- ===== src/Sink/Stream/Replay.antt =====
-- What is written before new events are: the entry sent ahead, and the replay.
use aspect_cli.Base.{
  In, ℕ, ◌+◌, ◌<◌, ◌≡◌, refl, sym, ◌∙◌, subst, Bool, true, false, Option, none, some, List, [], ◌∷◌,
  ◌++◌, arith, leb, eqb_refl, if_either, All,
}
use aspect_cli.Sink.RetryBuffer.{Item, push_item, take_evicted}
use aspect_cli.Sink.RetryBuffer.Laws.{RisesBelow, total, longest_suffix, push_item-longest_suffix}
use aspect_cli.Sink.Stream.{
  RetryConfig, Codec, StreamState, Sending, Arrival, arrived, producer_gone, timed_out, Opened,
  opened, open_timed_out, open_failed, Script, unacked, replay, request_item, enqueue,
}
use aspect_cli.Sink.Stream.Select.{
  Preload, preloaded, refused, preload_fresh, preload_from, preload_first_event, enter_loop,
  start_stream, open_stream, after_preload, drive_stream,
}
use aspect_cli.Sink.Stream.Sent.{Sent, select_loop-Sent, drain_acks-next_seq}
use aspect_cli.Sink.Stream.Accounts.{Accounts}
use aspect_cli.Sink.Stream.Outcome.{Prepared, preload_from-Prepared, open_stream-Settled}
use aspect_cli.Sink.Stream.Writes.{All-In_self, replay_later, replay_all, replay-RisesBelow}

module _ {κ} {R : Type κ} where
  -- what is in the channel when the stream is opened: nothing, the oldest retained entry, or an entry
  -- that was not retained
  pub data Ahead (n : ℕ) : List (Item R) → List (Item R) → Option ℕ → Type κ where
    nothing : {items : List (Item R)} → Ahead n items [] none
    oldest : {x : Item R} {items : List (Item R)} → Ahead n (x ∷ items) (x ∷ []) (some x.seq)
    evicted : {x : Item R} → x.seq < n → Ahead n [] (x ∷ []) (some x.seq)

  abbrev Ready : Preload R → Type κ
  Ready (preloaded st channel first) = Ahead st.next_seq (unacked st) channel first
  Ready (refused st) = Unit

  -- every entry is in the channel if all writes went well, and the numbers rise in any case
  abbrev Replayed : ℕ → List (Item R) → List (Item R) × Bool → Type κ
  Replayed n items r = (r.1 ≡ true → All (λ x. In x r.0) items) × RisesBelow n r.0

  replay-Replayed :
      (n : ℕ) (replies : ℕ → Sending) (items channel later : List (Item R))
      → channel ++ later ≡ items
      → RisesBelow n items
      → Replayed n items (replay none replies channel later)
  replay-Replayed n replies items channel later e h = (
    λ ok.
        subst (λ l. All (λ x. In x l) items) (sym (replay_all replies channel later ok ∙ e))
          (All-In_self items []),
    replay-RisesBelow n replies channel later (subst (RisesBelow n) (sym e) h),
  )

  skips_oldest :
      (replies : ℕ → Sending) (x : Item R) (items : List (Item R))
      → All (λ (y : Item R). x.seq < y.seq) items
      → replay (some x.seq) replies (x ∷ []) (x ∷ items) ≡ replay none replies (x ∷ []) items
  unfolding replay
  skips_oldest replies x items a = rw (eqb_refl x.seq) (replay_later x.seq replies (x ∷ []) items a)

  replay-Ahead :
      (n : ℕ) (replies : ℕ → Sending) {items channel : List (Item R)} {first : Option ℕ}
      → Ahead n items channel first
      → RisesBelow n items
      → Replayed n items (replay first replies channel items)
  unfolding replay
  replay-Ahead n replies {items} nothing h = replay-Replayed n replies items [] items refl h
  replay-Ahead n replies (oldest {x} {items}) (lt, a, h) =
      subst (Replayed n (x ∷ items)) (sym (skips_oldest replies x items a))
        (replay-Replayed n replies (x ∷ items) (x ∷ []) items refl (lt, a, h))
  replay-Ahead n replies (evicted lt) h = (λ ok. tt, (lt, tt, tt))

module _ {κ} {R : Type κ} where
  Ahead-RisesBelow :
      {n : ℕ} {items channel : List (Item R)} {first : Option ℕ}
      → Ahead n items channel first
      → RisesBelow n items
      → RisesBelow n channel
  Ahead-RisesBelow nothing h = tt
  Ahead-RisesBelow oldest (lt, a, h) = (lt, tt, tt)
  Ahead-RisesBelow (evicted lt) h = (lt, tt, tt)

module _ {ℓ κ} {E : Type ℓ} {R : Type κ} (codec : Codec E R) (retry : RetryConfig) where
  -- the entry that was pulled into an empty buffer stays, or is evicted at once
  pushed_first :
      (n cap : ℕ) (x : Item R)
      → x.seq < n
      → Ahead n (longest_suffix cap (x ∷ [])) (x ∷ []) (some x.seq)
  pushed_first n cap x lt =
      if_either (λ items. Ahead n items (x ∷ []) (some x.seq)) (leb (total (x ∷ [])) cap) (x ∷ [])
        [] (λ fits. oldest) (λ large. evicted lt)

  preload_fresh-Ready :
      (lost : ℕ) (ok : Bool) (first : Arrival E) (st : StreamState R)
      → Accounts lost st
      → unacked st ≡ []
      → Ready (preload_fresh codec retry ok first st)
  unfolding preload_fresh enqueue push_item
  preload_fresh-Ready lost true (arrived event) st a none_left =
      let item = request_item codec st.next_seq event in
      rw (push_item-longest_suffix st.buffer st.buffer.items item a.valid.counted, none_left)
        (pushed_first (st.next_seq + 1) st.buffer.cap_bytes item (omega arith))
  preload_fresh-Ready lost false (arrived event) st a none_left = tt
  preload_fresh-Ready lost ok producer_gone st a none_left = nothing
  preload_fresh-Ready lost ok timed_out st a none_left = nothing

  preload_from-Ready :
      (lost : ℕ) (ok : Bool) (first : Arrival E) (st : StreamState R) (items : List (Item R))
      → Accounts lost st
      → unacked st ≡ items
      → Ready (preload_from codec retry ok first st items)
  unfolding preload_from
  preload_from-Ready lost true first st (x ∷ items) a e =
      subst (λ l. Ahead st.next_seq l (x ∷ []) (some x.seq)) (sym e) oldest
  preload_from-Ready lost false first st (x ∷ items) a e = tt
  preload_from-Ready lost ok first st [] a e =
      if_either Ready st.last_message_sent _ _ (λ last. nothing)
        (λ more. preload_fresh-Ready lost ok first st a e)

  start_stream-Sent :
      (script : Script E) (st : StreamState R) (channel : List (Item R)) (first : Option ℕ)
      → RisesBelow st.next_seq (unacked st)
      → Ahead st.next_seq (unacked st) channel first
      → Sent (start_stream codec retry script st channel first)
  unfolding start_stream enter_loop take_evicted
  start_stream-Sent script st channel first h ahead =
      let (complete, rising) = replay-Ahead st.next_seq script.replies ahead h in
      if_either Sent (replay first script.replies channel st.buffer.items).1 _ _
        (λ ok. record { rising = rising; complete = complete ok })
        (λ part. (tt, rw (drain_acks-next_seq script.drained _) rising))

  open_stream-Sent :
      (opening : Opened) (script : Script E) (st : StreamState R) (channel : List (Item R))
      (first : Option ℕ)
      → RisesBelow st.next_seq (unacked st)
      → Ahead st.next_seq (unacked st) channel first
      → Sent (open_stream codec retry opening script st channel first)
  unfolding open_stream
  open_stream-Sent opened script st channel first h ahead =
      start_stream-Sent script st channel first h ahead
  open_stream-Sent open_timed_out script st channel first h ahead = (tt, Ahead-RisesBelow ahead h)
  open_stream-Sent (open_failed retryable) script st channel first h ahead =
      (tt, Ahead-RisesBelow ahead h)

  after_preload-Sent :
      (lost : ℕ) (script : Script E) (p : Preload R)
      → Prepared codec retry lost p
      → Ready p
      → Sent (after_preload codec retry script p)
  unfolding after_preload
  after_preload-Sent lost script (refused st) a ready = (tt, tt)
  after_preload-Sent lost script (preloaded st channel first) a ready =
      select_loop-Sent codec retry lost script.arms _
        (open_stream-Settled codec retry lost script.opening script st channel first a)
        (open_stream-Sent script.opening script st channel first a.rises ready)

  -- On each connection the sequence numbers that are written rise, and lie below the next one; as long
  -- as the stream runs, every event that is retained was written on this connection, those of earlier
  -- connections included.
  pub drive_stream-Sent :
      (lost : ℕ) (script : Script E) (st : StreamState R)
      → Accounts lost st
      → Sent (drive_stream codec retry script st)
  unfolding drive_stream preload_first_event
  drive_stream-Sent lost script st a =
      after_preload-Sent lost script _
        (preload_from-Prepared codec retry lost script.first_accepted script.first_event st
          (unacked st) a)
        (preload_from-Ready lost script.first_accepted script.first_event st (unacked st) a refl)
