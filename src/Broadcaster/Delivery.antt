-- ===== src/Broadcaster/Delivery.antt =====
-- What a subscriber receives while steps of any threads happen in any order.
use aspect_cli.Broadcaster.Laws.{closing, subscribers-send}
use aspect_cli.Base.{
  ℕ, ◌+◌, ◌<◌, ◌≡◌, refl, sym, ap, ◌∙◌, Bool, true, false, Option, List, [], ◌∷◌, ◌++◌, map,
  append-nil, append_assoc, arith, ◌==◌, eqb_refl, keep, keep-append, All, Bool-cases, inl, inr,
  All-imp, All-append, All-keep,
}
use aspect_cli.Broadcaster.{
  Subscription, Broadcaster, subscribe_filtered, set, send, drop_subscriber, try_recv, close,
}
use aspect_cli.Broadcaster.Laws.{
  Step, run, step, filters_at, set_same, subscribing, sending, dropping, receiving,
}
use aspect_cli.Broadcaster.Moves.{Tracked, step-Moves}
use aspect_cli.Broadcaster.Expected.{expected, all_received, drops, received, added, filters_after}

later_channel_rev : (i n : ℕ) → i < n → (i == n) ≡ false
later_channel_rev i n h = ground arith

module _ {ℓ} {A : Type ℓ} where
  join :
      (r rest q now mid later end : List A)
      → r ++ mid ≡ q ++ now
      → rest ++ end ≡ mid ++ later
      → (r ++ rest) ++ end ≡ q ++ (now ++ later)
  join r rest q now mid later end h k =
      append_assoc r rest end
      ∙ (ap (◌++◌ r) k
          ∙ (sym (append_assoc r mid later) ∙ (ap (λ x. x ++ later) h ∙ append_assoc q now later)))

  -- Whatever the steps of the other threads, in a run in which a live subscriber is not dropped, what it
  -- has received and what waits in its queue are what was in the queue before, followed by the events that
  -- were sent before the broadcaster was closed and that its filter accepts, each once and in order.
  pub run-expected :
      (i : ℕ) (fs : List (Option (A → Bool))) (steps : List (Step A)) (b : Broadcaster A)
      → Tracked i fs b
      → All (λ s. drops i s ≡ false) steps
      → all_received i steps b ++ ((run steps b).channels i).queue
        ≡ (b.channels i).queue ++ expected fs steps
  run-expected i fs [] b t h = sym (append-nil (b.channels i).queue)
  run-expected i fs (s ∷ steps) b t (h, hs) =
      let moved = step-Moves i fs b s h t in
      join (received i s b) (all_received i steps (step s b)) (b.channels i).queue (added fs s)
        ((step s b).channels i).queue (expected (filters_after fs s) steps)
        ((run steps (step s b)).channels i).queue moved.1
        (run-expected i (filters_after fs s) steps (step s b) moved.0 hs)

  -- every subscription writes to a channel that was made
  abbrev pub IsMade : Broadcaster A → Type 0
  IsMade b = All (λ (s : Subscription A). s.tx < b.next_channel) b.subscribers

  keep-fresh :
      (n : ℕ) (subs : List (Subscription A))
      → All (λ (s : Subscription A). s.tx < n) subs
      → keep (λ (s : Subscription A). s.tx == n) subs ≡ []
  keep-fresh n [] h = refl
  keep-fresh n (s ∷ subs) (lt, h) = rw (later_channel_rev s.tx n lt) (keep-fresh n subs h)

  filters_at-new :
      (n : ℕ) (subs : List (Subscription A)) (f : Option (A → Bool))
      → All (λ (s : Subscription A). s.tx < n) subs
      → filters_at n (subs ++ record { filter = f; tx = n } ∷ []) ≡ f ∷ []
  filters_at-new n subs f h =
      ap (map (λ (r : Subscription A). r.filter)) (
        keep-append (λ (r : Subscription A). r.tx == n) subs (record { filter = f; tx = n } ∷ [])
        ∙ ap
            (λ front.
              front
              ++ keep (λ (r : Subscription A). r.tx == n) (record { filter = f; tx = n } ∷ []))
            (keep-fresh n subs h))
      ∙ rw (eqb_refl n) refl

  -- the broadcaster with a new subscriber
  abbrev opened_by : Broadcaster A → Option (A → Bool) → Broadcaster A
  opened_by b f = record b {
    closed = false;
    subscribers = b.subscribers ++ record { filter = f; tx = b.next_channel } ∷ [];
    channels = set b.next_channel (record { alive = true; queue = [] }) b.channels;
    next_channel = b.next_channel + 1;
  }

  -- A new subscriber of a broadcaster that is not closed is live, with its filter on its own channel, whose
  -- queue is empty: events from before are not replayed.
  pub subscribe_filtered-Tracked :
      (b : Broadcaster A) (f : Option (A → Bool))
      → IsMade b
      → b.closed ≡ false
      → Tracked (subscribe_filtered b f).1 (f ∷ []) (subscribe_filtered b f).0
        × (((subscribe_filtered b f).0.channels (subscribe_filtered b f).1).queue ≡ [])
  unfolding subscribe_filtered
  subscribe_filtered-Tracked b f made unshut =
      let n = b.next_channel in
      let here = set_same n (record { alive = true; queue = [] }) b.channels in
      let tracked : Tracked n (f ∷ []) (opened_by b f) = record {
        filters = filters_at-new n b.subscribers f made;
        live = ap (λ c. c.alive) here;
        made = omega arith;
      } in
      rw unshut (tracked, ap (λ c. c.queue) here)

  -- A subscriber of a broadcaster that is not closed gets, in any run of steps in which it is not dropped,
  -- exactly the events that are sent after it subscribed and before the broadcaster is closed, and that
  -- its filter accepts: what it has received and what waits for it are those events, in order.
  pub subscribe_filtered-run :
      (b : Broadcaster A) (f : Option (A → Bool)) (steps : List (Step A))
      → IsMade b
      → b.closed ≡ false
      → All (λ s. drops (subscribe_filtered b f).1 s ≡ false) steps
      → all_received (subscribe_filtered b f).1 steps (subscribe_filtered b f).0
          ++ ((run steps (subscribe_filtered b f).0).channels (subscribe_filtered b f).1).queue
        ≡ expected (f ∷ []) steps
  subscribe_filtered-run b f steps made unshut undropped =
      let (tracked, empty) = subscribe_filtered-Tracked b f made unshut in
      run-expected (subscribe_filtered b f).1 (f ∷ []) steps (subscribe_filtered b f).0 tracked
        undropped
      ∙ ap (λ q. q ++ expected (f ∷ []) steps) empty

  -- The steps keep every subscription on a channel that was made.
  pub step-IsMade : (s : Step A) (b : Broadcaster A) → IsMade b → IsMade (step s b)
  unfolding subscribe_filtered send drop_subscriber try_recv close
  step-IsMade (subscribing f) b h =
      let wider =
        All-imp (λ (s : Subscription A). s.tx < b.next_channel)
          (λ (s : Subscription A). s.tx < b.next_channel + 1) (λ s lt. omega arith) b.subscribers
          h in
      elim (Bool-cases b.closed) [
        | inl shut ↦ rw shut wider
        | inr unshut ↦ rw unshut (
            All-append (λ (s : Subscription A). s.tx < b.next_channel + 1) b.subscribers _ wider
              (omega arith, tt))
      ]
  step-IsMade (sending event) b h = rw (subscribers-send b event) (
      All-keep (λ (s : Subscription A). s.tx < b.next_channel) (λ s. (b.channels s.tx).alive)
        b.subscribers h)
  step-IsMade (dropping j) b h = h
  step-IsMade (receiving j) b h = h
  step-IsMade closing b h = tt
