-- ===== src/Broadcaster/Moves.antt =====
-- One step of the threads that share a broadcaster, as one channel sees it.
use aspect_cli.Base.{
  ℕ, ◌+◌, ◌<◌, ◌≡◌, refl, sym, ap, ◌∙◌, subst, inl, inr, Bool, true, false, Option, List, [], ◌∷◌,
  ◌++◌, map, append-nil, arith, ◌==◌, Bool-cases, eqb→eq, eqb_refl, keep, keep-append,
}
use aspect_cli.Broadcaster.{
  Subscription, Channel, Broadcaster, set, subscribe_filtered, send, close, drop_subscriber,
  try_recv, taken,
}
use aspect_cli.Broadcaster.Laws.{
  Step, subscribing, sending, dropping, receiving, closing, step, filters_at, retain-deliver,
  subscribers-send, set_same,
}
use aspect_cli.Broadcaster.Expected.{
  accepted, added, filters_after, to_list, received, drops, deliver-queue, deliver-alive,
  filters_at-live,
}

later_channel : (i n : ℕ) → i < n → (n == i) ≡ false
later_channel i n h = ground arith

module _ {ℓ} {A : Type ℓ} where
  -- a channel that was made, with a live receiver and these filters
  pub record Tracked (i : ℕ) (fs : List (Option (A → Bool))) (b : Broadcaster A) : Type ℓ where
    pub filters : filters_at i b.subscribers ≡ fs
    pub live : (b.channels i).alive ≡ true
    pub made : i < b.next_channel

  -- one step: the channel is tracked on, and what is received and what is left is what was there and
  -- what is added
  abbrev pub Moves : ℕ → List (Option (A → Bool)) → Broadcaster A → Step A → Type ℓ
  Moves i fs b s =
      Tracked i (filters_after fs s) (step s b)
      × (received i s b ++ ((step s b).channels i).queue ≡ (b.channels i).queue ++ added fs s)

  send-Moves :
      (i : ℕ) (fs : List (Option (A → Bool))) (b : Broadcaster A) (event : A)
      → Tracked i fs b
      → Moves i fs b (sending event)
  unfolding send
  send-Moves i fs b event t =
      let after = retain-deliver event i b.subscribers b.channels t.live in
      (
        record {
          filters =
              rw (subscribers-send b event)
                (filters_at-live i b.channels b.subscribers t.live ∙ t.filters);
          live =
              ap (λ c. c.alive) after
              ∙ (deliver-alive (filters_at i b.subscribers) event (b.channels i) ∙ t.live);
          made = t.made;
        },
        ap (λ c. c.queue) after
            ∙ (deliver-queue (filters_at i b.subscribers) event (b.channels i)
                ∙ ap (λ gs. (b.channels i).queue ++ accepted gs event) t.filters),
      )

  set-at :
      (i j : ℕ) (c : Channel A) (channels : ℕ → Channel A)
      → (j == i) ≡ false
      → set j c channels i ≡ channels i
  unfolding set
  set-at i j c channels h = rw h refl

  filters_at-append :
      (i : ℕ) (subs : List (Subscription A)) (s : Subscription A)
      → (s.tx == i) ≡ false
      → filters_at i (subs ++ s ∷ []) ≡ filters_at i subs
  filters_at-append i subs s h = ap (map (λ r. r.filter)) (
      keep-append (λ r. r.tx == i) subs (s ∷ [])
      ∙ rw h (append-nil (keep (λ (r : Subscription A). r.tx == i) subs)))

  subscribe_filtered-channels :
      (i : ℕ) (b : Broadcaster A) (f : Option (A → Bool))
      → i < b.next_channel
      → (subscribe_filtered b f).0.channels i ≡ b.channels i
  unfolding subscribe_filtered
  subscribe_filtered-channels i b f made =
      let same =
        set-at i b.next_channel (record { alive = true; queue = [] }) b.channels
          (later_channel i b.next_channel made) in
      elim (Bool-cases b.closed) [ inl shut ↦ rw shut same | inr unshut ↦ rw unshut same ]

  subscribe_filtered-filters :
      (i : ℕ) (b : Broadcaster A) (f : Option (A → Bool))
      → i < b.next_channel
      → filters_at i (subscribe_filtered b f).0.subscribers ≡ filters_at i b.subscribers
  unfolding subscribe_filtered
  subscribe_filtered-filters i b f made = elim (Bool-cases b.closed) [
    | inl shut ↦ rw shut refl
    | inr unshut ↦
        rw unshut (filters_at-append i b.subscribers _ (later_channel i b.next_channel made))
  ]

  subscribe_filtered-next :
      (b : Broadcaster A) (f : Option (A → Bool))
      → (subscribe_filtered b f).0.next_channel ≡ b.next_channel + 1
  unfolding subscribe_filtered
  subscribe_filtered-next b f = elim (Bool-cases b.closed) [
    | inl shut ↦ rw shut refl
    | inr unshut ↦ rw unshut refl
  ]

  subscribe-Moves :
      (i : ℕ) (fs : List (Option (A → Bool))) (b : Broadcaster A) (f : Option (A → Bool))
      → Tracked i fs b
      → Moves i fs b (subscribing f)
  subscribe-Moves i fs b f t =
      let same = subscribe_filtered-channels i b f t.made in
      (
        record {
          filters = subscribe_filtered-filters i b f t.made ∙ t.filters;
          live = ap (λ c. c.alive) same ∙ t.live;
          made = rw (subscribe_filtered-next b f) (omega (arith, t.made));
        },
        ap (λ c. c.queue) same ∙ sym (append-nil (b.channels i).queue),
      )

  taken_all : (q : List A) → to_list (taken q).0 ++ (taken q).1 ≡ q
  taken_all [] = refl
  taken_all (x ∷ q) = refl

  drop-Moves :
      (i j : ℕ) (fs : List (Option (A → Bool))) (b : Broadcaster A)
      → (j == i) ≡ false
      → Tracked i fs b
      → Moves i fs b (dropping j)
  unfolding drop_subscriber
  drop-Moves i j fs b other t =
      let same = set-at i j (record (b.channels j) { alive = false }) b.channels other in
      (
        record { filters = t.filters; live = rw same t.live; made = t.made },
        rw same (sym (append-nil (b.channels i).queue)),
      )

  receive_own-Moves :
      (i : ℕ) (fs : List (Option (A → Bool))) (b : Broadcaster A)
      → Tracked i fs b
      → Moves i fs b (receiving i)
  unfolding try_recv
  receive_own-Moves i fs b t =
      let c = b.channels i in
      let after = set_same i (record c { queue = (taken c.queue).1 }) b.channels in
      (
        record { filters = t.filters; live = ap (λ d. d.alive) after ∙ t.live; made = t.made },
        rw (eqb_refl i) (taken_all c.queue ∙ sym (append-nil c.queue)),
      )

  receive-Moves :
      (i j : ℕ) (fs : List (Option (A → Bool))) (b : Broadcaster A)
      → Tracked i fs b
      → Moves i fs b (receiving j)
  unfolding try_recv
  receive-Moves i j fs b t = elim (Bool-cases (j == i)) [
    | inl same ↦
        subst (λ k. Moves i fs b (receiving k)) (sym (eqb→eq j i same)) (receive_own-Moves i fs b t)
    | inr other ↦
        let keeps =
          set-at i j (record (b.channels j) { queue = (taken (b.channels j).queue).1 }) b.channels
            other in
        (
          record { filters = t.filters; live = ap (λ d. d.alive) keeps ∙ t.live; made = t.made },
          rw other (sym (append-nil (b.channels i).queue)),
        )
  ]

  pub step-Moves :
      (i : ℕ) (fs : List (Option (A → Bool))) (b : Broadcaster A) (s : Step A)
      → drops i s ≡ false
      → Tracked i fs b
      → Moves i fs b s
  unfolding close
  step-Moves i fs b (subscribing f) h t = subscribe-Moves i fs b f t
  step-Moves i fs b (sending event) h t = send-Moves i fs b event t
  step-Moves i fs b (dropping j) h t = drop-Moves i j fs b h t
  step-Moves i fs b (receiving j) h t = receive-Moves i j fs b t
  step-Moves i fs b closing h t = (
    record { filters = refl; live = t.live; made = t.made },
    sym (append-nil (b.channels i).queue),
  )
