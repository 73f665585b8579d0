-- ===== src/Broadcaster/Laws.antt =====
-- What a subscriber receives.
use aspect_cli.Base.{
  ℕ, ◌≡◌, refl, sym, ap, ◌∙◌, subst, inl, inr, Bool, true, false, Option, List, [], ◌∷◌, ◌++◌, map,
  ◌==◌, if◌then◌else◌, Bool-cases, eqb→eq, eqb_refl, keep,
}
use aspect_cli.Broadcaster.{
  Subscription, Channel, Broadcaster, set, accepts, subscribe_filtered, offer, retain, send, close,
  drop_subscriber, try_recv,
}

-- the steps of the threads that share a broadcaster
pub data Step {ℓ} (A : Type ℓ) : Type ℓ where
  subscribing : Option (A → Bool) → Step A
  sending : A → Step A
  dropping : ℕ → Step A
  receiving : ℕ → Step A
  closing : Step A

module _ {ℓ} {A : Type ℓ} where
  abbrev pub step : Step A → Broadcaster A → Broadcaster A
  step (subscribing filter) b = (subscribe_filtered b filter).0
  step (sending event) b = send b event
  step (dropping i) b = drop_subscriber b i
  step (receiving i) b = (try_recv b i).0
  step closing b = close b

  abbrev pub run : List (Step A) → Broadcaster A → Broadcaster A
  run [] b = b
  run (s ∷ steps) b = run steps (step s b)

  -- the filters of the subscriptions that write to a channel
  abbrev pub filters_at : ℕ → List (Subscription A) → List (Option (A → Bool))
  filters_at i subs = map (λ s. s.filter) (keep (λ s. s.tx == i) subs)

  abbrev pub deliver : List (Option (A → Bool)) → A → Channel A → Channel A
  deliver [] event c = c
  deliver (f ∷ fs) event c =
      deliver fs event (if accepts f event then record c { queue = c.queue ++ event ∷ [] } else c)

  set-other :
      (i j : ℕ) (c : Channel A) (channels : ℕ → Channel A)
      → (i == j) ≡ false
      → set i c channels j ≡ channels j
  unfolding set
  set-other i j c channels h = rw h refl

  pub set_same : (i : ℕ) (c : Channel A) (channels : ℕ → Channel A) → set i c channels i ≡ c
  unfolding set
  set_same i c channels = rw (eqb_refl i) refl

  -- a subscription of another channel leaves the channel alone
  offer-other :
      (event : A) (sub : Subscription A) (channels : ℕ → Channel A) (i : ℕ)
      → (sub.tx == i) ≡ false
      → (offer event sub channels).1 i ≡ channels i
  unfolding offer
  offer-other event sub channels i h = elim (Bool-cases (channels sub.tx).alive) [
    | inl live ↦ elim (Bool-cases (accepts sub.filter event)) [
      | inl wanted ↦ rw (live, wanted) (set-other sub.tx i _ channels h)
      | inr unwanted ↦ rw (live, unwanted) refl
    ]
    | inr dead ↦ rw dead refl
  ]

  -- the subscriptions of live channels stay
  offer_stays :
      (event : A) (sub : Subscription A) (channels : ℕ → Channel A)
      → (offer event sub channels).0 ≡ (channels sub.tx).alive
  unfolding offer
  offer_stays event sub channels = elim (Bool-cases (channels sub.tx).alive) [
    | inl live ↦ elim (Bool-cases (accepts sub.filter event)) [
      | inl wanted ↦ rw (live, wanted) refl
      | inr unwanted ↦ rw (live, unwanted) refl
    ]
    | inr dead ↦ rw dead refl
  ]

  offer_same :
      (event : A) (sub : Subscription A) (channels : ℕ → Channel A)
      → (channels sub.tx).alive ≡ true
      → (offer event sub channels).1 sub.tx ≡ deliver (sub.filter ∷ []) event (channels sub.tx)
  unfolding offer
  offer_same event sub channels live = elim (Bool-cases (accepts sub.filter event)) [
    | inl wanted ↦ simp (live, wanted) (set_same sub.tx _ channels)
    | inr unwanted ↦ simp (live, unwanted) refl
  ]

  set-alive :
      (i j : ℕ) (c : Channel A) (channels : ℕ → Channel A)
      → c.alive ≡ (channels i).alive
      → (set i c channels j).alive ≡ (channels j).alive
  unfolding set
  set-alive i j c channels h = elim (Bool-cases (i == j)) [
    | inl same ↦ rw same (h ∙ ap (λ k. (channels k).alive) (eqb→eq i j same))
    | inr other ↦ rw other refl
  ]

  -- whether a channel is alive does not change
  offer-alive :
      (event : A) (sub : Subscription A) (channels : ℕ → Channel A) (i : ℕ)
      → ((offer event sub channels).1 i).alive ≡ (channels i).alive
  unfolding offer
  offer-alive event sub channels i = elim (Bool-cases (channels sub.tx).alive) [
    | inl live ↦ elim (Bool-cases (accepts sub.filter event)) [
      | inl wanted ↦ simp (live, wanted) (set-alive sub.tx i _ channels (sym live))
      | inr unwanted ↦ simp (live, unwanted) refl
    ]
    | inr dead ↦ simp (dead) refl
  ]

  keep-agree :
      (p q : Subscription A → Bool)
      → ((s : Subscription A) → p s ≡ q s)
      → (subs : List (Subscription A)) → keep p subs ≡ keep q subs
  keep-agree p q h [] = refl
  keep-agree p q h (s ∷ subs) = rw (h s, keep-agree p q h subs) refl

  offer_at :
      (event : A) (sub : Subscription A) (channels : ℕ → Channel A) (i : ℕ)
      → sub.tx ≡ i
      → (channels i).alive ≡ true
      → (offer event sub channels).1 i ≡ deliver (sub.filter ∷ []) event (channels i)
  offer_at event sub channels i e live =
      subst (λ j. (offer event sub channels).1 j ≡ deliver (sub.filter ∷ []) event (channels j)) e
        (offer_same event sub channels (subst (λ j. (channels j).alive ≡ true) (sym e) live))

  -- `send` keeps the subscriptions whose subscribers are alive, whatever their filters, and drops the
  -- others.
  retain-keep :
      (event : A) (subs : List (Subscription A)) (channels : ℕ → Channel A)
      → (retain event subs channels).0 ≡ keep (λ s. (channels s.tx).alive) subs
  unfolding retain
  retain-keep event [] channels = refl
  retain-keep event (sub ∷ subs) channels = rw (offer_stays event sub channels) (
      rw
        (retain-keep event subs (offer event sub channels).1
          ∙ keep-agree (λ s. ((offer event sub channels).1 s.tx).alive) (λ s. (channels s.tx).alive)
              (λ s. offer-alive event sub channels s.tx) subs)
        refl)

  pub retain-deliver :
      (event : A) (i : ℕ) (subs : List (Subscription A)) (channels : ℕ → Channel A)
      → (channels i).alive ≡ true
      → (retain event subs channels).1 i ≡ deliver (filters_at i subs) event (channels i)
  unfolding retain
  retain-deliver event i [] channels live = refl
  retain-deliver event i (sub ∷ subs) channels live = elim (Bool-cases (sub.tx == i)) [
    | inl same ↦ rw same (
        retain-deliver event i subs (offer event sub channels).1
          (offer-alive event sub channels i ∙ live)
        ∙ ap (deliver (filters_at i subs) event)
            (offer_at event sub channels i (eqb→eq sub.tx i same) live))
    | inr other ↦ rw other (
        retain-deliver event i subs (offer event sub channels).1
          (offer-alive event sub channels i ∙ live)
        ∙ ap (deliver (filters_at i subs) event) (offer-other event sub channels i other))
  ]

  -- Exactly the subscriptions whose subscribers are alive stay after `send`, whatever their filters say of
  -- the event.
  pub subscribers-send :
      (b : Broadcaster A) (event : A)
      → (send b event).subscribers ≡ keep (λ s. (b.channels s.tx).alive) b.subscribers
  unfolding send
  subscribers-send b event = retain-keep event b.subscribers b.channels
