-- ===== src/Broadcaster/Expected.antt =====
-- What a channel of the broadcaster is to receive in a run of its threads, and what a sent event does
-- to the channel.
use aspect_cli.Base.{
  ℕ, ◌≡◌, refl, sym, ap, ◌∙◌, inl, inr, Bool, true, false, Option, none, some, List, [], ◌∷◌, ◌++◌,
  append-nil, append_assoc, ◌==◌, if◌then◌else◌, Bool-cases, eqb→eq, keep,
}
use aspect_cli.Broadcaster.{Subscription, Channel, Broadcaster, accepts, try_recv}
use aspect_cli.Broadcaster.Laws.{
  Step, subscribing, sending, dropping, receiving, closing, step, filters_at, deliver,
}

module _ {ℓ} {A : Type ℓ} where
  abbrev pub accepted : List (Option (A → Bool)) → A → List A
  accepted [] event = []
  accepted (f ∷ fs) event = (if accepts f event then event ∷ [] else []) ++ accepted fs event

  -- what a step adds to the queue of a channel with these filters, and the filters after it
  abbrev pub added : List (Option (A → Bool)) → Step A → List A
  added fs (subscribing f) = []
  added fs (sending event) = accepted fs event
  added fs (dropping j) = []
  added fs (receiving j) = []
  added fs closing = []

  abbrev pub filters_after : List (Option (A → Bool)) → Step A → List (Option (A → Bool))
  filters_after fs (subscribing f) = fs
  filters_after fs (sending event) = fs
  filters_after fs (dropping j) = fs
  filters_after fs (receiving j) = fs
  filters_after fs closing = []

  abbrev pub expected : List (Option (A → Bool)) → List (Step A) → List A
  expected fs [] = []
  expected fs (s ∷ steps) = added fs s ++ expected (filters_after fs s) steps

  abbrev pub to_list : Option A → List A
  to_list none = []
  to_list (some x) = x ∷ []

  -- what the receiver of a channel gets in a step, and in a run
  abbrev pub received : ℕ → Step A → Broadcaster A → List A
  received i (subscribing f) b = []
  received i (sending event) b = []
  received i (dropping j) b = []
  received i (receiving j) b = if j == i then to_list (try_recv b j).1 else []
  received i closing b = []

  abbrev pub all_received : ℕ → List (Step A) → Broadcaster A → List A
  all_received i [] b = []
  all_received i (s ∷ steps) b = received i s b ++ all_received i steps (step s b)

  abbrev pub drops : ℕ → Step A → Bool
  drops i (subscribing f) = false
  drops i (sending event) = false
  drops i (dropping j) = j == i
  drops i (receiving j) = false
  drops i closing = false

  abbrev put : Bool → A → Channel A → Channel A
  put wanted event c = if wanted then record c { queue = c.queue ++ event ∷ [] } else c

  put-queue :
      (b : Bool) (event : A) (c : Channel A)
      → (put b event c).queue ≡ c.queue ++ (if b then event ∷ [] else [])
  put-queue true event c = refl
  put-queue false event c = sym (append-nil c.queue)

  put-alive : (b : Bool) (event : A) (c : Channel A) → (put b event c).alive ≡ c.alive
  put-alive true event c = refl
  put-alive false event c = refl

  pub deliver-queue :
      (fs : List (Option (A → Bool))) (event : A) (c : Channel A)
      → (deliver fs event c).queue ≡ c.queue ++ accepted fs event
  deliver-queue [] event c = sym (append-nil c.queue)
  deliver-queue (f ∷ fs) event c =
      deliver-queue fs event (put (accepts f event) event c)
      ∙ (ap (λ q. q ++ accepted fs event) (put-queue (accepts f event) event c)
          ∙ append_assoc c.queue (if accepts f event then event ∷ [] else []) (accepted fs event))

  pub deliver-alive :
      (fs : List (Option (A → Bool))) (event : A) (c : Channel A)
      → (deliver fs event c).alive ≡ c.alive
  deliver-alive [] event c = refl
  deliver-alive (f ∷ fs) event c =
      deliver-alive fs event (put (accepts f event) event c) ∙ put-alive (accepts f event) event c

  pub filters_at-live :
      (i : ℕ) (channels : ℕ → Channel A) (subs : List (Subscription A))
      → (channels i).alive ≡ true
      → filters_at i (keep (λ s. (channels s.tx).alive) subs) ≡ filters_at i subs
  filters_at-live i channels [] live = refl
  filters_at-live i channels (s ∷ subs) live = elim (Bool-cases (s.tx == i)) [
    | inl same ↦
        let here : (channels s.tx).alive ≡ true =
          ap (λ j. (channels j).alive) (eqb→eq s.tx i same) ∙ live in
        rw (here, same) (ap (◌∷◌ s.filter) (filters_at-live i channels subs live))
    | inr other ↦ elim (Bool-cases (channels s.tx).alive) [
      | inl here ↦ rw (here, other) (filters_at-live i channels subs live)
      | inr dead ↦ rw (dead, other) (filters_at-live i channels subs live)
    ]
  ]
