-- ===== src/Sink/Stream/Writes.antt =====
-- What a stream writes to the backend.
use aspect_cli.Base.{
  In, In-append, In-last, ℕ, ◌≤◌, ◌<◌, ◌≡◌, refl, sym, ◌∙◌, subst, true, false, none, some, List,
  [], ◌∷◌, ◌++◌, append-nil, append_assoc, arith, leb, ◌==◌, if_either, All, All-append_inv, Bool,
  ap, Option,
}
use aspect_cli.Sink.RetryBuffer.{Item}
use aspect_cli.Sink.RetryBuffer.Laws.{RisesBelow, longest_suffix, total}
use aspect_cli.Sink.Stream.{Sending, accepted, stream_closed, stalled, send_bounded, replay, go_on}

module _ {κ} {R : Type κ} where
  pub All-In_self : (xs ys : List (Item R)) → All (λ x. In x (ys ++ xs)) xs
  All-In_self [] ys = tt
  All-In_self (x ∷ xs) ys =
      let e : (ys ++ x ∷ []) ++ xs ≡ ys ++ x ∷ xs = append_assoc ys (x ∷ []) xs in
      (
        subst (In x) e (In-append x xs (In-last x ys)),
        subst (λ l. All (λ y. In y l) xs) e (All-In_self xs (ys ++ x ∷ [])),
      )

  pub All-longest_suffix {ι} :
      (P : Item R → Type ι) (cap : ℕ) (items : List (Item R))
      → All P items
      → All P (longest_suffix cap items)
  All-longest_suffix P cap [] h = tt
  All-longest_suffix P cap (x ∷ items) (p, h) =
      if_either (All P) (leb (total (x ∷ items)) cap) (x ∷ items) (longest_suffix cap items)
        (λ fits. (p, h)) (λ large. All-longest_suffix P cap items h)

  pub RisesBelow-weaken :
      (n m : ℕ) (items : List (Item R)) → n ≤ m → RisesBelow n items → RisesBelow m items
  RisesBelow-weaken n m [] le h = tt
  RisesBelow-weaken n m (x ∷ items) le (lt, a, h) =
      (omega (arith, lt), a, RisesBelow-weaken n m items le h)

  pub RisesBelow-front : (n : ℕ) (xs ys : List (Item R)) → RisesBelow n (xs ++ ys) → RisesBelow n xs
  RisesBelow-front n [] ys h = tt
  RisesBelow-front n (x ∷ xs) ys (lt, a, h) =
      (lt, (All-append_inv (λ (y : Item R). x.seq < y.seq) xs ys a).0, RisesBelow-front n xs ys h)

  go_on_eq :
      (f g : List (Item R) → List (Item R) × Bool) (channel : List (Item R))
      (m : Option (List (Item R)))
      → ((l : List (Item R)) → f l ≡ g l)
      → go_on f channel m ≡ go_on g channel m
  go_on_eq f g channel none h = refl
  go_on_eq f g channel (some l) h = h l

  -- no later entry is the one that was sent ahead
  pub replay_later :
      (s : ℕ) (replies : ℕ → Sending) (channel items : List (Item R))
      → All (λ (y : Item R). s < y.seq) items
      → replay (some s) replies channel items ≡ replay none replies channel items
  unfolding replay
  replay_later s replies channel [] h = refl
  replay_later s replies channel (y ∷ items) (lt, h) =
      let other : (y.seq == s) ≡ false = ground (arith, lt) in
      rw other (
        go_on_eq _ _ channel (send_bounded (replies y.seq) channel y)
          (λ l. replay_later s replies l items h))

  went_on :
      (rest : List (Item R) → List (Item R) × Bool) (r : Sending) (channel : List (Item R))
      (y : Item R)
      → (go_on rest channel (send_bounded r channel y)).1 ≡ true
      → go_on rest channel (send_bounded r channel y) ≡ rest (channel ++ y ∷ [])
  unfolding send_bounded
  went_on rest accepted channel y h = refl
  went_on rest stream_closed channel y h = cc
  went_on rest stalled channel y h = cc

  -- the entries go behind what is in the channel
  pub replay_all :
      (replies : ℕ → Sending) (channel items : List (Item R))
      → (replay none replies channel items).1 ≡ true
      → (replay none replies channel items).0 ≡ channel ++ items
  unfolding replay
  replay_all replies channel [] h = sym (append-nil channel)
  replay_all replies channel (y ∷ items) h =
      let e = went_on (λ l. replay none replies l items) (replies y.seq) channel y h in
      ap (λ r. r.0) e
      ∙ (replay_all replies (channel ++ y ∷ []) items (sym (ap (λ r. r.1) e) ∙ h)
          ∙ append_assoc channel (y ∷ []) items)

  go_on-RisesBelow :
      (n : ℕ) (rest : List (Item R) → List (Item R) × Bool) (r : Sending) (channel : List (Item R))
      (y : Item R)
      → RisesBelow n channel
      → RisesBelow n (rest (channel ++ y ∷ [])).0
      → RisesBelow n (go_on rest channel (send_bounded r channel y)).0
  unfolding send_bounded
  go_on-RisesBelow n rest accepted channel y h k = k
  go_on-RisesBelow n rest stream_closed channel y h k = h
  go_on-RisesBelow n rest stalled channel y h k = h

  pub replay-RisesBelow :
      (n : ℕ) (replies : ℕ → Sending) (channel items : List (Item R))
      → RisesBelow n (channel ++ items)
      → RisesBelow n (replay none replies channel items).0
  unfolding replay
  replay-RisesBelow n replies channel [] h = subst (RisesBelow n) (append-nil channel) h
  replay-RisesBelow n replies channel (y ∷ items) h =
      go_on-RisesBelow n (λ l. replay none replies l items) (replies y.seq) channel y
        (RisesBelow-front n channel (y ∷ items) h)
        (replay-RisesBelow n replies (channel ++ y ∷ []) items
          (subst (RisesBelow n) (sym (append_assoc channel (y ∷ []) items)) h))
