-- ===== src/Sink/Stream/Timeouts.antt =====
-- Streams that hang.
use aspect_cli.Base.{
  ℕ, ◌+◌, ◌≤◌, ◌≡◌, refl, sym, ap, ap₂, ◌∙◌, subst, ◌⊎◌, inl, inr, true, false, not, ◌&&◌, Option,
  List, [], ◌∷◌, ◌++◌, if◌then◌else◌, Bool-cases, if_either, All,
}
use aspect_cli.Sink.RetryBuffer.{Item}
use aspect_cli.Sink.Reconnect.{transient}
use aspect_cli.Sink.Stream.{
  RetryConfig, Codec, StreamState, Connection, Opened, opened, open_timed_out, open_failed, Arm,
  half_close_elapsed, ack_elapsed, Script, Drive, running, returned, is_due, is_some, all_acked,
}
use aspect_cli.Sink.Stream.Select.{
  Preload, preloaded, refused, preload_first_event, on_half_close, enabled, take_arm, select,
  select_loop, start_stream, open_stream, after_preload, drive_stream,
}
use aspect_cli.Sink.Stream.Deadlines.{
  Until, Watched, IsWatched, has_returned, due, select_loop-Watched, start_stream-Watched,
}

module _ {ℓ κ} {E : Type ℓ} {R : Type κ} (codec : Codec E R) (retry : RetryConfig) where
  open_stream-Watched :
      (t : ℕ) (opening : Opened) (script : Script E) (st : StreamState R) (channel : List (Item R))
      (first : Option ℕ)
      → script.opened_at ≤ t
      → IsWatched retry t (open_stream codec retry opening script st channel first)
  unfolding open_stream
  open_stream-Watched t opened script st channel first le =
      start_stream-Watched codec retry t script st channel first le
  open_stream-Watched t open_timed_out script st channel first le = tt
  open_stream-Watched t (open_failed retryable) script st channel first le = tt

  after_preload-Watched :
      (t : ℕ) (script : Script E) (p : Preload R)
      → script.opened_at ≤ t
      → All (Until t) script.arms
      → IsWatched retry t (after_preload codec retry script p)
  unfolding after_preload
  after_preload-Watched t script (refused st) le les = tt
  after_preload-Watched t script (preloaded st channel first) le les =
      select_loop-Watched codec retry t script.arms _ les
        (open_stream-Watched t script.opening script st channel first le)

  -- the script, with more arms taken at its end
  abbrev pub extended : Script E → List (Arm E) → Script E
  extended script arms = record script { arms = script.arms ++ arms }

  select_loop-append :
      (xs ys : List (Arm E)) (d : Drive R)
      → select_loop codec retry (xs ++ ys) d
        ≡ select_loop codec retry ys (select_loop codec retry xs d)
  unfolding select_loop
  select_loop-append [] ys d = refl
  select_loop-append (x ∷ xs) [] (returned st c outcome) = refl
  select_loop-append (x ∷ xs) (y ∷ ys) (returned st c outcome) = refl
  select_loop-append (x ∷ xs) ys (running st c) =
      select_loop-append xs ys (select codec retry x st c)

  open_stream-extended :
      (arms : List (Arm E)) (opening : Opened) (script : Script E) (st : StreamState R)
      (channel : List (Item R)) (first : Option ℕ)
      → open_stream codec retry opening (extended script arms) st channel first
        ≡ open_stream codec retry opening script st channel first
  unfolding open_stream start_stream
  open_stream-extended arms opened script st channel first = refl
  open_stream-extended arms open_timed_out script st channel first = refl
  open_stream-extended arms (open_failed retryable) script st channel first = refl

  after_preload-extended :
      (arms : List (Arm E)) (script : Script E) (p : Preload R)
      → after_preload codec retry (extended script arms) p
        ≡ select_loop codec retry arms (after_preload codec retry script p)
  unfolding after_preload select_loop
  after_preload-extended [] script (refused st) = refl
  after_preload-extended (arm ∷ arms) script (refused st) = refl
  after_preload-extended arms script (preloaded st channel first) =
      ap (select_loop codec retry (script.arms ++ arms))
        (open_stream-extended arms script.opening script st channel first)
      ∙ select_loop-append script.arms arms
          (open_stream codec retry script.opening script st channel first)

  abbrev pub timers : ℕ → List (Arm E)
  timers now = half_close_elapsed now ∷ ack_elapsed now ∷ []

  half_close-returns :
      (st : StreamState R) (c : Connection R) → has_returned (on_half_close codec retry st c) ≡ true
  unfolding on_half_close
  half_close-returns st c =
      if_either (λ (d : Drive R). has_returned d ≡ true) (all_acked st) _ _ (λ empty. refl)
        (λ some_left. refl)

  returned_stays :
      (arms : List (Arm E)) (d : Drive R)
      → has_returned d ≡ true
      → has_returned (select_loop codec retry arms d) ≡ true
  unfolding select_loop
  returned_stays [] d h = h
  returned_stays (arm ∷ arms) (running st c) h = cc
  returned_stays (arm ∷ arms) (returned st c outcome) h = h

  half_close_fires :
      (now : ℕ) (st : StreamState R) (c : Connection R)
      → is_due c.half_close_deadline now ≡ true
      → has_returned (select codec retry (half_close_elapsed now) st c) ≡ true
  unfolding select enabled take_arm
  half_close_fires now st c h =
      subst (λ b. has_returned (if b then on_half_close codec retry st c else running st c) ≡ true)
        (sym h) (half_close-returns st c)

  half_close_waits :
      (now : ℕ) (st : StreamState R) (c : Connection R)
      → is_due c.half_close_deadline now ≡ false
      → select codec retry (half_close_elapsed now) st c ≡ running st c
  unfolding select enabled
  half_close_waits now st c h =
      ap (λ b. if b then take_arm codec retry (half_close_elapsed now) st c else running st c) h

  ack_fires :
      (now : ℕ) (st : StreamState R) (c : Connection R)
      → is_due c.ack_deadline now ≡ true
      → is_some c.half_close_deadline ≡ false
      → has_returned (select codec retry (ack_elapsed now) st c) ≡ true
  unfolding select enabled take_arm
  ack_fires now st c h k =
      subst (λ b. has_returned (if b then returned st c transient else running st c) ≡ true)
        (sym (ap₂ (λ a b. a && not b) h k)) refl

  timers_fire :
      (t now : ℕ) (st : StreamState R) (c : Connection R)
      → t + retry.ack_progress_timeout ≤ now
      → t + retry.half_close_timeout ≤ now
      → Watched retry t st c
      → (all_acked st ≡ false) ⊎ (c.sender_open ≡ false)
      → has_returned (select_loop codec retry (timers now) (running st c)) ≡ true
  unfolding select_loop
  timers_fire t now st c acks halves h w = elim (Bool-cases (is_due c.half_close_deadline now)) [
    | inl closing ↦
        returned_stays (ack_elapsed now ∷ []) (select codec retry (half_close_elapsed now) st c)
          (half_close_fires now st c closing)
    | inr not_closing ↦ elim (Bool-cases c.sender_open) [
      | inr shut ↦
          let is_it =
            due c.half_close_deadline (t + retry.half_close_timeout) now (h.closing shut)
              h.half_bounded halves in
          cc
      | inl still ↦
          let left : all_acked st ≡ false = elim w [ inl l ↦ l | inr shut ↦ cc ] in
          let is_it =
            due c.ack_deadline (t + retry.ack_progress_timeout) now (h.waiting still left)
              h.ack_bounded acks in
          ap (λ d. has_returned (select_loop codec retry (ack_elapsed now ∷ []) d))
            (half_close_waits now st c not_closing)
          ∙ ack_fires now st c is_it (h.half_open still)
    ]
  ]

  -- If a stream still runs, all that happened on it happened by a time, and events are unacked or its
  -- request side is closed, then it returns when its timers are looked at once both timeouts, for acks
  -- and for the half-closed stream, have passed since: a backend that stops answering cannot hang it.
  pub drive_stream-times_out :
      (t now : ℕ) (script : Script E) (st st' : StreamState R) (c : Connection R)
      → script.opened_at ≤ t
      → All (Until t) script.arms
      → t + retry.ack_progress_timeout ≤ now
      → t + retry.half_close_timeout ≤ now
      → drive_stream codec retry script st ≡ running st' c
      → (all_acked st' ≡ false) ⊎ (c.sender_open ≡ false)
      → has_returned (drive_stream codec retry (extended script (timers now)) st) ≡ true
  unfolding drive_stream
  drive_stream-times_out t now script st st' c le les acks halves e w =
      let p = preload_first_event codec retry script.first_accepted script.first_event st in
      let watched : Watched retry t st' c =
        subst (IsWatched retry t) e (after_preload-Watched t script p le les) in
      ap has_returned
        (after_preload-extended (timers now) script p ∙ ap (select_loop codec retry (timers now)) e)
      ∙ timers_fire t now st' c acks halves watched w
