-- ===== src/Broadcaster/Iterator.antt =====
-- `BuildEventIter` of crates/axl-runtime/src/engine/bazel/build.rs: the handle by which an AXL program reads
-- the events of a build. What its subscription receives until the stream closes is a list of replies: an
-- event, or a silence of the length of a tick. Each call is a step, since one thread calls the handle.
use aspect_cli.Base.{
  ℕ, zero, suc, ◌<◌, ◌≡◌, refl, ap, Bool, true, false, Option, none, some, List, [], ◌∷◌, length,
  arith,
}

module _ (A : Type 0) where
  pub data Reply : Type 0 where
    event : A → Reply
    silence : Reply

  -- `IterState`, where `live` holds the receiver
  pub data IterState : Type 0 where
    pending : IterState
    live : List Reply → IterState
    done : IterState

  -- what a loop gets: an event, the `None` of a tick, or its end
  pub data Next : Type 0 where
    item : A → Next
    tick : Next
    stop : Next

module _ {A : Type 0} where
  -- `bind`, with what the subscription will receive; nothing for the error
  unfoldable pub bind : List (Reply A) → IterState A → Option (IterState A)
  bind replies pending = some (live replies)
  bind replies (live other) = none
  bind replies done = none

  -- `recv`
  unfoldable pub recv : List (Reply A) → Next A × IterState A
  recv [] = (stop, done)
  recv (event a ∷ replies) = (item a, live replies)
  recv (silence ∷ replies) = recv replies

  -- `recv_timeout`
  unfoldable pub recv_timeout : List (Reply A) → Next A × IterState A
  recv_timeout [] = (stop, done)
  recv_timeout (event a ∷ replies) = (item a, live replies)
  recv_timeout (silence ∷ replies) = (tick, live replies)

  -- the flag is that of `tick_ms`
  unfoldable pub iter_next : Bool → IterState A → Next A × IterState A
  unfolding recv recv_timeout
  iter_next ticks pending = (stop, pending)
  iter_next ticks done = (stop, done)
  iter_next true (live replies) = recv_timeout replies
  iter_next false (live replies) = recv replies

  unfoldable pub drain : IterState A → IterState A
  drain state = done

  -- a loop over a handle: what it gets before its end, and the state then
  abbrev pub in_loop :
      IterState A
      → Option (List (Next A) × IterState A)
      → Next A
      → Option (List (Next A) × IterState A)
  in_loop state rest stop = some ([], state)
  in_loop state none next = none
  in_loop state (some (nexts, last)) next = some (next ∷ nexts, last)

  unfoldable pub for_each : ℕ → Bool → IterState A → Option (List (Next A) × IterState A)
  unfolding iter_next
  for_each zero ticks state = none
  for_each (suc fuel) ticks state =
      let (next, after) = iter_next ticks state in in_loop after (for_each fuel ticks after) next

  -- each reply, without the silences unless they tick
  abbrev pub shown : Bool → List (Reply A) → List (Next A)
  shown ticks [] = []
  shown ticks (event a ∷ replies) = item a ∷ shown ticks replies
  shown true (silence ∷ replies) = tick ∷ shown true replies
  shown false (silence ∷ replies) = shown false replies

  for_each-live :
      (fuel : ℕ) (ticks : Bool) (replies : List (Reply A))
      → length replies < fuel
      → for_each fuel ticks (live replies) ≡ some (shown ticks replies, done)
  unfolding for_each
  for_each-live zero ticks replies h = absurd (omega (arith, h))
  for_each-live (suc fuel) true [] h = refl
  for_each-live (suc fuel) false [] h = refl
  for_each-live (suc fuel) true (event a ∷ replies) h =
      ap (λ rest. in_loop (live replies) rest (item a))
        (for_each-live fuel true replies (omega (arith, h)))
  for_each-live (suc fuel) false (event a ∷ replies) h =
      ap (λ rest. in_loop (live replies) rest (item a))
        (for_each-live fuel false replies (omega (arith, h)))
  for_each-live (suc fuel) true (silence ∷ replies) h =
      ap (λ rest. in_loop (live replies) rest tick)
        (for_each-live fuel true replies (omega (arith, h)))
  for_each-live (suc fuel) false (silence ∷ replies) h =
      for_each-live (suc fuel) false replies (omega (arith, h))

  abbrev pub looped : ℕ → Bool → Option (IterState A) → Option (List (Next A) × IterState A)
  looped fuel ticks none = none
  looped fuel ticks (some state) = for_each fuel ticks state

  -- A loop over a handle that was bound, with more fuel than there are replies, gets every event once and
  -- in order, and a tick for each silence if it ticks; it ends with the stream, and leaves the handle
  -- done.
  pub for_each-bind :
      (fuel : ℕ) (ticks : Bool) (replies : List (Reply A))
      → length replies < fuel
      → looped fuel ticks (bind replies pending) ≡ some (shown ticks replies, done)
  unfolding bind
  for_each-bind fuel ticks replies h = for_each-live fuel ticks replies h
