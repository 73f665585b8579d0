-- ===== src/Broadcaster.antt =====
-- crates/axl-runtime/src/engine/bazel/stream/broadcaster.rs: fan-out of events to subscribers. The mutex
-- makes each operation one step. A `Subscriber` holds the receiver and the liveness token of its
-- channel, so both die together when it is dropped; channels are told apart by a number.
pub mod Laws
pub mod Expected
pub mod Moves
pub mod Delivery
pub mod Iterator
mod Tests
use aspect_cli.Base.{
  ℕ, ◌+◌, Bool, true, false, not, Option, none, some, List, [], ◌∷◌, ◌++◌, ◌==◌, if◌then◌else◌,
}

-- `Subscription`, the broadcaster's half
pub record Subscription {ℓ} (A : Type ℓ) : Type ℓ where
  pub filter : Option (A → Bool)
  pub tx : ℕ

-- what a sender and its receiver share: the queue, and whether the receiver is alive
pub record Channel {ℓ} (A : Type ℓ) : Type ℓ where
  pub alive : Bool
  pub queue : List A

-- `BroadcasterInner`, and the channels that were made
pub record Broadcaster {ℓ} (A : Type ℓ) : Type ℓ where
  pub subscribers : List (Subscription A)
  pub closed : Bool
  pub channels : ℕ → Channel A
  pub next_channel : ℕ

module _ {ℓ} {A : Type ℓ} where
  unfoldable pub new : Broadcaster A
  new = record {
    subscribers = [];
    closed = false;
    channels = λ i. record { alive = false; queue = [] };
    next_channel = 0;
  }

  -- one entry of a table
  unfoldable pub set : ℕ → Channel A → (ℕ → Channel A) → ℕ → Channel A
  set i c channels j = if i == j then c else channels j

  abbrev pub accepts : Option (A → Bool) → A → Bool
  accepts none event = true
  accepts (some f) event = f event

  -- the new subscriber, and the number of its channel
  unfoldable pub subscribe_filtered : Broadcaster A → Option (A → Bool) → Broadcaster A × ℕ
  unfolding set
  subscribe_filtered b filter =
      let i = b.next_channel in
      let opened = record b {
        channels = set i (record { alive = true; queue = [] }) b.channels;
        next_channel = i + 1;
      } in
      if b.closed then (opened, i) else (
        record opened { subscribers = b.subscribers ++ record { filter = filter; tx = i } ∷ [] },
        i,
      )

  unfoldable pub subscribe : Broadcaster A → Broadcaster A × ℕ
  unfolding subscribe_filtered
  subscribe b = subscribe_filtered b none

  -- the closure that `send` hands to `retain`: whether the subscription stays, and the channels after it
  unfoldable pub offer : A → Subscription A → (ℕ → Channel A) → Bool × (ℕ → Channel A)
  unfolding set
  offer event sub channels =
      let c = channels sub.tx in
      if not c.alive
      then (false, channels)
      else if not (accepts sub.filter event)
      then (true, channels)
      else (c.alive, set sub.tx (record c { queue = c.queue ++ event ∷ [] }) channels)

  -- `Vec::retain`
  unfoldable pub retain :
      A → List (Subscription A) → (ℕ → Channel A) → List (Subscription A) × (ℕ → Channel A)
  unfolding offer
  retain event [] channels = ([], channels)
  retain event (sub ∷ subs) channels =
      let (stays, after) = offer event sub channels in
      let (others, last) = retain event subs after in (if stays then sub ∷ others else others, last)

  unfoldable pub send : Broadcaster A → A → Broadcaster A
  unfolding retain
  send b event =
      let (subs, channels) = retain event b.subscribers b.channels in
      record b { subscribers = subs; channels = channels }

  unfoldable pub close : Broadcaster A → Broadcaster A
  close b = record b { closed = true; subscribers = [] }

  -- the drop of a `Subscriber`
  unfoldable pub drop_subscriber : Broadcaster A → ℕ → Broadcaster A
  unfolding set
  drop_subscriber b i = record b {
    channels = set i (record (b.channels i) { alive = false }) b.channels;
  }

  -- `try_recv` of a subscriber: the oldest event of its queue; `none` is an empty or a disconnected one
  abbrev pub taken : List A → Option A × List A
  taken [] = (none, [])
  taken (x ∷ xs) = (some x, xs)

  unfoldable pub try_recv : Broadcaster A → ℕ → Broadcaster A × Option A
  unfolding set
  try_recv b i =
      let (event, rest) = taken (b.channels i).queue in
      (record b { channels = set i (record (b.channels i) { queue = rest }) b.channels }, event)
