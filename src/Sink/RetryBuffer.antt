-- ===== src/Sink/RetryBuffer.antt =====
-- crates/axl-runtime/src/engine/bazel/sink/retry.rs: the byte-bounded buffer of unacked events. Sizes
-- are numbers without a bound; the sums stay below the budget and one event, so `usize` holds them.
pub mod Laws
pub mod Numbers
use aspect_cli.Base.{ℕ, ◌+◌, ◌-◌, List, [], ◌∷◌, ◌++◌, ltb, if◌then◌else◌}
use aspect_cli.Base.Int.{ℤ, le_signed}

-- one entry of `items`: the sequence number, the encoded size and the request
pub record Item {ℓ} (A : Type ℓ) : Type ℓ where
  pub seq : ℕ
  pub size : ℕ
  pub request : A

-- `RetryBuffer`, the oldest item first
pub record RetryBuffer {ℓ} (A : Type ℓ) : Type ℓ where
  pub cap_bytes : ℕ
  pub bytes : ℕ
  pub evicted : ℕ
  pub items : List (Item A)

module _ {ℓ} {A : Type ℓ} where
  unfoldable pub new : ℕ → RetryBuffer A
  new cap = record { cap_bytes = cap; bytes = 0; evicted = 0; items = [] }

  -- `evict_oldest`, on the items of the buffer
  abbrev pub evict_oldest : RetryBuffer A → List (Item A) → RetryBuffer A
  evict_oldest b [] = record b { items = [] }
  evict_oldest b (oldest ∷ rest) = record b {
    bytes = b.bytes - oldest.size;
    evicted = b.evicted + 1;
    items = rest;
  }

  -- the `while` loop of `push`
  unfoldable pub make_room : ℕ → RetryBuffer A → List (Item A) → RetryBuffer A
  make_room size b [] = record b { items = [] }
  make_room size b (oldest ∷ rest) =
      if ltb b.cap_bytes (b.bytes + size)
      then make_room size (evict_oldest b (oldest ∷ rest)) rest
      else record b { items = oldest ∷ rest }

  -- the end of `push`, after the loop
  unfoldable pub retain : Item A → RetryBuffer A → RetryBuffer A
  retain item b =
      if ltb b.cap_bytes item.size
      then record b { evicted = b.evicted + 1 }
      else record b { bytes = b.bytes + item.size; items = b.items ++ item ∷ [] }

  unfoldable pub push_item : RetryBuffer A → Item A → RetryBuffer A
  unfolding make_room retain
  push_item b item = retain item (make_room item.size b b.items)

  -- `push`; `encoded_len` is the size of a request on the wire
  unfoldable pub push : (A → ℕ) → RetryBuffer A → ℕ → A → RetryBuffer A
  unfolding push_item
  push encoded_len b seq request =
      push_item b (record { seq = seq; size = encoded_len request; request = request })

  -- the loop of `prune_until`
  unfoldable pub prune_items : ℤ → RetryBuffer A → List (Item A) → RetryBuffer A
  prune_items ack b [] = record b { items = [] }
  prune_items ack b (oldest ∷ rest) =
      if le_signed oldest.seq ack
      then prune_items ack (record b { bytes = b.bytes - oldest.size; items = rest }) rest
      else record b { items = oldest ∷ rest }

  unfoldable pub prune_until : RetryBuffer A → ℤ → RetryBuffer A
  unfolding prune_items
  prune_until b ack = prune_items ack b b.items

  -- `mem::take` of the counter
  unfoldable pub take_evicted : RetryBuffer A → RetryBuffer A × ℕ
  take_evicted b = (record b { evicted = 0 }, b.evicted)
