-- ===== src/Sink/RetryBuffer/Numbers.antt =====
-- The sequence numbers in the buffer: their order, and how many lie above the last ack.
use aspect_cli.Base.{
  ℕ, ◌+◌, ◌-◌, ◌≤◌, ◌<◌, ◌≡◌, refl, inl, inr, Bool, not, List, [], ◌∷◌, ◌++◌, arith, ltb, leb,
  Bool-cases, length, keep, length-append, keep-append, All, All-append, All-keep,
}
use aspect_cli.Base.Int.{ℤ, pos, negsuc, le_signed, max_signed}
use aspect_cli.Sink.RetryBuffer.{
  Item, RetryBuffer, evict_oldest, make_room, retain, push_item, prune_until,
}
use aspect_cli.Sink.RetryBuffer.Laws.{
  RisesBelow, IsValid, total, longest_suffix, push_item-longest_suffix, push_item-IsValid,
  items-prune_until,
}

module _ {ℓ} {A : Type ℓ} where
  -- the items above an ack
  abbrev pub above : ℕ → List (Item A) → List (Item A)
  above m items = keep (λ (x : Item A). ltb m x.seq) items

  All-append_above :
      (s : ℕ) (items : List (Item A)) (y : Item A)
      → All (λ (x : Item A). s < x.seq) items
      → s < y.seq
      → All (λ (x : Item A). s < x.seq) (items ++ y ∷ [])
  All-append_above s items y h lt = All-append (λ (x : Item A). s < x.seq) items (y ∷ []) h (lt, tt)

  pub RisesBelow-append :
      (n : ℕ) (items : List (Item A)) (y : Item A)
      → y.seq ≡ n
      → RisesBelow n items
      → RisesBelow (n + 1) (items ++ y ∷ [])
  RisesBelow-append n [] y e h = (omega (arith, e), tt, tt)
  RisesBelow-append n (x ∷ items) y e (lt, a, h) = (
    omega (arith, lt),
    All-append_above x.seq items y a (omega (arith, e, lt)),
    RisesBelow-append n items y e h,
  )

  pub RisesBelow-longest_suffix :
      (n cap : ℕ) (items : List (Item A))
      → RisesBelow n items
      → RisesBelow n (longest_suffix cap items)
  RisesBelow-longest_suffix n cap [] h = tt
  RisesBelow-longest_suffix n cap (x ∷ items) (lt, a, h) =
      elim (Bool-cases (leb (total (x ∷ items)) cap)) [
        | inl fits ↦ rw fits (lt, a, h)
        | inr large ↦ rw large (RisesBelow-longest_suffix n cap items h)
      ]

  pub RisesBelow-keep :
      (n : ℕ) (p : Item A → Bool) (items : List (Item A))
      → RisesBelow n items
      → RisesBelow n (keep p items)
  RisesBelow-keep n p [] h = tt
  RisesBelow-keep n p (x ∷ items) (lt, a, h) = elim (Bool-cases (p x)) [
    | inl in_it ↦
        rw in_it
          (lt, All-keep (λ (y : Item A). x.seq < y.seq) p items a, RisesBelow-keep n p items h)
    | inr out ↦ rw out (RisesBelow-keep n p items h)
  ]

  pub push_item-RisesBelow :
      (n : ℕ) (b : RetryBuffer A) (item : Item A)
      → IsValid b
      → item.seq ≡ n
      → RisesBelow n b.items
      → RisesBelow (n + 1) (push_item b item).items
  unfolding push_item
  push_item-RisesBelow n b item v e h = rw (push_item-longest_suffix b b.items item v.counted) (
      RisesBelow-longest_suffix (n + 1) b.cap_bytes (b.items ++ item ∷ [])
        (RisesBelow-append n b.items item e h))

  pub prune_until-RisesBelow :
      (ack : ℤ) (n : ℕ) (b : RetryBuffer A)
      → RisesBelow n b.items
      → RisesBelow n (prune_until b ack).items
  prune_until-RisesBelow ack n b h =
      rw (items-prune_until ack n b h) (RisesBelow-keep n _ b.items h)

  -- an item that leaves at a push is counted
  push_items-above :
      (m : ℕ) (b : RetryBuffer A) (items : List (Item A)) (item : Item A)
      → m < item.seq
      → b.evicted + length (above m items) + 1
        ≤ (retain item (make_room item.size b items)).evicted
          + length (above m (retain item (make_room item.size b items)).items)
  unfolding make_room retain
  push_items-above m b [] item lt = ground arith
  push_items-above m b (x ∷ items) item lt = ground (
    arith,
    keep-append (λ (x : Item A). ltb m x.seq) (x ∷ items) (item ∷ []),
    length-append (above m (x ∷ items)) (above m (item ∷ [])),
    push_items-above m (evict_oldest b (x ∷ items)) items item lt,
  )

  pub push_item-above :
      (m : ℕ) (b : RetryBuffer A) (item : Item A)
      → m < item.seq
      → b.evicted + length (above m b.items) + 1
        ≤ (push_item b item).evicted + length (above m (push_item b item).items)
  unfolding push_item
  push_item-above m b item lt = push_items-above m b b.items item lt

  push_items-evicted :
      (b : RetryBuffer A) (items : List (Item A)) (item : Item A)
      → b.evicted ≤ (retain item (make_room item.size b items)).evicted
  unfolding make_room retain
  push_items-evicted b [] item = ground arith
  push_items-evicted b (x ∷ items) item =
      ground (arith, push_items-evicted (evict_oldest b (x ∷ items)) items item)

  pub push_item-evicted :
      (b : RetryBuffer A) (item : Item A) → b.evicted ≤ (push_item b item).evicted
  unfolding push_item
  push_item-evicted b item = push_items-evicted b b.items item

  -- where the first number is above, all are
  above_later :
      (m s : ℕ) (items : List (Item A))
      → m ≤ s
      → All (λ (x : Item A). s < x.seq) items
      → above m items ≡ items
  above_later m s [] le a = refl
  above_later m s (x ∷ items) le (lt, a) = ground (arith, above_later m s items le a)

  -- distinct numbers between two acks are no more than the distance
  pub above-le :
      (m k n : ℕ) (items : List (Item A))
      → m ≤ k
      → RisesBelow n items
      → length (above m items) ≤ length (above k items) + (k - m)
  above-le m k n [] le h = omega arith
  above-le m k n (x ∷ items) le (lt, a, h) = elim (Bool-cases (ltb m x.seq)) [
    | inr low ↦ ground (arith, low, above-le m k n items le h)
    | inl high ↦ elim (Bool-cases (ltb k x.seq)) [
      | inl higher ↦
          ground (arith, high, higher, above_later m x.seq items, above_later k x.seq items)
      | inr between ↦ ground (
        arith,
        high,
        between,
        above_later m x.seq items,
        above_later x.seq x.seq items,
        above-le x.seq k n items,
      )
    ]
  ]

  pub above-keep :
      (ack : ℤ) (k : ℕ) (items : List (Item A))
      → above (max_signed k ack) (keep (λ (x : Item A). not (le_signed x.seq ack)) items)
        ≡ above (max_signed k ack) items
  above-keep ack k [] = refl
  above-keep (pos m) k (x ∷ items) = ground (arith, above-keep (pos m) k items)
  above-keep (negsuc m) k (x ∷ items) = ground (arith, above-keep (negsuc m) k items)

  pub push_item_keeps-IsValid :
      (b : RetryBuffer A) (item : Item A) → IsValid b → IsValid (push_item b item)
  unfolding push_item
  push_item_keeps-IsValid b item v = push_item-IsValid b b.items item v.counted v.within
