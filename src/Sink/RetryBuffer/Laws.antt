-- ===== src/Sink/RetryBuffer/Laws.antt =====
-- The budget of the buffer, what it retains, and the count of what it loses.
use aspect_cli.Base.{
  ℕ, ◌+◌, ◌-◌, ◌≤◌, ◌<◌, ◌≡◌, refl, sym, ap, ◌∙◌, inl, inr, false, not, List, [], ◌∷◌, ◌++◌, arith,
  leb, if◌then◌else◌, Bool-cases, length, keep, length-append, All,
}
use aspect_cli.Base.Int.{ℤ, pos, negsuc, le_signed}
use aspect_cli.Sink.RetryBuffer.{new, prune_items, prune_until, push}
use aspect_cli.Sink.RetryBuffer.{Item, RetryBuffer, evict_oldest, make_room, retain}

module _ {ℓ} {A : Type ℓ} where
  abbrev pub total : List (Item A) → ℕ
  total [] = 0
  total (x ∷ items) = x.size + total items

  pub total-append : (xs ys : List (Item A)) → total (xs ++ ys) ≡ total xs + total ys
  total-append [] ys = omega arith
  total-append (x ∷ xs) ys = omega (arith, total-append xs ys)

  -- the byte counter is the sum of the sizes, within the budget
  pub record IsValid (b : RetryBuffer A) : Type 0 where
    pub counted : b.bytes ≡ total b.items
    pub within : b.bytes ≤ b.cap_bytes

  -- the longest suffix that fits into the budget
  abbrev pub longest_suffix : ℕ → List (Item A) → List (Item A)
  longest_suffix cap [] = []
  longest_suffix cap (x ∷ items) =
      let rest = longest_suffix cap items in if leb (total (x ∷ items)) cap then x ∷ items else rest

  pub push_item-longest_suffix :
      (b : RetryBuffer A) (items : List (Item A)) (item : Item A)
      → b.bytes ≡ total items
      → (retain item (make_room item.size b items)).items
        ≡ longest_suffix b.cap_bytes (items ++ item ∷ [])
  unfolding make_room retain
  push_item-longest_suffix b [] item h = ground arith
  push_item-longest_suffix b (x ∷ items) item h = ground (
    arith,
    total-append items (item ∷ []),
    push_item-longest_suffix (evict_oldest b (x ∷ items)) items item,
  )

  pub push_item-IsValid :
      (b : RetryBuffer A) (items : List (Item A)) (item : Item A)
      → b.bytes ≡ total items
      → b.bytes ≤ b.cap_bytes
      → IsValid (retain item (make_room item.size b items))
  unfolding make_room retain
  push_item-IsValid b [] item h k = ground arith
  push_item-IsValid b (x ∷ items) item h k = ground (
    arith,
    total-append (x ∷ items) (item ∷ []),
    push_item-IsValid (evict_oldest b (x ∷ items)) items item,
  )

  pub new-IsValid : (cap : ℕ) → IsValid (new cap)
  unfolding new
  new-IsValid cap = omega arith

  -- A push keeps a buffer valid, whatever the size of the event: the byte counter is the sum of the sizes
  -- of the items, and within the budget.
  pub push-IsValid :
      (encoded_len : A → ℕ) (b : RetryBuffer A) (seq : ℕ) (request : A)
      → IsValid b
      → IsValid (push encoded_len b seq request)
  unfolding push
  push-IsValid encoded_len b seq request v = push_item-IsValid b b.items _ v.counted v.within

  push_item-count :
      (b : RetryBuffer A) (items : List (Item A)) (item : Item A)
      → b.bytes ≡ total items
      → let after = retain item (make_room item.size b items) in
        after.evicted + length after.items ≡ b.evicted + length items + 1
  unfolding make_room retain
  push_item-count b [] item h = ground arith
  push_item-count b (x ∷ items) item h = ground (
    arith,
    length-append (x ∷ items) (item ∷ []),
    push_item-count (evict_oldest b (x ∷ items)) items item,
  )

  -- A push into a valid buffer raises by one the number of the items and of the events counted as evicted
  -- together: an event is retained or counted, and so is each that it displaces.
  pub evicted-push :
      (encoded_len : A → ℕ) (b : RetryBuffer A) (seq : ℕ) (request : A)
      → IsValid b
      → let after = push encoded_len b seq request in
        after.evicted + length after.items ≡ b.evicted + length b.items + 1
  unfolding push
  evicted-push encoded_len b seq request v = push_item-count b b.items _ v.counted

  too_large :
      (cap : ℕ) (items : List (Item A)) (item : Item A)
      → cap < item.size
      → longest_suffix cap (items ++ item ∷ []) ≡ []
  too_large cap [] item h = ground (arith, h)
  too_large cap (x ∷ items) item h =
      ground (arith, h, total-append items (item ∷ []), too_large cap items item h)

  -- After a push into a valid buffer it holds the longest suffix of its items and the new one that fits
  -- into the budget. For an event above the budget that is none: the buffer is empty then, and all its
  -- items count as evicted, with the event.
  pub items-push :
      (encoded_len : A → ℕ) (b : RetryBuffer A) (seq : ℕ) (request : A)
      → IsValid b
      → let after = push encoded_len b seq request in
        (after.items
          ≡ longest_suffix b.cap_bytes
              (b.items ++ record { seq = seq; size = encoded_len request; request = request } ∷ []))
        × (b.cap_bytes < encoded_len request
            → (after.items ≡ []) × (after.evicted ≡ b.evicted + length b.items + 1))
  unfolding push
  items-push encoded_len b seq request v =
      let item : Item A = record { seq = seq; size = encoded_len request; request = request } in
      let kept = push_item-longest_suffix b b.items item v.counted in
      (
        kept,
        λ above.
            let empty = kept ∙ too_large b.cap_bytes b.items item above in
            let counted = push_item-count b b.items item v.counted in
            (empty, omega (arith, counted, ap length empty)),
      )

  -- the sequence numbers rise, and stay below `n`
  abbrev pub RisesBelow : ℕ → List (Item A) → Type 0
  RisesBelow n [] = Unit
  RisesBelow n (x ∷ items) =
      (x.seq < n) × All (λ (y : Item A). x.seq < y.seq) items × RisesBelow n items

  keep_above :
      (ack : ℤ) (s : ℕ) (items : List (Item A))
      → le_signed s ack ≡ false
      → All (λ (y : Item A). s < y.seq) items
      → keep (λ (x : Item A). not (le_signed x.seq ack)) items ≡ items
  keep_above ack s [] h a = refl
  keep_above (pos m) s (x ∷ items) h (lt, a) = ground (arith, keep_above (pos m) s items h a)
  keep_above (negsuc m) s (x ∷ items) h (lt, a) = ap (◌∷◌ x) (keep_above (negsuc m) s items h a)

  pub prune_items-keep :
      (ack : ℤ) (n : ℕ) (b : RetryBuffer A) (items : List (Item A))
      → RisesBelow n items
      → (prune_items ack b items).items ≡ keep (λ x. not (le_signed x.seq ack)) items
  unfolding prune_items
  prune_items-keep ack n b [] r = refl
  prune_items-keep ack n b (x ∷ items) (lt, above, r) = elim (Bool-cases (le_signed x.seq ack)) [
    | inl acked ↦
        rw acked
          (prune_items-keep ack n (record b { bytes = b.bytes - x.size; items = items }) items r)
    | inr not_acked ↦ rw not_acked (ap (◌∷◌ x) (sym (keep_above ack x.seq items not_acked above)))
  ]

  -- If the sequence numbers of the items rise, an ack removes exactly the items up to its number.
  pub items-prune_until :
      (ack : ℤ) (n : ℕ) (b : RetryBuffer A)
      → RisesBelow n b.items
      → (prune_until b ack).items ≡ keep (λ x. not (le_signed x.seq ack)) b.items
  unfolding prune_until
  items-prune_until ack n b r = prune_items-keep ack n b b.items r

  prune_items-IsValid :
      (ack : ℤ) (b : RetryBuffer A) (items : List (Item A))
      → b.bytes ≡ total items
      → b.bytes ≤ b.cap_bytes
      → IsValid (prune_items ack b items)
  unfolding prune_items
  prune_items-IsValid ack b [] h k = omega arith
  prune_items-IsValid ack b (x ∷ items) h k = elim (Bool-cases (le_signed x.seq ack)) [
    | inl acked ↦ rw acked (
        prune_items-IsValid ack (record b { bytes = b.bytes - x.size; items = items }) items
          (omega arith) (omega arith))
    | inr not_acked ↦ rw not_acked (record { counted = h; within = k })
  ]

  -- An ack keeps a buffer valid.
  pub prune_until-IsValid : (ack : ℤ) (b : RetryBuffer A) → IsValid b → IsValid (prune_until b ack)
  unfolding prune_until
  prune_until-IsValid ack b v = prune_items-IsValid ack b b.items v.counted v.within
