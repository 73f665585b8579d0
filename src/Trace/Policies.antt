-- ===== src/Trace/Policies.antt =====
-- What the two buffers keep when they are full.
use aspect_cli.Base.{
  ℕ, ◌+◌, ◌-◌, ◌≤◌, ◌<◌, ◌≡◌, sym, ap, ◌∙◌, ◌↔◌, true, List, [], ◌∷◌, ◌++◌, if◌then◌else◌, length,
  ltb, leb, ltb→lt, ltb→le, leb→le, drop, length-drop, drop-append, drop-drop, drop_as, append-nil,
  append_assoc, arith, Bool-cases, inl, inr, length-append,
}
use aspect_cli.Trace.{extend_spans, extend_logs}

module _ {R : Type 0} where
  -- the last `cap` records
  abbrev pub newest : ℕ → List R → List R
  newest cap rs = drop (length rs - cap) rs

  pub newest-length_le : (cap : ℕ) (rs : List R) → length (newest cap rs) ≤ cap
  newest-length_le cap rs = let e = length-drop (length rs - cap) rs in omega (arith, e)

  -- nothing is left out where all fits
  pub newest_all : (cap : ℕ) (rs : List R) → length rs ≤ cap → newest cap rs ≡ rs
  unfolding drop
  newest_all cap rs h = drop_as (length rs - cap) 0 rs (omega (arith, h))

  -- what is left out stands in front
  drop_front : (n : ℕ) (b rs : List R) → n ≤ length b → drop n b ++ rs ≡ drop n (b ++ rs)
  unfolding drop
  drop_front n b rs h = sym (
      drop-append n b rs ∙ ap (λ r. drop n b ++ r) (drop_as (n - length b) 0 rs (omega (arith, h))))

  pub newest-newest :
      (cap : ℕ) (b rs : List R) → newest cap (newest cap b ++ rs) ≡ newest cap (b ++ rs)
  newest-newest cap b rs =
      let d = length b - cap in
      let front = drop_front d b rs (omega arith) in
      let e1 = length-drop d (b ++ rs) in
      let e2 = length-append b rs in
      ap (newest cap) front
      ∙ drop-drop (length (drop d (b ++ rs)) - cap) d (b ++ rs)
      ∙ drop_as (d + (length (drop d (b ++ rs)) - cap)) (length (b ++ rs) - cap) (b ++ rs)
          (omega (arith, e1, e2))

  -- A buffer of spans within its bound, and a batch within it, are cut to the newest spans.
  pub extend_spans-newest :
      (cap : ℕ) (batch b : List R)
      → length b ≤ cap
      → length batch ≤ cap
      → extend_spans cap batch b ≡ newest cap (b ++ batch)
  unfolding extend_spans
  extend_spans-newest cap batch b h k =
      let e = length-append b batch in
      elim (Bool-cases (ltb (cap - length b) (length batch))) [
        | inl over ↦
            let more = ltb→lt (cap - length b) (length batch) over in
            let n = length batch - (cap - length b) in
            let fits : leb n (length b) ≡ true = ground arith in
            rw (over, fits)
              (drop_front n b batch (omega (arith, h, k, more))
                ∙ drop_as n (length (b ++ batch) - cap) (b ++ batch) (omega (arith, h, k, more, e)))
        | inr room ↦
            let enough = ltb→le (cap - length b) (length batch) room in
            rw room (sym (newest_all cap (b ++ batch) (omega (arith, h, enough, e))))
      ]

  one_log :
      (cap : ℕ) (r : R) (b : List R)
      → 0 < cap
      → length b ≤ cap
      → (if leb cap (length b) then drop 1 b else b) ++ r ∷ [] ≡ newest cap (b ++ r ∷ [])
  one_log cap r b p h =
      let e = length-append b (r ∷ []) in
      elim (Bool-cases (leb cap (length b))) [
        | inl full ↦
            let le = leb→le cap (length b) full in
            rw full (
              drop_front 1 b (r ∷ []) (omega (arith, p, le))
              ∙ drop_as 1 (length (b ++ r ∷ []) - cap) (b ++ r ∷ []) (omega (arith, h, le, e)))
        | inr room ↦
            let less : length b < cap = ground arith in
            rw room (sym (newest_all cap (b ++ r ∷ []) (omega (arith, less, e))))
      ]

  -- A buffer of logs within its bound is cut to the newest logs, whatever the batch.
  pub extend_logs-newest :
      (cap : ℕ) (batch b : List R)
      → 0 < cap
      → length b ≤ cap
      → extend_logs cap batch b ≡ newest cap (b ++ batch)
  unfolding extend_logs
  extend_logs-newest cap [] b p h = sym (ap (newest cap) (append-nil b) ∙ newest_all cap b h)
  extend_logs-newest cap (r ∷ batch) b p h =
      ap (extend_logs cap batch) (one_log cap r b p h)
      ∙ extend_logs-newest cap batch (newest cap (b ++ r ∷ [])) p
          (newest-length_le cap (b ++ r ∷ []))
      ∙ newest-newest cap (b ++ r ∷ []) batch
      ∙ ap (newest cap) (append_assoc b (r ∷ []) batch)

  -- A buffer of spans that is within its bound stays within it exactly if the batch is.
  pub extend_spans-length_iff :
      (cap : ℕ) (batch b : List R)
      → length b ≤ cap
      → (length (extend_spans cap batch b) ≤ cap) ↔ (length batch ≤ cap)
  unfolding extend_spans
  extend_spans-length_iff cap batch b h = (
    λ k. within k,
    λ k.
        let e = ap length (extend_spans-newest cap batch b h k) in
        let le = newest-length_le cap (b ++ batch) in omega (arith, e, le),
  )
    where
      within : length (extend_spans cap batch b) ≤ cap → length batch ≤ cap
      within k =
          let kept =
            (if ltb (cap - length b) (length batch)
              then drop
                  (if leb (length batch - (cap - length b)) (length b)
                    then length batch - (cap - length b)
                    else length b)
                  b
              else b) in
          let e = length-append kept batch in omega (arith, e, k)
