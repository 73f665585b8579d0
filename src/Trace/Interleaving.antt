-- ===== src/Trace/Interleaving.antt =====
-- What an exporter that is attached late has received, and what it still awaits, whatever the order in which
-- the calls take the lock and make their deliveries.
use aspect_cli.Trace.Deliveries.{received-append}
use aspect_cli.Base.{zero, suc}
use aspect_cli.Base.{
  ℕ, zero, suc, ◌+◌, ◌≤◌, ◌<◌, ◌≡◌, refl, sym, ap, ◌∙◌, Bool, List, [], ◌∷◌, ◌++◌, arith,
  if◌then◌else◌, length, All,
}
use aspect_cli.Trace.{
  Delivery, Call, installing, new, call, calls, extend_spans, extend_logs, System, Step, calling,
  delivering, idle, advance, step, steps,
}
use aspect_cli.Trace.Policies.{newest}
use aspect_cli.Trace.Deliveries.{
  times, flatten, received, exported, attached, exports, owed_spans, owed_logs,
}

module _ {R : Type 0} where
  -- how many records pass a test
  abbrev pub tally : (R → Bool) → List R → ℕ
  tally p [] = 0
  tally p (r ∷ rs) = (if p r then 1 else 0) + tally p rs

  -- the calls among the steps, in the order in which they take the lock
  abbrev pub calls_of : List (Step R) → List (Call R)
  calls_of [] = []
  calls_of (calling c ∷ xs) = c ∷ calls_of xs
  calls_of (delivering n ∷ xs) = calls_of xs

  -- what an exporter has received, and what calls past the lock still owe to it
  abbrev pub got : ℕ → System R → List R
  got e s = received e s.log

  abbrev pub awaited : ℕ → System R → List R
  awaited e s = received e (flatten s.threads)

  tally-append : (p : R → Bool) (rs ss : List R) → tally p (rs ++ ss) ≡ tally p rs + tally p ss
  tally-append p [] ss = omega arith
  tally-append p (r ∷ rs) ss = let rest = tally-append p rs ss in omega (arith, rest)

  module _ (p : R → Bool) (e : ℕ) where
    -- how many of the records of some deliveries pass the test and go to the exporter
    abbrev weight : List (Delivery R) → ℕ
    weight ds = tally p (received e ds)

    weight-append : (ds fs : List (Delivery R)) → weight (ds ++ fs) ≡ weight ds + weight fs
    weight-append ds fs =
        ap (tally p) (received-append e ds fs) ∙ tally-append p (received e ds) (received e fs)

    weight-advance :
        (n : ℕ) (threads : List (List (Delivery R)))
        → let (made, rest) = advance n threads in
          weight made + weight (flatten rest) ≡ weight (flatten threads)
    unfolding advance
    weight-advance n [] = refl
    weight-advance zero ([] ∷ threads) = omega arith
    weight-advance zero ((d ∷ ds) ∷ threads) = sym (weight-append (d ∷ []) (ds ++ flatten threads))
    weight-advance (suc n) (ds ∷ threads) =
        let h = weight-advance n threads in
        let before = weight-append ds (flatten threads) in
        let after = weight-append ds (flatten (advance n threads).1) in
        omega (arith, h, before, after)

    weight-push :
        (threads : List (List (Delivery R))) (owed : List (Delivery R))
        → weight (flatten (threads ++ owed ∷ [])) ≡ weight (flatten threads) + weight owed
    weight-push [] owed = omega (arith, weight-append owed [])
    weight-push (ds ∷ threads) owed =
        let h = weight-push threads owed in
        let before = weight-append ds (flatten threads) in
        let after = weight-append ds (flatten (threads ++ owed ∷ [])) in
        omega (arith, h, before, after)

    -- nothing that a call owes is lost or doubled by any order of the steps
    weight-steps :
        (extend : List R → List R → List R) (xs : List (Step R)) (s : System R)
        → let after = steps extend xs s in
          tally p (got e after) + tally p (awaited e after)
          ≡ tally p (got e s) + tally p (awaited e s) + weight (calls extend (calls_of xs) s.st).1
    unfolding steps step calls
    weight-steps extend [] s = omega arith
    weight-steps extend (calling c ∷ xs) s =
        let r = call extend c s.st in
        let rest = weight-steps extend xs (step extend (calling c) s) in
        let pushed = weight-push s.threads r.1 in
        let total = weight-append r.1 (calls extend (calls_of xs) r.0).1 in
        omega (arith, rest, pushed, total)
    weight-steps extend (delivering n ∷ xs) s =
        let rest = weight-steps extend xs (step extend (delivering n) s) in
        let made = weight-append s.log (advance n s.threads).0 in
        let kept = weight-advance n s.threads in omega (arith, rest, made, kept)

    of_owed :
        (extend : List R → List R → List R) (xs : List (Step R)) (cs : List (Call R))
        (old live : List R)
        → calls_of xs ≡ cs
        → received e (calls extend cs new).1 ≡ old ++ live
        → let after = steps extend xs idle in
          tally p (got e after) + tally p (awaited e after) ≡ tally p old + tally p live
    of_owed extend xs cs old live same owed =
        let all = weight-steps extend xs idle in
        let total =
          ap (λ k. tally p (received e (calls extend k new).1)) same
          ∙ ap (tally p) owed
          ∙ tally-append p old live in
        omega (arith, all, total)

  -- Batches of spans, none of them larger than the buffer, are exported; then an exporter is attached,
  -- once, and other calls follow, while the deliveries that the calls owe are made in any order, between
  -- the calls or later. At any time, what the exporter has received and what calls past the lock still owe
  -- to it are together the newest spans of before, as many as the buffer holds, and all spans of after,
  -- each as often as it was exported: for any test, as many pass it. No order is promised.
  pub steps-delivers_spans :
      (cap e : ℕ) (xs : List (Step R)) (batches : List (List R)) (es : List ℕ)
      (later : List (Call R)) (p : R → Bool)
      → calls_of xs ≡ exports batches ++ installing es ∷ later
      → All (λ batch. length batch ≤ cap) batches
      → times e es ≡ 1
      → attached e later ≡ 0
      → let after = steps (extend_spans cap) xs idle in
        tally p (got e after) + tally p (awaited e after)
        ≡ tally p (newest cap (flatten batches)) + tally p (exported later)
  steps-delivers_spans cap e xs batches es later p same fits once k =
      of_owed p e (extend_spans cap) xs (exports batches ++ installing es ∷ later)
        (newest cap (flatten batches)) (exported later) same
        (owed_spans cap e batches es later fits once k)

  -- Batches of logs, of any size, are exported to a buffer with room for a record; then an exporter is
  -- attached, once, and other calls follow, while the deliveries that the calls owe are made in any order.
  -- At any time, what the exporter has received and what calls past the lock still owe to it are together
  -- the newest logs of before, as many as the buffer holds, and all logs of after, each as often as it was
  -- exported: for any test, as many pass it. No order is promised.
  pub steps-delivers_logs :
      (cap e : ℕ) (xs : List (Step R)) (batches : List (List R)) (es : List ℕ)
      (later : List (Call R)) (p : R → Bool)
      → 0 < cap
      → calls_of xs ≡ exports batches ++ installing es ∷ later
      → times e es ≡ 1
      → attached e later ≡ 0
      → let after = steps (extend_logs cap) xs idle in
        tally p (got e after) + tally p (awaited e after)
        ≡ tally p (newest cap (flatten batches)) + tally p (exported later)
  steps-delivers_logs cap e xs batches es later p some_room same once k =
      of_owed p e (extend_logs cap) xs (exports batches ++ installing es ∷ later)
        (newest cap (flatten batches)) (exported later) same
        (owed_logs cap e batches es later some_room once k)
