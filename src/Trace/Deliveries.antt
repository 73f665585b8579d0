-- ===== src/Trace/Deliveries.antt =====
-- What the calls owe to an exporter that is attached late.
use aspect_cli.Base.{
  ℕ, ◌+◌, ◌≤◌, ◌<◌, ◌≡◌, refl, sym, ap, ap₂, ◌∙◌, subst, true, false, List, [], ◌∷◌, ◌++◌, map,
  if◌then◌else◌, length, is_empty, ◌==◌, append-nil, append_assoc, arith, Bool-cases, inl, inr, All,
}
use aspect_cli.Trace.{
  Delivery, Call, exporting, installing, new, each, install_late, extend_spans, extend_logs, export,
  call, calls,
}
use aspect_cli.Trace.Policies.{
  newest, newest-length_le, newest_all, newest-newest, extend_spans-newest, extend_logs-newest,
}

-- how often an exporter is among others
abbrev pub times : ℕ → List ℕ → ℕ
times e [] = 0
times e (x ∷ xs) = (if x == e then 1 else 0) + times e xs

times-append : (e : ℕ) (xs ys : List ℕ) → times e (xs ++ ys) ≡ times e xs + times e ys
times-append e [] ys = omega arith
times-append e (x ∷ xs) ys = let rest = times-append e xs ys in omega (arith, rest)

module _ {R : Type 0} where
  abbrev pub flatten : List (List R) → List R
  flatten [] = []
  flatten (b ∷ bs) = b ++ flatten bs

  -- what an exporter gets of some deliveries
  abbrev pub received : ℕ → List (Delivery R) → List R
  received e [] = []
  received e ((x, batch) ∷ ds) = (if x == e then batch else []) ++ received e ds

  -- what the calls export
  abbrev pub exported : List (Call R) → List R
  exported [] = []
  exported (exporting batch ∷ cs) = batch ++ exported cs
  exported (installing es ∷ cs) = exported cs

  -- how often the calls attach an exporter
  abbrev pub attached : ℕ → List (Call R) → ℕ
  attached e [] = 0
  attached e (exporting batch ∷ cs) = attached e cs
  attached e (installing es ∷ cs) = times e es + attached e cs

  abbrev pub exports : List (List R) → List (Call R)
  exports batches = map exporting batches

  pub received-append :
      (e : ℕ) (ds fs : List (Delivery R)) → received e (ds ++ fs) ≡ received e ds ++ received e fs
  received-append e [] fs = refl
  received-append e ((x, batch) ∷ ds) fs =
      ap (λ r. (if x == e then batch else []) ++ r) (received-append e ds fs)
      ∙ sym (append_assoc (if x == e then batch else []) (received e ds) (received e fs))

  received-none :
      (e : ℕ) (es : List ℕ) (batch : List R) → times e es ≡ 0 → received e (each es batch) ≡ []
  received-none e [] batch h = refl
  received-none e (x ∷ es) batch h = elim (Bool-cases (x == e)) [
    | inl same ↦ let bad = rw same at h in absurd (omega (arith, bad))
    | inr other ↦
        let rest = rw other at h in rw other (received-none e es batch (omega (arith, rest)))
  ]

  received-once :
      (e : ℕ) (es : List ℕ) (batch : List R) → times e es ≡ 1 → received e (each es batch) ≡ batch
  received-once e [] batch h = absurd (omega (arith, h))
  received-once e (x ∷ es) batch h = elim (Bool-cases (x == e)) [
    | inl same ↦
        let rest = rw same at h in
        rw same
          (ap (λ r. batch ++ r) (received-none e es batch (omega (arith, rest))) ∙ append-nil batch)
    | inr other ↦
        let rest = rw other at h in rw other (received-once e es batch (omega (arith, rest)))
  ]

  module _ (extend : List R → List R → List R) (e : ℕ) where
    -- after the replay, every batch is passed on
    received-live :
        (late : List ℕ) (cs : List (Call R))
        → times e late ≡ 1
        → attached e cs ≡ 0
        → received e (calls extend cs (record { buffer = []; late = late; replayed = true })).1
          ≡ exported cs
    unfolding calls call export install_late
    received-live late [] h k = refl
    received-live late (exporting batch ∷ cs) h k =
        received-append e (each late batch) _
        ∙ ap₂ (λ a b. a ++ b) (received-once e late batch h) (received-live late cs h k)
    received-live late (installing es ∷ cs) h k =
        let both = times-append e late es in
        received-live (late ++ es) cs (omega (arith, both, h, k)) (omega (arith, k))

    module _ (cap : ℕ) (Fits : List R → Type 0)
        (policy : (batch b : List R)
          → length b ≤ cap
          → Fits batch
          → extend batch b ≡ newest cap (b ++ batch)) where
      received-calls :
          (b : List R) (batches : List (List R)) (es : List ℕ) (later : List (Call R))
          → length b ≤ cap
          → All Fits batches
          → times e es ≡ 1
          → attached e later ≡ 0
          → received e
              (calls extend
                (exports batches ++ installing es ∷ later)
                (record { buffer = b; late = []; replayed = false })).1
            ≡ newest cap (b ++ flatten batches) ++ exported later
      unfolding calls call export install_late
      received-calls b [] es later h f once k =
          received-append e (if is_empty b then [] else each es b) _
          ∙ ap₂ (λ x y. x ++ y) (replayed b ∙ sym (newest_all cap (b ++ []) fits))
              (received-live es later once k)
        where
          fits : length (b ++ []) ≤ cap
          fits = subst (λ x. length x ≤ cap) (sym (append-nil b)) h

          replayed : (c : List R) → received e (if is_empty c then [] else each es c) ≡ c ++ []
          replayed [] = refl
          replayed (r ∷ c) = received-once e es (r ∷ c) once ∙ sym (append-nil (r ∷ c))
      received-calls b (batch ∷ batches) es later h (f, fs) once k =
          let kept = policy batch b h f in
          let le : length (extend batch b) ≤ cap =
            subst (λ x. length x ≤ cap) (sym kept) (newest-length_le cap (b ++ batch)) in
          received-calls (extend batch b) batches es later le fs once k
          ∙ ap (λ x. newest cap (x ++ flatten batches) ++ exported later) kept
          ∙ ap (λ x. x ++ exported later)
              (newest-newest cap (b ++ batch) (flatten batches)
                ∙ ap (newest cap) (append_assoc b batch (flatten batches)))

  -- what is owed of spans, none of whose batches is larger than the buffer
  pub owed_spans :
      (cap e : ℕ) (batches : List (List R)) (es : List ℕ) (later : List (Call R))
      → All (λ batch. length batch ≤ cap) batches
      → times e es ≡ 1
      → attached e later ≡ 0
      → received e (calls (extend_spans cap) (exports batches ++ installing es ∷ later) new).1
        ≡ newest cap (flatten batches) ++ exported later
  owed_spans cap e batches es later fits once k =
      received-calls (extend_spans cap) e cap (λ batch. length batch ≤ cap)
        (extend_spans-newest cap) [] batches es later (omega arith) fits once k

  -- what is owed of logs, with batches of any size
  pub owed_logs :
      (cap e : ℕ) (batches : List (List R)) (es : List ℕ) (later : List (Call R))
      → 0 < cap
      → times e es ≡ 1
      → attached e later ≡ 0
      → received e (calls (extend_logs cap) (exports batches ++ installing es ∷ later) new).1
        ≡ newest cap (flatten batches) ++ exported later
  owed_logs cap e batches es later p once k =
      received-calls (extend_logs cap) e cap (λ batch. Unit {0})
        (λ batch b h f. extend_logs-newest cap batch b p h) [] batches es later (omega arith)
        (any_size batches) once k
    where
      any_size : (bs : List (List R)) → All (λ batch. Unit {0}) bs
      any_size [] = tt
      any_size (b ∷ bs) = (tt, any_size bs)
