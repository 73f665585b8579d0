-- ===== src/Trace.antt =====
-- crates/aspect-cli/src/trace_buffer.rs: spans and logs are kept until exporters are attached. A call does
-- one thing under the lock; what it then owes to the exporters, in the loop after the lock is released, is
-- a list of deliveries, and a step of the system is a call that takes the lock or one delivery of some call
-- that was made before, so that live batches may come between those of a replay. An exporter is a number.
-- `buffer_cap` is `cap` in the definitions.
pub mod Policies
mod Tests
pub mod Deliveries
pub mod Interleaving
use aspect_cli.Base.{zero, suc}
use aspect_cli.Base.{
  ℕ, ◌-◌, Bool, true, false, List, [], ◌∷◌, ◌++◌, map, if◌then◌else◌, is_empty, length, ltb, leb,
  drop, ◌==◌, ◌+◌, suc,
}

abbrev pub buffer_cap : ℕ
buffer_cap = 50000

module _ (R : Type 0) where
  -- `SpanState` and `LogState`
  pub record Buffering : Type 0 where
    pub buffer : List R
    pub late : List ℕ
    pub replayed : Bool

  abbrev pub Delivery : Type 0
  Delivery = ℕ × List R

  -- a call of `export` or of `install_late`
  pub data Call : Type 0 where
    exporting : List R → Call
    installing : List ℕ → Call

module _ {R : Type 0} where
  abbrev pub new : Buffering R
  new = record { buffer = []; late = []; replayed = false }

  abbrev pub each : List ℕ → List R → List (Delivery R)
  each exporters batch = map (λ e. (e, batch)) exporters

  unfoldable pub install_late : List ℕ → Buffering R → Buffering R × List (Delivery R)
  install_late exporters st = (
    record { buffer = []; late = st.late ++ exporters; replayed = true },
    if is_empty st.buffer then [] else each exporters st.buffer,
  )

  -- the eviction of `BufferingSpanExporter`, for the whole batch
  unfoldable pub extend_spans : ℕ → List R → List R → List R
  unfolding drop
  extend_spans cap batch buffer =
      let avail = cap - length buffer in
      let drop_n = length batch - avail in
      let drain_n = if leb drop_n (length buffer) then drop_n else length buffer in
      (if ltb avail (length batch) then drop drain_n buffer else buffer) ++ batch

  -- the loop of `BufferingLogExporter`, one record after the other
  unfoldable pub extend_logs : ℕ → List R → List R → List R
  unfolding drop
  extend_logs cap [] buffer = buffer
  extend_logs cap (r ∷ batch) buffer =
      extend_logs cap batch ((if leb cap (length buffer) then drop 1 buffer else buffer) ++ r ∷ [])

  -- `export`, with the way the buffer is extended
  unfoldable pub export :
      (List R → List R → List R) → List R → Buffering R → Buffering R × List (Delivery R)
  export extend batch st =
      if st.replayed
      then (st, each st.late batch)
      else (record st { buffer = extend batch st.buffer }, [])

  unfoldable pub call :
      (List R → List R → List R) → Call R → Buffering R → Buffering R × List (Delivery R)
  unfolding export install_late
  call extend (exporting batch) st = export extend batch st
  call extend (installing exporters) st = install_late exporters st

  -- a sequence of calls in the order in which they take the lock, and all deliveries that they owe
  unfoldable pub calls :
      (List R → List R → List R) → List (Call R) → Buffering R → Buffering R × List (Delivery R)
  unfolding call
  calls extend [] st = (st, [])
  calls extend (c ∷ cs) st =
      let (st', first) = call extend c st in
      let (st'', later) = calls extend cs st' in (st'', first ++ later)

-- what awaits the exporters: the calls that are past the lock, each with the deliveries it has left, and all
-- that was delivered
module _ (R : Type 0) where
  pub record System : Type 0 where
    pub st : Buffering R
    pub threads : List (List (Delivery R))
    pub log : List (Delivery R)

  pub data Step : Type 0 where
    calling : Call R → Step
    delivering : ℕ → Step

module _ {R : Type 0} where
  abbrev pub idle : System R
  idle = record { st = new; threads = []; log = [] }

  -- the next delivery of the call of this number, if it has one left
  unfoldable pub advance :
      ℕ → List (List (Delivery R)) → List (Delivery R) × List (List (Delivery R))
  advance n [] = ([], [])
  advance zero ([] ∷ threads) = ([], [] ∷ threads)
  advance zero ((d ∷ ds) ∷ threads) = (d ∷ [], ds ∷ threads)
  advance (suc n) (ds ∷ threads) = let (made, rest) = advance n threads in (made, ds ∷ rest)

  unfoldable pub step : (List R → List R → List R) → Step R → System R → System R
  unfolding call advance
  step extend (calling c) s =
      let (st', owed) = call extend c s.st in
      record { st = st'; threads = s.threads ++ owed ∷ []; log = s.log }
  step extend (delivering n) s =
      let (made, threads') = advance n s.threads in
      record { st = s.st; threads = threads'; log = s.log ++ made }

  unfoldable pub steps : (List R → List R → List R) → List (Step R) → System R → System R
  unfolding step
  steps extend [] s = s
  steps extend (x ∷ xs) s = steps extend xs (step extend x s)
