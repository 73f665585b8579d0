-- ===== src/Trace/Tests.antt =====
-- The properties of the trace buffers at small bounds; the records are numbers.
use aspect_cli.Base.{ℕ, ◌≤◌, ◌≡◌, refl, ◌↔◌, List, [], ◌∷◌, ◌++◌, length, drop, arith}
use aspect_cli.Trace.{
  Call, exporting, installing, new, install_late, extend_spans, extend_logs, export, call, calls,
}
use aspect_cli.Base.{ltb, Bool, ◌+◌}
use aspect_cli.Trace.{Step, calling, delivering, idle, steps, step, advance}
use aspect_cli.Trace.Interleaving.{got, awaited, tally, steps-delivers_spans, steps-delivers_logs}
use aspect_cli.Trace.Policies.{newest, extend_spans-length_iff}
use aspect_cli.Trace.Deliveries.{flatten, received, exported, exports}

abbrev before : List (List ℕ)
before = (1 ∷ 2 ∷ []) ∷ (3 ∷ []) ∷ []

abbrev after : List (Call ℕ)
after = exporting (4 ∷ []) ∷ installing (9 ∷ []) ∷ exporting (5 ∷ 6 ∷ 7 ∷ []) ∷ []

two_are_kept :
    received 7 (calls (extend_spans 2) (exports before ++ installing (7 ∷ 8 ∷ []) ∷ after) new).1
    ≡ 2 ∷ 3 ∷ 4 ∷ 5 ∷ 6 ∷ 7 ∷ []
unfolding calls call export install_late extend_spans drop
two_are_kept = refl

abbrev large : List ℕ
large = 4 ∷ 5 ∷ 6 ∷ []

-- a batch above the bound is kept whole in a buffer of spans
large_batch : extend_spans 2 large (1 ∷ []) ≡ large
unfolding extend_spans drop
large_batch = refl

large_batch_of_logs : extend_logs 2 large (1 ∷ []) ≡ 5 ∷ 6 ∷ []
unfolding extend_logs drop
large_batch_of_logs = refl

-- the exporters 7 and 8 are attached, and a live batch comes between the deliveries of the replay
abbrev interleaved : List (Step ℕ)
interleaved =
    calling (exporting (1 ∷ 2 ∷ []))
    ∷ calling (exporting (3 ∷ []))
    ∷ calling (installing (7 ∷ 8 ∷ []))
    ∷ delivering 2
    ∷ calling (exporting (4 ∷ []))
    ∷ delivering 3
    ∷ delivering 3
    ∷ delivering 2
    ∷ calling (installing (9 ∷ []))
    ∷ calling (exporting (5 ∷ 6 ∷ 7 ∷ []))
    ∷ []

-- the live batch was faster than the replay
got_out_of_order : got 8 (steps (extend_spans 2) interleaved idle) ≡ 4 ∷ 2 ∷ 3 ∷ []
unfolding steps step advance call export install_late extend_spans drop
got_out_of_order = refl

above_two : ℕ → Bool
above_two n = ltb 2 n

steps-delivers_spans_example :
    tally above_two (got 7 (steps (extend_spans 2) interleaved idle))
      + tally above_two (awaited 7 (steps (extend_spans 2) interleaved idle))
    ≡ tally above_two (newest 2 (flatten before)) + tally above_two (exported after)
steps-delivers_spans_example =
    steps-delivers_spans 2 7 interleaved before (7 ∷ 8 ∷ []) after above_two refl
      (omega arith, (omega arith, tt)) refl refl

steps-delivers_logs_example :
    tally above_two (got 8 (steps (extend_logs 1) interleaved idle))
      + tally above_two (awaited 8 (steps (extend_logs 1) interleaved idle))
    ≡ tally above_two (newest 1 (flatten before)) + tally above_two (exported after)
steps-delivers_logs_example =
    steps-delivers_logs 1 8 interleaved before (7 ∷ 8 ∷ []) after above_two (omega arith) refl refl
      refl

extend_spans-length_iff_example : (length (extend_spans 2 large (1 ∷ [])) ≤ 2) ↔ (length large ≤ 2)
extend_spans-length_iff_example = extend_spans-length_iff 2 large (1 ∷ []) (omega arith)
