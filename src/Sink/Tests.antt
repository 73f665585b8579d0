-- ===== src/Sink/Tests.antt =====
-- The properties of the sink at concrete inputs.
use aspect_cli.Sink.Reconnect.Budget.{IsAt, reconnect_loop-progress, reconnect_loop-budget, Rises}
use aspect_cli.Sink.Reconnect.{Drive, Loop, reconnect_loop, transient, reconnect, start, giving_up}
use aspect_cli.Base.{◌++◌, true}
use aspect_cli.Sink.Scalars.{parse_byte_size, parse_duration, parsed, from_secs}
use aspect_cli.Base.{ℕ, ◌≡◌, ◌<◌, refl, [], ◌∷◌, arith, trim, to_lower, text_eq, text}
use aspect_cli.Sink.RetryBuffer.Laws.{IsValid, longest_suffix, items-push}
use Prim.Native.Nat.{ℕ}
use aspect_cli.Sink.RetryBuffer.{Item, RetryBuffer, push}

-- events are given by their sizes
abbrev event : ℕ → ℕ → Item ℕ
event seq size = record { seq = seq; size = size; request = size }

abbrev half_full : RetryBuffer ℕ
half_full = record { cap_bytes = 10; bytes = 7; evicted = 0; items = event 1 4 ∷ event 2 3 ∷ [] }

half_full-IsValid : IsValid half_full
half_full-IsValid = record { counted = refl; within = omega arith }

items-push_example :
    ((push (λ n. n) half_full 3 12).items
      ≡ longest_suffix 10 (event 1 4 ∷ event 2 3 ∷ event 3 12 ∷ []))
    × (10 < 12
        → ((push (λ n. n) half_full 3 12).items ≡ [])
          × ((push (λ n. n) half_full 3 12).evicted ≡ 3))
items-push_example = items-push (λ n. n) half_full 3 12 half_full-IsValid

parse_byte_size_suffix : parse_byte_size (text " 2 KiB ") ≡ parsed 2048
unfolding parse_byte_size trim to_lower text_eq
parse_byte_size_suffix = refl

-- a count of minutes that wraps around to 44 seconds
parse_duration_wraps : parse_duration (text "307445734561825861m") ≡ parsed (from_secs 44)
unfolding parse_duration trim to_lower text_eq
parse_duration_wraps = refl

abbrev stuck : Drive
stuck = record { outcome = transient; acked = 0 }

reconnect_loop-budget_example :
    IsAt 2 0 (reconnect_loop 2 (reconnect start) (stuck ∷ stuck ∷ []))
    × (reconnect_loop 2 (reconnect start) ((stuck ∷ stuck ∷ []) ++ stuck ∷ []) ≡ giving_up 2)
reconnect_loop-budget_example =
    reconnect_loop-budget 2 (stuck ∷ stuck ∷ []) stuck ((refl, refl), ((refl, refl), tt))
      (refl, refl) refl

abbrev after_ack : ℕ → Drive
after_ack n = record { outcome = transient; acked = n }

rising : Rises 0 (after_ack 3 ∷ after_ack 8 ∷ [])
rising = (refl, omega arith, (refl, omega arith, tt))

-- a loop with one attempt behind it and an ack at 1
abbrev tried : Loop
tried = record { attempt = 1; max_acked = 1; warned_transient = true }

rising_again : Rises 1 (after_ack 3 ∷ after_ack 8 ∷ [])
rising_again = (refl, omega arith, (refl, omega arith, tt))

reconnect_loop-progress_example :
    IsAt 1 8
      (reconnect_loop 1 (reconnect tried) ((after_ack 3 ∷ after_ack 8 ∷ []) ++ after_ack 8 ∷ []))
    × (reconnect_loop 1
          (reconnect tried)
          ((after_ack 3 ∷ after_ack 8 ∷ []) ++ (after_ack 8 ∷ []) ++ after_ack 8 ∷ [])
        ≡ giving_up 1)
reconnect_loop-progress_example =
    reconnect_loop-progress 1 tried (after_ack 3) (after_ack 8 ∷ []) (after_ack 8 ∷ [])
      (after_ack 8) (omega arith) rising_again ((refl, refl), tt) (refl, refl) refl
