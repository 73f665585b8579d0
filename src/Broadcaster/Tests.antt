-- ===== src/Broadcaster/Tests.antt =====
-- The properties of the broadcaster at concrete inputs.
use aspect_cli.Broadcaster.Delivery.{subscribe_filtered-run}
use aspect_cli.Broadcaster.Expected.{all_received, expected}
use aspect_cli.Broadcaster.Iterator.{
  Reply, event, silence, pending, done, item, tick, bind, looped, shown, for_each-bind,
}
use aspect_cli.Base.{arith, true, ℕ, ◌≡◌, refl, none, some, List, [], ◌∷◌, ◌++◌, ltb}
use aspect_cli.Broadcaster.{Broadcaster, new, subscribe_filtered}
use aspect_cli.Broadcaster.Laws.{Step, sending, receiving, closing, subscribing, run}

abbrev fresh : Broadcaster ℕ
fresh = new

-- another subscriber, events, a receive, and the end of the stream
abbrev session : List (Step ℕ)
session =
    subscribing none ∷ sending 1 ∷ sending 7 ∷ receiving 0 ∷ sending 2 ∷ closing ∷ sending 3 ∷ []

subscribe_filtered-run_example :
    all_received 0 session (subscribe_filtered fresh (some (λ n. ltb n 5))).0
      ++ ((run session (subscribe_filtered fresh (some (λ n. ltb n 5))).0).channels 0).queue
    ≡ expected (some (λ n. ltb n 5) ∷ []) session
unfolding new subscribe_filtered
subscribe_filtered-run_example =
    subscribe_filtered-run fresh (some (λ n. ltb n 5)) session tt refl
      (refl, (refl, (refl, (refl, (refl, (refl, (refl, tt)))))))

abbrev quiet_build : List (Reply ℕ)
quiet_build = silence ∷ event 4 ∷ silence ∷ event 6 ∷ []

for_each-bind_example :
    looped 5 true (bind quiet_build pending) ≡ some (shown true quiet_build, done)
for_each-bind_example = for_each-bind 5 true quiet_build (omega arith)

ticking : shown true quiet_build ≡ tick ∷ item 4 ∷ tick ∷ item 6 ∷ []
ticking = refl
