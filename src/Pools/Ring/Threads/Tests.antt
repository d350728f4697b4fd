-- ===== src/Pools/Ring/Threads/Tests.antt =====
-- Two threads on a ring of two slots, whose steps alternate.
use exchange_connectivity.Base.{ℕ, ◌≡◌, refl, List, [], ◌∷◌}
use exchange_connectivity.Pools.Ring.{create}
use exchange_connectivity.Pools.Ring.Queue.{contents}
use exchange_connectivity.Pools.Ring.Threads.{
  Turn, push_call, producer_turn, pop_call, consumer_turn, Outcome, accepted, taken, found_empty,
  run_turns, at_rest,
}
use exchange_connectivity.Pools.Ring.Threads.Queue.{Follows}
use exchange_connectivity.Pools.Ring.Threads.Linear.{Apart, run_turns-Follows}

-- The consumer looks before the element is published, and once more behind it, while the next is written.
abbrev turns : List (Turn ℕ)
turns =
    push_call 7
    ∷ producer_turn
    ∷ pop_call
    ∷ consumer_turn
    ∷ producer_turn
    ∷ push_call 8
    ∷ pop_call
    ∷ consumer_turn
    ∷ consumer_turn
    ∷ producer_turn
    ∷ consumer_turn
    ∷ producer_turn
    ∷ []

abbrev returned : List (Outcome ℕ)
returned = found_empty ∷ accepted 7 ∷ taken 7 ∷ accepted 8 ∷ []

turns-returned : (run_turns 2 0 turns (at_rest 2 0)).1 ≡ returned
unfolding run_turns create
turns-returned = refl

run_turns-Follows_example :
    let (t, outcomes) = run_turns 2 0 turns (at_rest 2 0) in
    Follows 2 outcomes [] (contents 2 0 t.ring) × Apart 2 0 t.producer t.consumer t.ring
run_turns-Follows_example = run_turns-Follows 2 0 turns
