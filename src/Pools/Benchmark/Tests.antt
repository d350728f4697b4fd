-- ===== src/Pools/Benchmark/Tests.antt =====
-- The benchmark of three messages, behind a few turns, and the checksum of the real one.
use exchange_connectivity.Base.{◌+◌, ◌*◌, ◌≡◌, refl, List, [], ◌∷◌}
use exchange_connectivity.Base.Int.{wrap64}
use exchange_connectivity.Pools.Benchmark.{
  Turn, producer_turn, consumer_turn, all_consumed, start, run,
}
use exchange_connectivity.Pools.Benchmark.Messages.{expected}
use exchange_connectivity.Pools.Benchmark.Progress.{rounds, benchmark_ends}

abbrev a_few : List Turn
a_few = producer_turn ∷ consumer_turn ∷ producer_turn ∷ producer_turn ∷ producer_turn ∷ []

-- What pools/main.cpp records of a run with five million messages.
recorded : expected 5000000 ≡ 662512377500000
recorded = refl

benchmark_ends_example :
    let b = rounds 3 (4 * 3 + 3) (run 3 a_few start) in
    (b.consumer ≡ all_consumed) × (b.messages_processed ≡ 3) × (b.checksum ≡ wrap64 (expected 3))
benchmark_ends_example = benchmark_ends 3 a_few
