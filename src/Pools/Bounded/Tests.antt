-- ===== src/Pools/Bounded/Tests.antt =====
-- A bounded pool of two objects: a third lease is refused.
use exchange_connectivity.Base.{◌+◌, ◌≡◌, true, List, [], ◌∷◌, length}
use exchange_connectivity.Pools.Bounded.{create}
use exchange_connectivity.Pools.Bounded.Supply.{
  Call, acquires, returns, run, queue, never_terminates,
}

abbrev calls : List Call
calls = acquires ∷ acquires ∷ acquires ∷ returns 1 ∷ acquires ∷ []

never_terminates_example :
    let (pool, alive) = create 2 in
    let (pool', held, alive') = run 2 calls (pool, [], alive) in
    (alive' ≡ true) × (length (queue 2 pool') + length held ≡ 2)
never_terminates_example = never_terminates 2 calls
