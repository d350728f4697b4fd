-- ===== src/Pools/Shared/Tests.antt =====
-- A pool of one object, which grows by another.
use exchange_connectivity.Base.{List, [], ◌∷◌}
use exchange_connectivity.Pools.{BookUpdate}
use exchange_connectivity.Pools.Shared.{create}
use exchange_connectivity.Pools.Shared.Leases.{
  Call, acquires, writes, returns, step, run, Fresh, acquire-Fresh,
}

abbrev update : BookUpdate
update = record { exchange_timestamp = 5; first_sequence = 10; last_sequence = 15; updates = [] }

abbrev calls : List Call
calls = acquires ∷ writes 0 update ∷ acquires ∷ returns 1 ∷ []

acquire-Fresh_example : Fresh (run calls (create 1, [])) (step acquires (run calls (create 1, [])))
acquire-Fresh_example = acquire-Fresh 1 calls
