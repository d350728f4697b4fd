-- ===== src/Pools/Ring/Tests.antt =====
-- A ring of two slots.
use exchange_connectivity.Base.{ℕ, ◌≡◌, refl, true, false, List, [], ◌∷◌, none, some}
use exchange_connectivity.Pools.Ring.{create}
use exchange_connectivity.Pools.Ring.Queue.{
  Call, pushes, pops, pushed, popped, ring_run, queue_run, ring_run-queue_run,
}

abbrev calls : List (Call ℕ)
calls = pops ∷ pushes 1 ∷ pushes 2 ∷ pushes 3 ∷ pops ∷ pushes 4 ∷ pops ∷ pops ∷ pops ∷ []

answers :
    queue_run 2 0 calls []
    ≡ popped none
      ∷ pushed true
      ∷ pushed true
      ∷ pushed false
      ∷ popped (some 1)
      ∷ pushed true
      ∷ popped (some 2)
      ∷ popped (some 4)
      ∷ popped none
      ∷ []
unfolding queue_run
answers = refl

ring_run-queue_run_example : ring_run 2 0 calls (create 2 0) ≡ queue_run 2 0 calls []
ring_run-queue_run_example = ring_run-queue_run 2 0 calls
