-- ===== src/Pools/Bounded.antt =====
-- `BookUpdatePool<Capacity>` of pools/main.cpp, whose free indices are in a ring buffer. A lease is the
-- index that it borrows. `emplace` is the ring's `push`; what the vectors reserve is left out.
pub mod Supply
pub mod Tests
use exchange_connectivity.Base.{
  ℕ, zero, suc, ◌+◌, ◌-◌, Bool, true, false, List, Option, none, some, replicate, set,
}
use exchange_connectivity.Pools.{BookUpdate, cleared}
use exchange_connectivity.Pools.Ring
use exchange_connectivity.Pools.Ring.{RingBuffer}

pub record BookUpdatePool : Type 0 where
  pub objects : List BookUpdate
  pub free_indices : RingBuffer ℕ
  pub acquired_count : ℕ

module _ (capacity : ℕ) where
  abbrev empty : BookUpdatePool
  empty = record {
    objects = replicate capacity cleared;
    free_indices = Ring.create capacity 0;
    acquired_count = 0;
  }

  abbrev pub put : ℕ → BookUpdatePool → BookUpdatePool × Bool
  put index pool =
      let (ring, inserted) = Ring.push capacity 0 index pool.free_indices in
      (record pool { free_indices = ring }, inserted)

  -- The loop of the constructor over the indices from the second argument on, as many as the first.
  -- The Boolean is false where it calls `std::terminate`.
  pub fill : ℕ → ℕ → BookUpdatePool → BookUpdatePool × Bool
  fill zero index pool = (pool, true)
  fill (suc n) index pool =
      let (pool', inserted) = put index pool in
      let rest = fill n (suc index) pool' in elim inserted [ true ↦ rest | false ↦ (pool', false) ]

  pub create : BookUpdatePool × Bool
  unfolding fill
  create = fill capacity 0 empty

  pub acquire : BookUpdatePool → BookUpdatePool × Option ℕ
  acquire pool =
      let (ring, index) = Ring.pop capacity 0 pool.free_indices in
      (record pool { free_indices = ring }, index)

  pub size : ℕ
  size = capacity

  pub available : BookUpdatePool → ℕ
  available pool = capacity - pool.acquired_count

  -- `release`; the Boolean is false where it calls `std::terminate`.
  pub release : ℕ → BookUpdatePool → BookUpdatePool × Bool
  release index pool = put index (record pool { objects = set pool.objects index cleared })
