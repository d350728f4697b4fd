-- ===== src/Pools/Shared.antt =====
-- The `BookUpdatePool` of pools/main.cpp that a mutex guards, and its `Lease`. A call is atomic here.
-- What the vectors reserve is left out, as it shows in no result. A lease is the index that it
-- borrows, or nothing once it was moved from or returned.
pub mod Leases
pub mod Balance
pub mod Tests
use exchange_connectivity.Base.{ℕ, zero, suc, List, [], ◌∷◌, ◌++◌, Option, none, some, length, set}
use exchange_connectivity.Pools.{BookUpdate, cleared}

-- The free indices, the last of the vector first.
pub record BookUpdatePool : Type 0 where
  pub objects : List BookUpdate
  pub free_indices : List ℕ

abbrev pub Lease : Type 0
Lease = Option ℕ

-- The constructor, by its loop.
unfoldable pub create : ℕ → BookUpdatePool
create zero = record { objects = []; free_indices = [] }
create (suc n) =
    let pool = create n in
    record { objects = pool.objects ++ cleared ∷ []; free_indices = n ∷ pool.free_indices }

unfoldable pub acquire : BookUpdatePool → BookUpdatePool × ℕ
acquire pool = elim pool.free_indices [
  | [] ↦ (record pool { objects = pool.objects ++ cleared ∷ [] }, length pool.objects)
  | index ∷ others ↦ (record pool { free_indices = others }, index)
]

pub size : BookUpdatePool → ℕ
size pool = length pool.objects

pub available : BookUpdatePool → ℕ
available pool = length pool.free_indices

unfoldable pub release : ℕ → BookUpdatePool → BookUpdatePool
release index pool = record {
  objects = set pool.objects index cleared;
  free_indices = index ∷ pool.free_indices;
}

-- `reset`, which the destructor calls.
pub reset : Lease → BookUpdatePool → BookUpdatePool × Lease
unfolding release
reset none pool = (pool, none)
reset (some index) pool = (release index pool, none)

-- The assignment from another lease: what this one then is, and what the other is.
pub move_from : Lease → Lease → BookUpdatePool → BookUpdatePool × Lease × Lease
unfolding reset
move_from this other pool = ((reset this pool).0, other, none)
