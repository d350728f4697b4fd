-- ===== src/Pools/Bounded/Supply.antt =====
-- The free indices never outgrow their ring.
use exchange_connectivity.Base.{
  ℕ, zero, suc, ◌+◌, ◌<◌, ◌≡◌, refl, ap, ◌∙◌, Bool, true, ◌&&◌, List, [], ◌∷◌, ◌++◌, Option, none,
  some, arith, length, set,
}
use exchange_connectivity.Pools.{cleared}
use exchange_connectivity.Pools.Ring.{RingBuffer, pop}
use exchange_connectivity.Pools.Ring.Queue.{
  contents, IsRing, create-IsRing, contents-create, push-IsRing, pop-IsRing, push-offer, pop-poll,
  offer, poll,
}
use exchange_connectivity.Pools.Bounded.{BookUpdatePool, create, fill, put, empty, acquire, release}
use exchange_connectivity.Pools.Shared.Leases.{nth, drop_at}
use exchange_connectivity.Pools.Shared.Balance.{length-drop_at}

pub data Call : Type 0 where
  acquires : Call
  returns : ℕ → Call

module _ (capacity : ℕ) where
  -- The pool, the indices on lease, and whether `std::terminate` was never called.
  abbrev pub Leased : Type 0
  Leased = BookUpdatePool × List ℕ × Bool

  abbrev taken : Option ℕ → List ℕ → List ℕ
  taken none held = held
  taken (some i) held = i ∷ held

  abbrev returned : Option ℕ → ℕ → Leased → Leased
  returned none k s = s
  returned (some i) k (pool, held, alive) =
      let (pool', inserted) = release capacity i pool in (pool', drop_at held k, alive && inserted)

  unfoldable pub step : Call → Leased → Leased
  step acquires (pool, held, alive) =
      let (pool', index) = acquire capacity pool in (pool', taken index held, alive)
  step (returns k) (pool, held, alive) = returned (nth held k) k (pool, held, alive)

  unfoldable pub run : List Call → Leased → Leased
  unfolding step
  run [] s = s
  run (c ∷ cs) s = run cs (step c s)

  abbrev pub queue : BookUpdatePool → List ℕ
  queue pool = contents capacity 0 pool.free_indices

  pub record IsSound (s : Leased) : Type 0 where
    pub ring : IsRing capacity 0 s.0.free_indices
    pub balanced : length (queue s.0) + length s.1 ≡ capacity
    pub alive : s.2 ≡ true

  length-snoc_index : (xs : List ℕ) (x : ℕ) → length (xs ++ x ∷ []) ≡ length xs + 1
  length-snoc_index [] x = omega arith
  length-snoc_index (y ∷ xs) x = omega (arith, length-snoc_index xs x)

  put-room :
      (i : ℕ) (pool : BookUpdatePool)
      → IsRing capacity 0 pool.free_indices
      → length (queue pool) < capacity
      → ((put capacity i pool).1 ≡ true)
        × (length (queue (put capacity i pool).0) ≡ length (queue pool) + 1)
  put-room i pool v room =
      let same = push-offer capacity 0 i pool.free_indices v in
      let taken : offer capacity 0 i (queue pool) ≡ (queue pool ++ i ∷ [], true) =
        ground (arith, room) in
      (
        ap (λ p. p.1) (same ∙ taken),
        ap (λ p. length p.0) (same ∙ taken) ∙ length-snoc_index (queue pool) i,
      )

  fill-full :
      (n i : ℕ) (pool : BookUpdatePool)
      → IsRing capacity 0 pool.free_indices
      → length (queue pool) + n ≡ capacity
      → let (pool', alive) = fill capacity n i pool in IsSound (pool', [], alive)
  unfolding fill
  fill-full zero i pool v e = record { ring = v; balanced = omega (arith, e); alive = refl }
  fill-full (suc n) i pool v e =
      let (inserted, longer) = put-room i pool v (omega (arith, e)) in
      let rest =
        fill-full n (suc i) (put capacity i pool).0 (push-IsRing capacity 0 i pool.free_indices v)
          (omega (arith, e, longer)) in
      rw (inserted, fill) rest

  create-IsSound : let (pool, alive) = create capacity in IsSound (pool, [], alive)
  unfolding create
  create-IsSound =
      fill-full capacity 0 (empty capacity) (create-IsRing capacity 0)
        (omega (arith, ap (λ q. length q) (contents-create {A = ℕ} capacity 0)))

  polled :
      (q held : List ℕ)
      → length (poll capacity 0 q).0 + length (taken (poll capacity 0 q).1 held)
        ≡ length q + length held
  polled [] held = refl
  polled (x ∷ q) held = omega arith

  popped :
      (ring : RingBuffer ℕ) (held : List ℕ)
      → IsRing capacity 0 ring
      → length (contents capacity 0 (pop capacity 0 ring).0)
          + length (taken (pop capacity 0 ring).1 held)
        ≡ length (contents capacity 0 ring) + length held
  popped ring held v =
      ap (λ p. length p.0 + length (taken p.1 held)) (pop-poll capacity 0 ring v)
      ∙ polled (contents capacity 0 ring) held

  returned-IsSound :
      (o : Option ℕ) (k : ℕ) (pool : BookUpdatePool) (held : List ℕ) (b : Bool)
      → nth held k ≡ o
      → IsSound (pool, held, b)
      → IsSound (returned o k (pool, held, b))
  unfolding release
  returned-IsSound none k pool held b e v = v
  returned-IsSound (some i) k pool held b e v =
      let gone = length-drop_at held k i e in
      let (inserted, longer) =
        put-room i (record pool { objects = set pool.objects i cleared }) v.ring
          (omega (arith, v.balanced, gone)) in
      record {
        ring = push-IsRing capacity 0 i pool.free_indices v.ring;
        balanced = omega (arith, v.balanced, gone, longer);
        alive = rw (v.alive, inserted) refl;
      }

  step-IsSound : (c : Call) (s : Leased) → IsSound s → IsSound (step c s)
  unfolding step acquire
  step-IsSound acquires (pool, held, b) v = record {
    ring = pop-IsRing capacity 0 pool.free_indices v.ring;
    balanced = popped pool.free_indices held v.ring ∙ v.balanced;
    alive = v.alive;
  }
  step-IsSound (returns k) (pool, held, b) v = returned-IsSound (nth held k) k pool held b refl v

  run-IsSound : (cs : List Call) (s : Leased) → IsSound s → IsSound (run cs s)
  unfolding run
  run-IsSound [] s v = v
  run-IsSound (c ∷ cs) s v = run-IsSound cs (step c s) (step-IsSound c s v)

  -- Neither the constructor nor the return of a lease ever calls `std::terminate`, over any
  -- acquisitions and returns of a new pool; and the pool's free indices and its leases are together
  -- as many as its capacity.
  pub never_terminates :
      (cs : List Call)
      → let (pool, alive) = create capacity in
        let (pool', held, alive') = run cs (pool, [], alive) in
        (alive' ≡ true) × (length (queue pool') + length held ≡ capacity)
  never_terminates cs =
      let (pool, alive) = create capacity in
      let v = run-IsSound cs (pool, [], alive) create-IsSound in (v.alive, v.balanced)
