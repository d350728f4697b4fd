-- ===== src/Pools/Shared/Balance.antt =====
-- The pool's size, what is available and what is on lease.
use exchange_connectivity.Base.{
  ℕ, zero, suc, ◌+◌, ◌≡◌, refl, List, [], ◌∷◌, Option, none, some, arith, length,
}
use exchange_connectivity.Pools.{BookUpdate, cleared}
use exchange_connectivity.Pools.Shared.{BookUpdatePool, create, acquire, size, available, reset}
use exchange_connectivity.Pools.Shared.Leases.{
  Call, acquires, writes, returns, Leased, nth, drop_at, written, step, run, length-snoc,
  length-set_at, drop_at-none,
}

abbrev Balanced : Leased → Type 0
Balanced s = size s.0 ≡ available s.0 + length s.1

pub length-drop_at :
    (held : List ℕ) (k j : ℕ) → nth held k ≡ some j → length held ≡ length (drop_at held k) + 1
length-drop_at [] k j h = cc
length-drop_at (x ∷ xs) zero j h = omega arith
length-drop_at (x ∷ xs) (suc k) j h = omega (arith, length-drop_at xs k j h)

acquire-Balanced :
    (pool : BookUpdatePool) (held free : List ℕ)
    → pool.free_indices ≡ free
    → Balanced (pool, held)
    → Balanced (step acquires (pool, held))
unfolding step acquire size available
acquire-Balanced pool held [] e v =
    let before : length pool.objects ≡ 0 + length held = rw e at v in
    rw e (omega (arith, before, length-snoc pool.objects cleared))
acquire-Balanced pool held (x ∷ free) e v =
    let before : length pool.objects ≡ suc (length free) + length held = rw e at v in
    rw e (omega (arith, before))

written-Balanced :
    (pool : BookUpdatePool) (held : List ℕ) (u : BookUpdate) (o : Option ℕ)
    → Balanced (pool, held)
    → Balanced (written o u pool, held)
unfolding size available
written-Balanced pool held u none v = v
written-Balanced pool held u (some j) v = omega (arith, v, length-set_at pool.objects j u)

returned-Balanced :
    (pool : BookUpdatePool) (held : List ℕ) (k : ℕ) (o : Option ℕ)
    → nth held k ≡ o
    → Balanced (pool, held)
    → Balanced ((reset o pool).0, drop_at held k)
unfolding size available reset
returned-Balanced pool held k none h v = rw (drop_at-none held k h) v
returned-Balanced pool held k (some j) h v =
    omega (arith, v, length-drop_at held k j h, length-set_at pool.objects j cleared)

run-Balanced : (cs : List Call) (s : Leased) → Balanced s → Balanced (run cs s)
unfolding run step
run-Balanced [] s v = v
run-Balanced (acquires ∷ cs) (pool, held) v =
    run-Balanced cs _ (acquire-Balanced pool held pool.free_indices refl v)
run-Balanced (writes k u ∷ cs) (pool, held) v =
    run-Balanced cs _ (written-Balanced pool held u (nth held k) v)
run-Balanced (returns k ∷ cs) (pool, held) v =
    run-Balanced cs _ (returned-Balanced pool held k (nth held k) refl v)

create-Balanced : (n : ℕ) → Balanced (create n, [])
unfolding create size available
create-Balanced zero = omega arith
create-Balanced (suc n) = omega (arith, create-Balanced n, length-snoc (create n).objects cleared)

-- Over any calls on a new pool, its size is the number that it reports as available and the number of
-- the leases that have not been given back.
pub size_balanced :
    (n : ℕ) (cs : List Call)
    → let s = run cs (create n, []) in size s.0 ≡ available s.0 + length s.1
size_balanced n cs = run-Balanced cs (create n, []) (create-Balanced n)
