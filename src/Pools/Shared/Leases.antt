-- ===== src/Pools/Shared/Leases.antt =====
-- No two leases share an object, and each begins with a cleared one.
use exchange_connectivity.Base.{
  is, count, within, is_self, ℕ, zero, suc, ◌+◌, ◌<◌, ◌≡◌, ◌≢◌, refl, sym, ap, ◌∙◌, List, [], ◌∷◌,
  ◌++◌, Option, none, some, arith, length, get_or, set, ℕ_discrete,
}
use exchange_connectivity.Pools.{BookUpdate, cleared}
use exchange_connectivity.Pools.Ring.Slots.{get_or-set_ne}
use exchange_connectivity.Pools.Shared.{BookUpdatePool, create, acquire, size, reset}

-- What a client does: it acquires a lease, writes through its `k`-th one, or gives that back.
pub data Call : Type 0 where
  acquires : Call
  writes : ℕ → BookUpdate → Call
  returns : ℕ → Call

-- The pool with the indices on lease.
abbrev pub Leased : Type 0
Leased = BookUpdatePool × List ℕ

abbrev pub nth : List ℕ → ℕ → Option ℕ
nth [] k = none
nth (x ∷ xs) zero = some x
nth (x ∷ xs) (suc k) = nth xs k

abbrev pub drop_at : List ℕ → ℕ → List ℕ
drop_at [] k = []
drop_at (x ∷ xs) zero = xs
drop_at (x ∷ xs) (suc k) = x ∷ drop_at xs k

abbrev pub written : Option ℕ → BookUpdate → BookUpdatePool → BookUpdatePool
written none u pool = pool
written (some i) u pool = record pool { objects = set pool.objects i u }

unfoldable pub step : Call → Leased → Leased
step acquires (pool, held) = let (pool', i) = acquire pool in (pool', i ∷ held)
step (writes k u) (pool, held) = (written (nth held k) u pool, held)
step (returns k) (pool, held) = ((reset (nth held k) pool).0, drop_at held k)

unfoldable pub run : List Call → Leased → Leased
unfolding step
run [] s = s
run (c ∷ cs) s = run cs (step c s)

-- Each object is free or on lease, and that once; and a free one is cleared.
pub record IsSound (s : Leased) : Type 0 where
  pub shared : (i : ℕ) → count i s.0.free_indices + count i s.1 ≡ within i (length s.0.objects)
  pub blank : (i : ℕ) → 0 < count i s.0.free_indices → get_or s.0.objects i cleared ≡ cleared

pub length-snoc : {A : Type 0} (xs : List A) (x : A) → length (xs ++ x ∷ []) ≡ length xs + 1
length-snoc [] x = omega arith
length-snoc (y ∷ xs) x = omega (arith, length-snoc xs x)

pub length-set_at : {A : Type 0} (xs : List A) (i : ℕ) (x : A) → length (set xs i x) ≡ length xs
length-set_at [] i x = refl
length-set_at (y ∷ xs) zero x = refl
length-set_at (y ∷ xs) (suc i) x = ap suc (length-set_at xs i x)

get_or-set_default : {A : Type 0} (xs : List A) (i : ℕ) (d : A) → get_or (set xs i d) i d ≡ d
get_or-set_default [] i d = refl
get_or-set_default (x ∷ xs) zero d = refl
get_or-set_default (x ∷ xs) (suc i) d = get_or-set_default xs i d

pub get_or-snoc :
    {A : Type 0} (xs : List A) (i : ℕ) (d : A) → get_or (xs ++ d ∷ []) i d ≡ get_or xs i d
get_or-snoc [] zero d = refl
get_or-snoc [] (suc i) d = refl
get_or-snoc (x ∷ xs) zero d = refl
get_or-snoc (x ∷ xs) (suc i) d = get_or-snoc xs i d

get_or-beyond : {A : Type 0} (xs : List A) (d : A) → get_or xs (length xs) d ≡ d
get_or-beyond [] d = refl
get_or-beyond (x ∷ xs) d = get_or-beyond xs d

count-drop_at :
    (i j : ℕ) (held : List ℕ) (k : ℕ)
    → nth held k ≡ some j
    → count i held ≡ is i j + count i (drop_at held k)
count-drop_at i j [] k h = cc
count-drop_at i j (x ∷ xs) zero h = let same : x ≡ j = cc in ap (λ y. is i y + count i xs) same
count-drop_at i j (x ∷ xs) (suc k) h = omega (arith, count-drop_at i j xs k h)

pub drop_at-none : (held : List ℕ) (k : ℕ) → nth held k ≡ none → drop_at held k ≡ held
drop_at-none [] k h = refl
drop_at-none (x ∷ xs) zero h = cc
drop_at-none (x ∷ xs) (suc k) h = ap (λ t. x ∷ t) (drop_at-none xs k h)

acquire-IsSound :
    (pool : BookUpdatePool) (held free : List ℕ)
    → pool.free_indices ≡ free
    → IsSound (pool, held)
    → IsSound (step acquires (pool, held))
unfolding step acquire
acquire-IsSound pool held [] e v = rw e (record {
  shared = λ i.
      let before : 0 + count i held ≡ within i (length pool.objects) = rw e at (v.shared i) in
      ground (arith, before, length-snoc pool.objects cleared);
  blank = λ i h. absurd (omega (arith, h));
})
acquire-IsSound pool held (x ∷ free) e v = rw e (record {
  shared = λ i.
      let before : is i x + count i free + count i held ≡ within i (length pool.objects) =
        rw e at (v.shared i) in
      omega (arith, before);
  blank = λ i h. let found : 0 < count i pool.free_indices = rw e (omega arith) in v.blank i found;
})

-- What is on lease is not free.
held-free : (s : Leased) (k j : ℕ) → IsSound s → nth s.1 k ≡ some j → count j s.0.free_indices ≡ 0
held-free s k j v h = ground (arith, v.shared j, count-drop_at j j s.1 k h, is_self j)

written-IsSound :
    (pool : BookUpdatePool) (held : List ℕ) (k : ℕ) (u : BookUpdate) (o : Option ℕ)
    → nth held k ≡ o
    → IsSound (pool, held)
    → IsSound (written o u pool, held)
written-IsSound pool held k u none h v = v
written-IsSound pool held k u (some j) h v = record {
  shared = λ i. omega (arith, v.shared i, ap (λ m. within i m) (length-set_at pool.objects j u));
  blank = λ i f.
      let apart : j ≢ i = λ e.
        omega (arith, f, ap (λ m. count m pool.free_indices) e, held-free (pool, held) k j v h) in
      get_or-set_ne pool.objects j i u cleared apart ∙ v.blank i f;
}

returned-IsSound :
    (pool : BookUpdatePool) (held : List ℕ) (k : ℕ) (o : Option ℕ)
    → nth held k ≡ o
    → IsSound (pool, held)
    → IsSound ((reset o pool).0, drop_at held k)
unfolding reset
returned-IsSound pool held k none h v = rw (drop_at-none held k h) v
returned-IsSound pool held k (some j) h v = record {
  shared = λ i. omega (
    arith,
    v.shared i,
    count-drop_at i j held k h,
    ap (λ m. within i m) (length-set_at pool.objects j cleared),
  );
  blank = λ i f. elim (ℕ_discrete j i) [
    | yes e ↦
        ap (λ m. get_or (set pool.objects j cleared) m cleared) (sym e)
        ∙ get_or-set_default pool.objects j cleared
    | no apart ↦
        get_or-set_ne pool.objects j i cleared cleared apart ∙ v.blank i (ground (arith, f, apart))
  ];
}

step-IsSound : (c : Call) (s : Leased) → IsSound s → IsSound (step c s)
unfolding step
step-IsSound acquires (pool, held) v = acquire-IsSound pool held pool.free_indices refl v
step-IsSound (writes k u) (pool, held) v = written-IsSound pool held k u (nth held k) refl v
step-IsSound (returns k) (pool, held) v = returned-IsSound pool held k (nth held k) refl v

run-IsSound : (cs : List Call) (s : Leased) → IsSound s → IsSound (run cs s)
unfolding run
run-IsSound [] s v = v
run-IsSound (c ∷ cs) s v = run-IsSound cs (step c s) (step-IsSound c s v)

length-create : (n : ℕ) → length (create n).objects ≡ n
unfolding create
length-create zero = refl
length-create (suc n) = omega (arith, length-snoc (create n).objects cleared, length-create n)

create_blank : (n i : ℕ) → get_or (create n).objects i cleared ≡ cleared
unfolding create
create_blank zero i = refl
create_blank (suc n) i = get_or-snoc (create n).objects i cleared ∙ create_blank n i

pub create-IsSound : (n : ℕ) → IsSound (create n, [])
unfolding create
create-IsSound zero = record { shared = λ i. ground arith; blank = λ i h. refl }
create-IsSound (suc n) =
    let v = create-IsSound n in
    record {
      shared =
          λ i. ground (arith, v.shared i, length-snoc (create n).objects cleared, length-create n);
      blank = λ i h. create_blank (suc n) i;
    }

-- What a new lease borrows.
abbrev pub Fresh : Leased → Leased → Type 0
Fresh (pool, held) (pool', held') =
    (i : ℕ) × (held' ≡ i ∷ held)
    × (count i held ≡ 0)
    × (i < size pool')
    × (get_or pool'.objects i cleared ≡ cleared)

next-Fresh :
    (pool : BookUpdatePool) (held free : List ℕ)
    → pool.free_indices ≡ free
    → IsSound (pool, held)
    → Fresh (pool, held) (step acquires (pool, held))
unfolding step acquire size
next-Fresh pool held [] e v =
    let n = length pool.objects in
    let beyond : within n n ≡ 0 = ground arith in
    rw e (
      n,
      refl,
      omega (arith, v.shared n, beyond),
      omega (arith, length-snoc pool.objects cleared),
      get_or-snoc pool.objects n cleared ∙ get_or-beyond pool.objects cleared,
    )
next-Fresh pool held (x ∷ free) e v =
    let before : is x x + count x free + count x held ≡ within x (length pool.objects) =
      rw e at (v.shared x) in
    let found : 0 < count x pool.free_indices = rw e (omega (arith, is_self x)) in
    rw e (
      x,
      refl,
      ground (arith, before, is_self x),
      ground (arith, before, is_self x),
      v.blank x found,
    )

-- Over any calls on a new pool, the lease that is acquired next borrows an object of the pool that no
-- other lease borrows, and the object is cleared, whatever was written through earlier leases.
pub acquire-Fresh :
    (n : ℕ) (cs : List Call) → let s = run cs (create n, []) in Fresh s (step acquires s)
acquire-Fresh n cs =
    let s = run cs (create n, []) in
    next-Fresh s.0 s.1 s.0.free_indices refl (run-IsSound cs (create n, []) (create-IsSound n))
