-- ===== src/Pools/Ring/Queue.antt =====
-- The ring as a bounded queue.
use exchange_connectivity.Base.{
  ℕ, zero, suc, ◌+◌, ◌-◌, ◌%◌, ◌≤◌, ◌<◌, ◌≡◌, refl, ap, ◌∙◌, Bool, true, false, List, [], ◌∷◌, ◌++◌,
  Option, none, some, arith, length, length-set, length-replicate, get_or, set, ltb, if◌then◌else◌,
  Bool-cases, ltb→lt, inl, inr,
}
use exchange_connectivity.Pools.Ring.{RingBuffer, create, push, pop}
use exchange_connectivity.Pools.Ring.Slots.{window, window-push}

module _ {A : Type 0} (capacity : ℕ) (blank : A) where
  -- The elements between the cursors, the oldest first.
  abbrev pub contents : RingBuffer A → List A
  contents r = window capacity blank r.buffer r.read_cursor (r.write_cursor - r.read_cursor)

  -- The cursors are at most a round apart, and what each side remembers of the other's lags behind.
  pub record IsRing (r : RingBuffer A) : Type 0 where
    pub full_size : length r.buffer ≡ capacity
    pub behind : r.read_cursor ≤ r.write_cursor
    pub within : r.write_cursor ≤ r.read_cursor + capacity
    pub reads_lag : r.cached_read_cursor ≤ r.read_cursor
    pub writes_lag : r.cached_write_cursor ≤ r.write_cursor

  pub create-IsRing : IsRing (create capacity blank)
  unfolding create
  create-IsRing = record {
    full_size = length-replicate capacity blank;
    behind = omega arith;
    within = omega arith;
    reads_lag = omega arith;
    writes_lag = omega arith;
  }

  pub contents-create : contents (create capacity blank) ≡ []
  unfolding create
  contents-create = refl

  pub push-IsRing : (x : A) (r : RingBuffer A) → IsRing r → IsRing (push capacity blank x r).0
  unfolding push
  push-IsRing x r v = ground (arith, length-set r.buffer (r.write_cursor % capacity) x)

  pub pop-IsRing : (r : RingBuffer A) → IsRing r → IsRing (pop capacity blank r).0
  unfolding pop
  pop-IsRing r v = ground arith

  stored :
      (x : A) (r : RingBuffer A)
      → IsRing r
      → r.write_cursor < r.read_cursor + capacity
      → window capacity blank
          (set r.buffer (r.write_cursor % capacity) x)
          r.read_cursor
          (r.write_cursor + 1 - r.read_cursor)
        ≡ contents r ++ x ∷ []
  stored x r v room =
      let n = r.write_cursor - r.read_cursor in
      let here : r.write_cursor ≡ r.read_cursor + n = omega (arith, v.behind) in
      let next : r.write_cursor + 1 - r.read_cursor ≡ suc n = omega (arith, v.behind) in
      ap (λ k. window capacity blank (set r.buffer (r.write_cursor % capacity) x) r.read_cursor k)
        next
      ∙ (ap (λ w. window capacity blank (set r.buffer (w % capacity) x) r.read_cursor (suc n)) here
          ∙ window-push capacity blank r.buffer r.read_cursor n x v.full_size
              (omega (arith, v.behind)))

  pub taken_front :
      (r : RingBuffer A)
      → r.read_cursor < r.write_cursor
      → contents r
        ≡ get_or r.buffer (r.read_cursor % capacity) blank
          ∷ window capacity blank r.buffer
              (r.read_cursor + 1)
              (r.write_cursor - (r.read_cursor + 1))
  taken_front r h =
      let n = r.write_cursor - (r.read_cursor + 1) in
      let size : r.write_cursor - r.read_cursor ≡ suc n = omega arith in
      let next : suc r.read_cursor ≡ r.read_cursor + 1 = omega arith in
      ap (λ k. window capacity blank r.buffer r.read_cursor k) size
      ∙ ap
          (λ i.
            get_or r.buffer (r.read_cursor % capacity) blank ∷ window capacity blank r.buffer i n)
          next

  pub length-window : (buffer : List A) (i n : ℕ) → length (window capacity blank buffer i n) ≡ n
  length-window buffer i zero = refl
  length-window buffer i (suc n) = ap suc (length-window buffer (suc i) n)

  -- The queue that the ring stands for.
  abbrev pub offer : A → List A → List A × Bool
  offer x q = if ltb (length q) capacity then (q ++ x ∷ [], true) else (q, false)

  abbrev pub poll : List A → List A × Option A
  poll [] = ([], none)
  poll (x ∷ q) = (q, some x)

  pub push-offer :
      (x : A) (r : RingBuffer A)
      → IsRing r
      → (contents (push capacity blank x r).0, (push capacity blank x r).1) ≡ offer x (contents r)
  unfolding push
  push-offer x r v =
      ground
        (arith, stored x r v, length-window r.buffer r.read_cursor (r.write_cursor - r.read_cursor))

  contents_none : (r : RingBuffer A) → ltb r.read_cursor r.write_cursor ≡ false → contents r ≡ []
  contents_none r h =
      let none_left : r.write_cursor - r.read_cursor ≡ 0 = ground arith in
      ap (λ k. window capacity blank r.buffer r.read_cursor k) none_left

  pub pop-poll :
      (r : RingBuffer A)
      → IsRing r
      → (contents (pop capacity blank r).0, (pop capacity blank r).1) ≡ poll (contents r)
  unfolding pop
  pop-poll r v = elim (Bool-cases (ltb r.read_cursor r.write_cursor)) [
    | inl h ↦ ground (arith, h, taken_front r (ltb→lt r.read_cursor r.write_cursor h))
    | inr h ↦ ground (arith, h, contents_none r h)
  ]

-- One call of either side, and what it returns.
pub data Call (A : Type 0) : Type 0 where
  pushes : A → Call A
  pops : Call A

pub data Answer (A : Type 0) : Type 0 where
  pushed : Bool → Answer A
  popped : Option A → Answer A

module _ {A : Type 0} (capacity : ℕ) (blank : A) where
  abbrev ring_step : Call A → RingBuffer A → RingBuffer A × Answer A
  ring_step (pushes x) r = let (r', b) = push capacity blank x r in (r', pushed b)
  ring_step pops r = let (r', o) = pop capacity blank r in (r', popped o)

  abbrev queue_step : Call A → List A → List A × Answer A
  queue_step (pushes x) q = let (q', b) = offer capacity blank x q in (q', pushed b)
  queue_step pops q = let (q', o) = poll capacity blank q in (q', popped o)

  unfoldable pub ring_run : List (Call A) → RingBuffer A → List (Answer A)
  ring_run [] r = []
  ring_run (c ∷ cs) r = let (r', a) = ring_step c r in a ∷ ring_run cs r'

  unfoldable pub queue_run : List (Call A) → List A → List (Answer A)
  queue_run [] q = []
  queue_run (c ∷ cs) q = let (q', a) = queue_step c q in a ∷ queue_run cs q'

  step-IsRing :
      (c : Call A) (r : RingBuffer A)
      → IsRing capacity blank r
      → IsRing capacity blank (ring_step c r).0
  step-IsRing (pushes x) r v = push-IsRing capacity blank x r v
  step-IsRing pops r v = pop-IsRing capacity blank r v

  step-refines :
      (c : Call A) (r : RingBuffer A)
      → IsRing capacity blank r
      → (contents capacity blank (ring_step c r).0, (ring_step c r).1)
        ≡ queue_step c (contents capacity blank r)
  step-refines (pushes x) r v = ap (λ p. (p.0, pushed p.1)) (push-offer capacity blank x r v)
  step-refines pops r v = ap (λ p. (p.0, popped p.1)) (pop-poll capacity blank r v)

  run-refines :
      (cs : List (Call A)) (r : RingBuffer A)
      → IsRing capacity blank r
      → ring_run cs r ≡ queue_run cs (contents capacity blank r)
  unfolding ring_run queue_run
  run-refines [] r v = refl
  run-refines (c ∷ cs) r v =
      let r' = (ring_step c r).0 in
      ap (λ t. (ring_step c r).1 ∷ t) (run-refines cs r' (step-IsRing c r v))
      ∙ ap (λ p. p.1 ∷ queue_run cs p.0) (step-refines c r v)

  -- Over any sequence of pushes and pops on a new ring buffer, each call returns what it would return
  -- on a first-in first-out queue of the same capacity: a push is refused exactly while the queue is
  -- full, a pop finds nothing exactly while it is empty, and elements come out in the order in which
  -- they went in.
  pub ring_run-queue_run :
      (cs : List (Call A)) → ring_run cs (create capacity blank) ≡ queue_run cs []
  unfolding create
  ring_run-queue_run cs = run-refines cs (create capacity blank) (create-IsRing capacity blank)
