-- ===== src/Pools/Ring/Threads/Shared.antt =====
-- What holds of the ring between any two steps of the threads, and what a step leaves of it.
use native.Mathlib.Nat.{mod-lt}
use exchange_connectivity.Base.{
  ℕ, suc, ◌+◌, ◌-◌, ◌%◌, ◌<◌, ◌≡◌, sym, ap, ◌∙◌, true, Bool-cases, inl, inr, [], ◌∷◌, ◌++◌, leb,
  arith, get_or, set, length, length-set,
}
use exchange_connectivity.Pools.Ring.{RingBuffer}
use exchange_connectivity.Pools.Ring.Slots.{window, window-last, slots_apart, get_or-set_ne}
use exchange_connectivity.Pools.Ring.Queue.{IsRing, contents, length-window}
use exchange_connectivity.Pools.Ring.Threads.{
  Producer, no_push, reload_read, write_slot, publish_write, Consumer, no_pop, reload_write,
  read_slot, publish_read, begin_push, begin_pop,
}

module _ {A : Type 0} (capacity : ℕ) (blank : A) where
  -- What a thread has found out and nothing that the other does can change.
  abbrev pub Pushing : Producer A → RingBuffer A → Type 0
  Pushing no_push r = Unit
  Pushing (reload_read x) r = Unit
  Pushing (write_slot x) r = r.write_cursor < r.read_cursor + capacity
  Pushing (publish_write x) r =
      (r.write_cursor < r.read_cursor + capacity)
      × (get_or r.buffer (r.write_cursor % capacity) blank ≡ x)

  abbrev pub Popping : Consumer A → RingBuffer A → Type 0
  Popping no_pop r = Unit
  Popping reload_write r = Unit
  Popping read_slot r = r.read_cursor < r.write_cursor
  Popping (publish_read x) r =
      (r.read_cursor < r.write_cursor) × (get_or r.buffer (r.read_cursor % capacity) blank ≡ x)

  pub record IsShared (r : RingBuffer A) (p : Producer A) (c : Consumer A) : Type 0 where
    pub is_ring : IsRing capacity blank r
    pub pushing : Pushing p r
    pub popping : Popping c r

  -- The slot that the producer writes is not one that the consumer reads.
  pub Popping-set :
      (c : Consumer A) (r : RingBuffer A) (x : A)
      → r.write_cursor < r.read_cursor + capacity
      → Popping c r
      → Popping c (record r { buffer = set r.buffer (r.write_cursor % capacity) x })
  Popping-set no_pop r x room h = tt
  Popping-set reload_write r x room h = tt
  Popping-set read_slot r x room h = h
  Popping-set (publish_read y) r x room (behind, same) = (
    behind,
    get_or-set_ne r.buffer (r.write_cursor % capacity) (r.read_cursor % capacity) x blank
          (λ e. slots_apart capacity r.read_cursor r.write_cursor behind room (sym e))
        ∙ same,
  )

  pub Popping-later :
      (c : Consumer A) (r : RingBuffer A)
      → Popping c r
      → Popping c (record r { write_cursor = r.write_cursor + 1 })
  Popping-later no_pop r h = tt
  Popping-later reload_write r h = tt
  Popping-later read_slot r h = omega arith
  Popping-later (publish_read y) r (behind, same) = (omega arith, same)

  pub Pushing-later :
      (p : Producer A) (r : RingBuffer A)
      → Pushing p r
      → Pushing p (record r { read_cursor = r.read_cursor + 1 })
  Pushing-later no_push r h = tt
  Pushing-later (reload_read x) r h = tt
  Pushing-later (write_slot x) r h = omega arith
  Pushing-later (publish_write x) r (room, same) = (omega arith, same)

  pub Popping-cached :
      (c : Consumer A) (r : RingBuffer A) (n : ℕ)
      → Popping c r
      → Popping c (record r { cached_read_cursor = n })
  Popping-cached no_pop r n h = tt
  Popping-cached reload_write r n h = tt
  Popping-cached read_slot r n h = h
  Popping-cached (publish_read y) r n h = h

  pub Pushing-cached :
      (p : Producer A) (r : RingBuffer A) (n : ℕ)
      → Pushing p r
      → Pushing p (record r { cached_write_cursor = n })
  Pushing-cached no_push r n h = tt
  Pushing-cached (reload_read x) r n h = tt
  Pushing-cached (write_slot x) r n h = h
  Pushing-cached (publish_write x) r n h = h

  pub contents_full :
      (r : RingBuffer A)
      → IsRing capacity blank r
      → leb capacity (r.write_cursor - r.read_cursor) ≡ true
      → length (contents capacity blank r) ≡ capacity
  contents_full r v full =
      length-window capacity blank r.buffer r.read_cursor (r.write_cursor - r.read_cursor)
      ∙ ground (arith, full, v.within)

  pub contents_room :
      (r : RingBuffer A)
      → IsRing capacity blank r
      → r.write_cursor < r.read_cursor + capacity
      → length (contents capacity blank r) < capacity
  contents_room r v room =
      let size =
        length-window capacity blank r.buffer r.read_cursor (r.write_cursor - r.read_cursor) in
      omega (arith, size, room, v.behind)

  pub slot_within :
      (r : RingBuffer A)
      → IsRing capacity blank r
      → r.write_cursor < r.read_cursor + capacity
      → r.write_cursor % capacity < length r.buffer
  slot_within r v room = rw v.full_size (mod-lt r.write_cursor (omega (arith, room, v.behind)))

  pub contents_empty :
      (r : RingBuffer A) → leb r.write_cursor r.read_cursor ≡ true → contents capacity blank r ≡ []
  contents_empty r empty =
      let none_left : r.write_cursor - r.read_cursor ≡ 0 = ground (arith, empty) in
      ap (λ k. window capacity blank r.buffer r.read_cursor k) none_left

  -- The contents when the slot behind them is published.
  pub published :
      (r : RingBuffer A) (x : A)
      → IsRing capacity blank r
      → get_or r.buffer (r.write_cursor % capacity) blank ≡ x
      → contents capacity blank (record r { write_cursor = r.write_cursor + 1 })
        ≡ contents capacity blank r ++ x ∷ []
  published r x v same =
      let n = r.write_cursor - r.read_cursor in
      let more : r.write_cursor + 1 - r.read_cursor ≡ suc n = omega (arith, v.behind) in
      let here : r.read_cursor + n ≡ r.write_cursor = omega (arith, v.behind) in
      ap (λ k. window capacity blank r.buffer r.read_cursor k) more
      ∙ (window-last capacity blank r.buffer r.read_cursor n
          ∙ ap (λ y. contents capacity blank r ++ y ∷ [])
              (ap (λ k. get_or r.buffer (k % capacity) blank) here ∙ same))

  pub IsRing-reads :
      (r : RingBuffer A)
      → IsRing capacity blank r
      → IsRing capacity blank (record r { cached_read_cursor = r.read_cursor })
  IsRing-reads r v = record {
    full_size = v.full_size;
    behind = v.behind;
    within = v.within;
    reads_lag = omega arith;
    writes_lag = v.writes_lag;
  }

  pub IsRing-writes :
      (r : RingBuffer A)
      → IsRing capacity blank r
      → IsRing capacity blank (record r { cached_write_cursor = r.write_cursor })
  IsRing-writes r v = record {
    full_size = v.full_size;
    behind = v.behind;
    within = v.within;
    reads_lag = v.reads_lag;
    writes_lag = omega arith;
  }

  pub IsRing-set :
      (r : RingBuffer A) (i : ℕ) (x : A)
      → IsRing capacity blank r
      → IsRing capacity blank (record r { buffer = set r.buffer i x })
  IsRing-set r i x v = record {
    full_size = length-set r.buffer i x ∙ v.full_size;
    behind = v.behind;
    within = v.within;
    reads_lag = v.reads_lag;
    writes_lag = v.writes_lag;
  }

  pub IsRing-write :
      (r : RingBuffer A)
      → IsRing capacity blank r
      → r.write_cursor < r.read_cursor + capacity
      → IsRing capacity blank (record r { write_cursor = r.write_cursor + 1 })
  IsRing-write r v room = record {
    full_size = v.full_size;
    behind = omega (arith, v.behind);
    within = omega (arith, room);
    reads_lag = v.reads_lag;
    writes_lag = omega (arith, v.writes_lag);
  }

  pub IsRing-read :
      (r : RingBuffer A)
      → IsRing capacity blank r
      → r.read_cursor < r.write_cursor
      → IsRing capacity blank (record r { read_cursor = r.read_cursor + 1 })
  IsRing-read r v behind = record {
    full_size = v.full_size;
    behind = omega (arith, behind);
    within = omega (arith, v.within);
    reads_lag = omega (arith, v.reads_lag);
    writes_lag = v.writes_lag;
  }

  pub begin_push-Pushing :
      (x : A) (r : RingBuffer A)
      → IsRing capacity blank r
      → Pushing (begin_push capacity blank x r) r
  unfolding begin_push
  begin_push-Pushing x r v =
      elim (Bool-cases (leb capacity (r.write_cursor - r.cached_read_cursor))) [
        | inl full ↦ rw full tt
        | inr room ↦ rw room (ground (arith, room, v.reads_lag, v.behind))
      ]

  pub begin_pop-Popping :
      (r : RingBuffer A) → IsRing capacity blank r → Popping (begin_pop capacity blank r) r
  unfolding begin_pop
  begin_pop-Popping r v = elim (Bool-cases (leb r.cached_write_cursor r.read_cursor)) [
    | inl empty ↦ rw empty tt
    | inr some_left ↦ rw some_left (ground (arith, some_left, v.writes_lag))
  ]
