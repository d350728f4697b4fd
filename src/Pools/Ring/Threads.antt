-- ===== src/Pools/Ring/Threads.antt =====
-- `push` and `pop` of `RingBuffer` in pools/main.cpp as two threads run them, one that pushes and one that
-- pops: each load, store and access to a slot is a step of its own, and the steps of the threads alternate
-- in any way. The release stores and acquire loads of the cursors make every step see those before it.
pub mod Queue
pub mod Shared
pub mod Steps
pub mod Linear
pub mod Tests
use exchange_connectivity.Base.{
  ℕ, ◌+◌, ◌-◌, ◌%◌, List, [], ◌∷◌, ◌++◌, Option, none, some, leb, if◌then◌else◌, get_or, set,
}
use exchange_connectivity.Pools.Ring.{RingBuffer, create}

-- Where a call of `push` has got to: nowhere, or before it loads the read cursor, writes its slot or publishes it.
pub data Producer (A : Type 0) : Type 0 where
  no_push : Producer A
  reload_read : A → Producer A
  write_slot : A → Producer A
  publish_write : A → Producer A

-- Where a call of `pop` has got to; it has its element before it publishes that the slot is free.
pub data Consumer (A : Type 0) : Type 0 where
  no_pop : Consumer A
  reload_write : Consumer A
  read_slot : Consumer A
  publish_read : A → Consumer A

pub record Threads (A : Type 0) : Type 0 where
  pub ring : RingBuffer A
  pub producer : Producer A
  pub consumer : Consumer A

-- What the calls return.
pub data Outcome (A : Type 0) : Type 0 where
  accepted : A → Outcome A
  refused : A → Outcome A
  taken : A → Outcome A
  found_empty : Outcome A

pub data Turn (A : Type 0) : Type 0 where
  push_call : A → Turn A
  producer_turn : Turn A
  pop_call : Turn A
  consumer_turn : Turn A

module _ {A : Type 0} (capacity : ℕ) (blank : A) where
  -- The load of the own cursor, and the test against the one that is remembered.
  pub begin_push : A → RingBuffer A → Producer A
  begin_push item r =
      if leb capacity (r.write_cursor - r.cached_read_cursor)
      then reload_read item
      else write_slot item

  pub begin_pop : RingBuffer A → Consumer A
  begin_pop r = if leb r.cached_write_cursor r.read_cursor then reload_write else read_slot

  pub push_step : Producer A → Threads A → Threads A × List (Outcome A)
  push_step no_push t = (t, [])
  push_step (reload_read item) t =
      let r = record t.ring { cached_read_cursor = t.ring.read_cursor } in
      if leb capacity (t.ring.write_cursor - t.ring.read_cursor)
      then (record t { ring = r; producer = no_push }, refused item ∷ [])
      else (record t { ring = r; producer = write_slot item }, [])
  push_step (write_slot item) t =
      let r = record t.ring { buffer = set t.ring.buffer (t.ring.write_cursor % capacity) item } in
      (record t { ring = r; producer = publish_write item }, [])
  push_step (publish_write item) t =
      let r = record t.ring { write_cursor = t.ring.write_cursor + 1 } in
      (record t { ring = r; producer = no_push }, accepted item ∷ [])

  pub pop_step : Consumer A → Threads A → Threads A × List (Outcome A)
  pop_step no_pop t = (t, [])
  pop_step reload_write t =
      let r = record t.ring { cached_write_cursor = t.ring.write_cursor } in
      if leb t.ring.write_cursor t.ring.read_cursor
      then (record t { ring = r; consumer = no_pop }, found_empty ∷ [])
      else (record t { ring = r; consumer = read_slot }, [])
  pop_step read_slot t =
      let item = get_or t.ring.buffer (t.ring.read_cursor % capacity) blank in
      (record t { consumer = publish_read item }, [])
  pop_step (publish_read item) t =
      let r = record t.ring { read_cursor = t.ring.read_cursor + 1 } in
      (record t { ring = r; consumer = no_pop }, taken item ∷ [])

  -- A thread begins a call only when it has returned from the last one.
  pub call_push : A → Producer A → Threads A → Threads A
  unfolding begin_push
  call_push item no_push t = record t { producer = begin_push item t.ring }
  call_push item (reload_read other) t = t
  call_push item (write_slot other) t = t
  call_push item (publish_write other) t = t

  pub call_pop : Consumer A → Threads A → Threads A
  unfolding begin_pop
  call_pop no_pop t = record t { consumer = begin_pop t.ring }
  call_pop reload_write t = t
  call_pop read_slot t = t
  call_pop (publish_read other) t = t

  pub turn : Turn A → Threads A → Threads A × List (Outcome A)
  unfolding call_push call_pop push_step pop_step
  turn (push_call item) t = (call_push item t.producer t, [])
  turn producer_turn t = push_step t.producer t
  turn pop_call t = (call_pop t.consumer t, [])
  turn consumer_turn t = pop_step t.consumer t

  unfoldable pub run_turns : List (Turn A) → Threads A → Threads A × List (Outcome A)
  unfolding turn
  run_turns [] t = (t, [])
  run_turns (e ∷ es) t =
      let (t', first) = turn e t in let (t'', others) = run_turns es t' in (t'', first ++ others)

  abbrev pub at_rest : Threads A
  at_rest = record { ring = create capacity blank; producer = no_push; consumer = no_pop }
