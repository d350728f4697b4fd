-- ===== src/Pools/Ring.antt =====
-- `RingBuffer` of pools/main.cpp, for one producer and one consumer. A call is atomic here; what a
-- thread last saw of the other's cursor is kept, as in the source. The cursors are `int64_t` and do
-- not wrap here. The capacity is a power of two, so that `seq & kMask` is `seq % capacity`.
pub mod Slots
pub mod Queue
pub mod Threads
pub mod Tests
use exchange_connectivity.Base.{
  ℕ, ◌+◌, ◌-◌, ◌%◌, Bool, true, false, List, Option, none, some, leb, if◌then◌else◌, get_or, set,
  replicate,
}

pub record RingBuffer (A : Type 0) : Type 0 where
  pub buffer : List A
  pub write_cursor : ℕ
  pub cached_read_cursor : ℕ
  pub read_cursor : ℕ
  pub cached_write_cursor : ℕ

-- `Capacity`, and the value with which the slots begin.
module _ {A : Type 0} (capacity : ℕ) (blank : A) where
  pub create : RingBuffer A
  create = record {
    buffer = replicate capacity blank;
    write_cursor = 0;
    cached_read_cursor = 0;
    read_cursor = 0;
    cached_write_cursor = 0;
  }

  -- The slot is written, and then the cursor published.
  store : RingBuffer A → A → RingBuffer A × Bool
  store r item = (
    record r {
      buffer = set r.buffer (r.write_cursor % capacity) item;
      write_cursor = r.write_cursor + 1;
    },
    true,
  )

  pub push : A → RingBuffer A → RingBuffer A × Bool
  unfolding store
  push item r =
      let refreshed = record r { cached_read_cursor = r.read_cursor } in
      if leb capacity (r.write_cursor - r.cached_read_cursor)
      then (if leb capacity (r.write_cursor - r.read_cursor)
          then (refreshed, false)
          else store refreshed item)
      else store r item

  take_front : RingBuffer A → RingBuffer A × Option A
  take_front r = (
    record r { read_cursor = r.read_cursor + 1 },
    some (get_or r.buffer (r.read_cursor % capacity) blank),
  )

  pub pop : RingBuffer A → RingBuffer A × Option A
  unfolding take_front
  pop r =
      let refreshed = record r { cached_write_cursor = r.write_cursor } in
      if leb r.cached_write_cursor r.read_cursor
      then (if leb r.write_cursor r.read_cursor then (refreshed, none) else take_front refreshed)
      else take_front r
