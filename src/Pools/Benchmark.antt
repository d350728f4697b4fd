-- ===== src/Pools/Benchmark.antt =====
-- `perf_tests` of pools/main.cpp: the blocking queue, what the producer writes and what the consumer adds up, and the
-- two threads of `runBaseline`. They share the queue alone: a turn is a call of the queue, which holds its mutex, or
-- what a thread does with a message of its own. The clock and the greatest size of the queue are left out.
pub mod Messages
pub mod Pipeline
pub mod Progress
pub mod Tests
use exchange_connectivity.Base.{
  ℕ, zero, suc, ◌+◌, ◌%◌, Bool, true, false, List, [], ◌∷◌, ◌++◌, Option, none, some, leb, length,
  get_or, set, if◌then◌else◌,
}
use exchange_connectivity.Base.Int.{wrap64, signed64, pattern64}
use exchange_connectivity.Pools.{buy, PriceLevel, BookUpdate, cleared}

-- `Queue<T>`.
pub record Queue (A : Type 0) : Type 0 where
  pub items : List A
  pub closed : Bool

-- `pop` blocks while the queue is empty and open.
pub data Popped (A : Type 0) : Type 0 where
  blocks nothing : Popped A
  item : A → Queue A → Popped A

module _ {A : Type 0} where
  unfoldable pub push : A → Queue A → Queue A
  push value q = record q { items = q.items ++ value ∷ [] }

  unfoldable pub pop : Queue A → Popped A
  pop q = elim q.items [
    | [] ↦ if q.closed then nothing else blocks
    | value ∷ others ↦ item value (record q { items = others })
  ]

  unfoldable pub close : Queue A → Queue A
  close q = record q { closed = true }

  pub size : Queue A → ℕ
  size q = length q.items

-- The loop of `produce`, `n` levels from that index on; the casts to `int64_t` are written out.
abbrev pub levels : ℕ → ℕ → ℕ → List PriceLevel
levels sequence index zero = []
levels sequence index (suc n) =
    record {
      side = buy;
      price = signed64 (wrap64 (100000 + index));
      quantity = signed64 (wrap64 (sequence + index));
    }
    ∷ levels sequence (index + 1) n

-- `UpdateLevelCount`.
abbrev pub update_level_count : ℕ
update_level_count = 50

unfoldable pub produce : BookUpdate → ℕ → BookUpdate
produce update sequence = record update {
  exchange_timestamp = sequence;
  first_sequence = sequence;
  last_sequence = sequence;
  updates = levels sequence 0 update_level_count;
}

abbrev pub add_levels : ℕ → List PriceLevel → ℕ
add_levels checksum [] = checksum
add_levels checksum (level ∷ others) =
    add_levels (wrap64 (wrap64 (checksum + pattern64 level.price) + pattern64 level.quantity))
      others

unfoldable pub consume : BookUpdate → ℕ
consume update = add_levels update.first_sequence update.updates

-- What each thread does next. The producer has filled its message; the consumer has taken one.
pub data Producer : Type 0 where
  producing all_produced : Producer
  pushing : BookUpdate → Producer

pub data Consumer : Type 0 where
  popping all_consumed : Consumer
  consuming : BookUpdate → Consumer

pub record Bench : Type 0 where
  pub queue : Queue BookUpdate
  pub sequence : ℕ
  pub producer : Producer
  pub consumer : Consumer
  pub checksum : ℕ
  pub messages_processed : ℕ

pub start : Bench
start = record {
  queue = record { items = []; closed = false };
  sequence = 1;
  producer = producing;
  consumer = popping;
  checksum = 0;
  messages_processed = 0;
}

abbrev pub takes : Popped BookUpdate → Bench → Bench
takes blocks b = b
takes nothing b = record b { consumer = all_consumed }
takes (item update queue) b = record b { queue = queue; consumer = consuming update }

-- The loop that pops.
abbrev pub consumes : Consumer → Bench → Bench
consumes popping b = takes (pop b.queue) b
consumes (consuming update) b = record b {
  checksum = wrap64 (b.checksum + consume update);
  messages_processed = b.messages_processed + 1;
  consumer = popping;
}
consumes all_consumed b = b

pub data Turn : Type 0 where
  producer_turn consumer_turn : Turn

-- The number is `MessageCount`.
module _ (message_count : ℕ) where
  -- The loop that pushes, and the end of the queue behind it.
  abbrev pub produces : Producer → Bench → Bench
  produces producing b =
      if leb b.sequence message_count
      then record b { producer = pushing (produce cleared b.sequence) }
      else record b { queue = close b.queue; producer = all_produced }
  produces (pushing update) b = record b {
    queue = push update b.queue;
    sequence = b.sequence + 1;
    producer = producing;
  }
  produces all_produced b = b

  unfoldable pub step : Turn → Bench → Bench
  unfolding push pop close produce consume
  step producer_turn b = produces b.producer b
  step consumer_turn b = consumes b.consumer b

  unfoldable pub run : List Turn → Bench → Bench
  unfolding step
  run [] b = b
  run (t ∷ ts) b = run ts (step t b)
