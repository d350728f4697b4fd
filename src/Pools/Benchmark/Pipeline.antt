-- ===== src/Pools/Benchmark/Pipeline.antt =====
-- What holds between the turns of the two threads.
use exchange_connectivity.Base.{
  ℕ, ◌+◌, ◌*◌, ◌≤◌, ◌<◌, ◌≡◌, refl, sym, ap, subst, Bool, true, false, List, [], ◌∷◌, ◌++◌, arith,
  length, leb, leb→le, Bool-cases, inl, inr,
}
use exchange_connectivity.Base.Int.{wrap64}
use exchange_connectivity.Pools.{BookUpdate, cleared}
use exchange_connectivity.Pools.Shared.Leases.{length-snoc}
use exchange_connectivity.Pools.Benchmark.{
  Queue, Popped, blocks, nothing, item, push, pop, close, produce, consume, Producer, producing,
  pushing, all_produced, Consumer, popping, consuming, all_consumed, Bench, start, takes, produces,
  consumes, Turn, producer_turn, consumer_turn, step, run,
}
use exchange_connectivity.Pools.Benchmark.Messages.{message_weight, expected, expected_next}

-- The message adds to the checksum what that of the number does.
abbrev Weighs : BookUpdate → ℕ → Type 0
Weighs update sequence = wrap64 (consume update) ≡ wrap64 (51 * sequence + 5002450)

-- The queue holds the messages from that number on.
abbrev InOrder : List BookUpdate → ℕ → Type 0
InOrder [] sequence = Unit
InOrder (update ∷ others) sequence = Weighs update sequence × InOrder others (sequence + 1)

-- 1 while the consumer has a message that is not in the checksum.
abbrev pub in_hand : Consumer → ℕ
in_hand (consuming update) = 1
in_hand popping = 0
in_hand all_consumed = 0

InOrder-push :
    (items : List BookUpdate) (sequence : ℕ) (update : BookUpdate)
    → InOrder items sequence
    → Weighs update (sequence + length items)
    → InOrder (items ++ update ∷ []) sequence
InOrder-push [] sequence update h w = (subst (Weighs update) (omega arith) w, tt)
InOrder-push (u ∷ others) sequence update (h, hs) w =
    (h, InOrder-push others (sequence + 1) update hs (subst (Weighs update) (omega arith) w))

abbrev pub ConsumerAt : Consumer → Queue BookUpdate → ℕ → Type 0
ConsumerAt (consuming update) queue processed = Weighs update (processed + 1)
ConsumerAt all_consumed queue processed = (queue.closed ≡ true) × (queue.items ≡ [])
ConsumerAt popping queue processed = Unit

-- While the queue is open the consumer has not ended, whatever the queue becomes.
ConsumerAt-open :
    (c : Consumer) (queue other : Queue BookUpdate) (processed : ℕ)
    → queue.closed ≡ false
    → ConsumerAt c queue processed
    → ConsumerAt c other processed
ConsumerAt-open (consuming update) queue other processed unshut h = h
ConsumerAt-open all_consumed queue other processed unshut h = absurd (cc (unshut, h.0))
ConsumerAt-open popping queue other processed unshut h = tt

pop-nothing : (q : Queue BookUpdate) → pop q ≡ nothing → (q.closed ≡ true) × (q.items ≡ [])
unfolding pop
pop-nothing q e = ground arith

pop-item :
    (q rest : Queue BookUpdate) (update : BookUpdate)
    → pop q ≡ item update rest
    → (q.items ≡ update ∷ rest.items) × (rest.closed ≡ q.closed)
unfolding pop
pop-item q rest update e = ground arith

module _ (message_count : ℕ) where
  -- How far the producer's loop is: whether the queue is closed, the number.
  abbrev pub ProducerAt : Producer → Bool → ℕ → Type 0
  ProducerAt producing closed sequence = (closed ≡ false) × (sequence ≤ message_count + 1)
  ProducerAt (pushing update) closed sequence =
      (closed ≡ false) × (sequence ≤ message_count) × Weighs update sequence
  ProducerAt all_produced closed sequence = (closed ≡ true) × (sequence ≡ message_count + 1)

  pub record IsSound (b : Bench) : Type 0 where
    pub produced : ProducerAt b.producer b.queue.closed b.sequence
    pub consumed : ConsumerAt b.consumer b.queue b.messages_processed
    pub queued : InOrder b.queue.items (b.messages_processed + in_hand b.consumer + 1)
    pub counted : b.sequence ≡ b.messages_processed + in_hand b.consumer + length b.queue.items + 1
    pub summed : b.checksum ≡ wrap64 (expected b.messages_processed)

  -- What is known of the producer where it is there.
  pub at_producer :
      (p : Producer) (b : Bench)
      → b.producer ≡ p
      → IsSound b
      → ProducerAt p b.queue.closed b.sequence
  at_producer p b same v = subst (λ p. ProducerAt p b.queue.closed b.sequence) same v.produced

  filled :
      (b : Bench)
      → b.producer ≡ producing
      → b.sequence ≤ message_count
      → IsSound b
      → IsSound (record b { producer = pushing (produce cleared b.sequence) })
  filled b same more v = record {
    produced = ((at_producer producing b same v).0, more, message_weight cleared b.sequence);
    consumed = v.consumed;
    queued = v.queued;
    counted = v.counted;
    summed = v.summed;
  }

  closed_queue :
      (b : Bench)
      → b.producer ≡ producing
      → message_count < b.sequence
      → IsSound b
      → IsSound (record b { queue = close b.queue; producer = all_produced })
  unfolding close
  closed_queue b same past v =
      let at = at_producer producing b same v in
      record {
        produced = (refl, omega (arith, past, at.1));
        consumed = ConsumerAt-open b.consumer b.queue _ b.messages_processed at.0 v.consumed;
        queued = v.queued;
        counted = v.counted;
        summed = v.summed;
      }

  pushed :
      (b : Bench) (update : BookUpdate)
      → b.producer ≡ pushing update
      → IsSound b
      → IsSound (produces message_count (pushing update) b)
  unfolding push
  pushed b update same v =
      let at = at_producer (pushing update) b same v in
      record {
        produced = (at.0, omega (arith, at.1));
        consumed = ConsumerAt-open b.consumer b.queue _ b.messages_processed at.0 v.consumed;
        queued =
            InOrder-push b.queue.items _ update v.queued
              (subst (Weighs update) (omega (arith, v.counted)) at.2);
        counted = omega (arith, v.counted, length-snoc b.queue.items update);
        summed = v.summed;
      }

  produces-IsSound :
      (b : Bench) (p : Producer) → b.producer ≡ p → IsSound b → IsSound (produces message_count p b)
  produces-IsSound b producing same v = elim (Bool-cases (leb b.sequence message_count)) [
    | inl more ↦ rw more (filled b same (leb→le b.sequence message_count more) v)
    | inr past ↦ rw past (closed_queue b same (ground (arith, past)) v)
  ]
  produces-IsSound b (pushing update) same v = pushed b update same v
  produces-IsSound b all_produced same v = v

  popped :
      (b : Bench) (r : Popped BookUpdate)
      → pop b.queue ≡ r
      → b.consumer ≡ popping
      → IsSound b
      → IsSound (takes r b)
  popped b blocks e same v = v
  popped b nothing e same v = record {
    produced = v.produced;
    consumed = pop-nothing b.queue e;
    queued = subst (InOrder b.queue.items) (omega (arith, ap in_hand same)) v.queued;
    counted = omega (arith, v.counted, ap in_hand same);
    summed = v.summed;
  }
  popped b (item update rest) e same v =
      let (full, shut) = pop-item b.queue rest update e in
      let next =
        subst (λ us. InOrder us (b.messages_processed + in_hand b.consumer + 1)) full v.queued in
      let at = ap in_hand same in
      record {
        produced = subst (λ c. ProducerAt b.producer c b.sequence) (sym shut) v.produced;
        consumed = subst (Weighs update) (omega (arith, at)) next.0;
        queued = subst (InOrder rest.items) (omega (arith, at)) next.1;
        counted = omega (arith, v.counted, at, ap length full);
        summed = v.summed;
      }

  consumed_one :
      (b : Bench) (update : BookUpdate)
      → b.consumer ≡ consuming update
      → IsSound b
      → IsSound (consumes (consuming update) b)
  consumed_one b update same v =
      let mine = subst (λ c. ConsumerAt c b.queue b.messages_processed) same v.consumed in
      let held = ap in_hand same in
      record {
        produced = v.produced;
        consumed = tt;
        queued = subst (InOrder b.queue.items) (omega (arith, held)) v.queued;
        counted = omega (arith, v.counted, held);
        summed = omega (arith, v.summed, mine, expected_next b.messages_processed);
      }

  consumes-IsSound :
      (b : Bench) (c : Consumer) → b.consumer ≡ c → IsSound b → IsSound (consumes c b)
  consumes-IsSound b popping same v = popped b (pop b.queue) refl same v
  consumes-IsSound b (consuming update) same v = consumed_one b update same v
  consumes-IsSound b all_consumed same v = v

  pub step-IsSound : (t : Turn) (b : Bench) → IsSound b → IsSound (step message_count t b)
  unfolding step
  step-IsSound producer_turn b v = produces-IsSound b b.producer refl v
  step-IsSound consumer_turn b v = consumes-IsSound b b.consumer refl v

  pub run-IsSound : (ts : List Turn) (b : Bench) → IsSound b → IsSound (run message_count ts b)
  unfolding run
  run-IsSound [] b v = v
  run-IsSound (t ∷ ts) b v = run-IsSound ts (step message_count t b) (step-IsSound t b v)

  pub start-IsSound : IsSound start
  unfolding start
  start-IsSound = record {
    produced = (refl, omega arith);
    consumed = tt;
    queued = tt;
    counted = refl;
    summed = refl;
  }
