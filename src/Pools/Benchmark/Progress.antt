-- ===== src/Pools/Benchmark/Progress.antt =====
-- The two threads end, and with which checksum.
use exchange_connectivity.Base.{
  ℕ, zero, suc, ◌+◌, ◌-◌, ◌*◌, ◌≤◌, ◌<◌, ◌≡◌, ◌⊎◌, refl, sym, ap, ◌∙◌, subst, true, false, List,
  arith, length, leb, Bool-cases, inl, inr,
}
use exchange_connectivity.Base.Int.{wrap64}
use exchange_connectivity.Pools.Benchmark.{
  takes, Popped, blocks, nothing, item, pop, Producer, producing, pushing, all_produced, Consumer,
  popping, consuming, all_consumed, Bench, start, produces, consumes, Turn, producer_turn,
  consumer_turn, step, run,
}
use exchange_connectivity.Pools.Benchmark.Messages.{expected}
use exchange_connectivity.Pools.{BookUpdate}
use exchange_connectivity.Pools.Benchmark.Pipeline.{
  ConsumerAt, in_hand, IsSound, at_producer, run-IsSound, start-IsSound, step-IsSound,
}

module _ (message_count : ℕ) where
  -- The turns that a thread has still to take.
  abbrev producer_left : Producer → ℕ → ℕ
  producer_left producing sequence = 2 * (message_count + 1 - sequence) + 1
  producer_left (pushing update) sequence = 2 * (message_count + 1 - sequence)
  producer_left all_produced sequence = 0

  abbrev consumer_left : Consumer → ℕ → ℕ
  consumer_left popping processed = 2 * (message_count - processed) + 1
  consumer_left (consuming update) processed = 2 * (message_count - processed)
  consumer_left all_consumed processed = 0

  abbrev left : Bench → ℕ
  left b = producer_left b.producer b.sequence + consumer_left b.consumer b.messages_processed

  sequence_le :
      (p : Producer) (b : Bench)
      → b.producer ≡ p
      → IsSound message_count b
      → b.sequence ≤ message_count + 1
  sequence_le producing b same v = (at_producer message_count producing b same v).1
  sequence_le (pushing update) b same v =
      omega (arith, (at_producer message_count (pushing update) b same v).1)
  sequence_le all_produced b same v =
      omega (arith, (at_producer message_count all_produced b same v).1)

  producer_less :
      (b : Bench) (p : Producer)
      → b.producer ≡ p
      → IsSound message_count b
      → (left (produces message_count p b) + 1 ≤ left b)
        ⊎ ((produces message_count p b ≡ b) × (b.queue.closed ≡ true))
  producer_less b producing same v =
      let before = ap (λ p. producer_left p b.sequence) same in
      inl (elim (Bool-cases (leb b.sequence message_count)) [
        | inl more ↦ rw more (omega (arith, before))
        | inr past ↦ rw past (omega (arith, before))
      ])
  producer_less b (pushing update) same v = inl (
      omega (
        arith,
        ap (λ p. producer_left p b.sequence) same,
        (at_producer message_count (pushing update) b same v).1,
      ))
  producer_less b all_produced same v =
      inr (refl, (at_producer message_count all_produced b same v).0)

  popped_less :
      (b : Bench) (r : Popped BookUpdate)
      → pop b.queue ≡ r
      → b.consumer ≡ popping
      → (left (takes r b) + 1 ≤ left b) ⊎ ((takes r b ≡ b) × (b.queue.closed ≡ false))
  unfolding pop
  popped_less b blocks e same = inr (refl, ground arith)
  popped_less b nothing e same =
      inl (omega (arith, ap (λ c. consumer_left c b.messages_processed) same))
  popped_less b (item update rest) e same =
      inl (omega (arith, ap (λ c. consumer_left c b.messages_processed) same))

  consumer_less :
      (b : Bench) (c : Consumer)
      → b.consumer ≡ c
      → IsSound message_count b
      → (left (consumes c b) + 1 ≤ left b)
        ⊎ ((consumes c b ≡ b) × ((c ≡ all_consumed) ⊎ (b.queue.closed ≡ false)))
  consumer_less b popping same v = elim (popped_less b (pop b.queue) refl same) [
    | inl less ↦ inl less
    | inr (stays, unshut) ↦ inr (stays, inr unshut)
  ]
  consumer_less b (consuming update) same v =
      let bound = sequence_le b.producer b refl v in
      inl (
        omega (
          arith,
          ap (λ c. consumer_left c b.messages_processed) same,
          ap in_hand same,
          v.counted,
          bound,
        ))
  consumer_less b all_consumed same v = inr (refl, inl refl)

  consumer_le : (b : Bench) → IsSound message_count b → left (consumes b.consumer b) ≤ left b
  consumer_le b v = elim (consumer_less b b.consumer refl v) [
    | inl less ↦ omega (arith, less)
    | inr (stays, why) ↦ rw stays (omega arith)
  ]

  abbrev pub round : Bench → Bench
  round b = step message_count consumer_turn (step message_count producer_turn b)

  -- A round takes a turn off, unless the consumer has ended.
  round_less :
      (b : Bench)
      → IsSound message_count b
      → (left (round b) + 1 ≤ left b) ⊎ (b.consumer ≡ all_consumed)
  unfolding step
  round_less b v = elim (producer_less b b.producer refl v) [
    | inl less ↦ inl (
        omega (
          arith,
          less,
          consumer_le (produces message_count b.producer b)
              (step-IsSound message_count producer_turn b v),
        ))
    | inr (stays, shut) ↦ rw stays (elim (consumer_less b b.consumer refl v) [
      | inl less ↦ inl less
      | inr (same, inl ended) ↦ inr ended
      | inr (same, inr unshut) ↦ absurd (cc (shut, unshut))
    ])
  ]

  abbrev pub rounds : ℕ → Bench → Bench
  rounds zero b = b
  rounds (suc k) b = rounds k (round b)

  produces-consumer :
      (p : Producer) (b : Bench) → (produces message_count p b).consumer ≡ b.consumer
  produces-consumer producing b = ground arith
  produces-consumer (pushing update) b = refl
  produces-consumer all_produced b = refl

  round_ended : (b : Bench) → b.consumer ≡ all_consumed → (round b).consumer ≡ all_consumed
  unfolding step
  round_ended b e =
      let made = produces message_count b.producer b in
      let still = produces-consumer b.producer b ∙ e in
      subst (λ c. (consumes c made).consumer ≡ all_consumed) (sym still) still

  ended_stays :
      (k : ℕ) (b : Bench) → b.consumer ≡ all_consumed → (rounds k b).consumer ≡ all_consumed
  ended_stays zero b e = e
  ended_stays (suc k) b e = ended_stays k (round b) (round_ended b e)

  rounds_end :
      (k : ℕ) (b : Bench)
      → IsSound message_count b
      → left b < k
      → (rounds k b).consumer ≡ all_consumed
  rounds_end zero b v enough = absurd (omega (arith, enough))
  rounds_end (suc k) b v enough = elim (round_less b v) [
    | inl less ↦
        rounds_end k (round b)
          (step-IsSound message_count consumer_turn _
            (step-IsSound message_count producer_turn b v))
          (omega (arith, less, enough))
    | inr ended ↦ ended_stays (suc k) b ended
  ]

  rounds-IsSound :
      (k : ℕ) (b : Bench) → IsSound message_count b → IsSound message_count (rounds k b)
  rounds-IsSound zero b v = v
  rounds-IsSound (suc k) b v =
      rounds-IsSound k (round b)
        (step-IsSound message_count consumer_turn _ (step-IsSound message_count producer_turn b v))

  producer_left_le : (p : Producer) (s : ℕ) → 1 ≤ s → producer_left p s ≤ 2 * message_count + 1
  producer_left_le p s h = ground (arith, h)

  consumer_left_le : (c : Consumer) (n : ℕ) → consumer_left c n ≤ 2 * message_count + 1
  consumer_left_le c n = ground arith

  -- Once the queue is closed the producer has made every message.
  closed_at_end :
      (p : Producer) (b : Bench)
      → b.producer ≡ p
      → b.queue.closed ≡ true
      → IsSound message_count b
      → b.sequence ≡ message_count + 1
  closed_at_end producing b same shut v =
      absurd (cc (shut, (at_producer message_count producing b same v).0))
  closed_at_end (pushing update) b same shut v =
      absurd (cc (shut, (at_producer message_count (pushing update) b same v).0))
  closed_at_end all_produced b same shut v = (at_producer message_count all_produced b same v).1

  sums_at_end :
      (b : Bench)
      → b.consumer ≡ all_consumed
      → IsSound message_count b
      → (b.messages_processed ≡ message_count) × (b.checksum ≡ wrap64 (expected message_count))
  sums_at_end b ended v =
      let (shut, empty) = subst (λ c. ConsumerAt c b.queue b.messages_processed) ended v.consumed in
      let last = closed_at_end b.producer b refl shut v in
      let all : b.messages_processed ≡ message_count =
        omega (arith, v.counted, last, ap in_hand ended, ap length empty) in
      (all, v.summed ∙ ap (λ n. wrap64 (expected n)) all)

-- From whatever state the turns of the two threads have led to, in any order, `4 * message_count + 3` rounds of both
-- end the benchmark without a pool: every message was processed, and the checksum is the closed sum, modulo 2 ^ 64.
pub benchmark_ends :
    (message_count : ℕ) (ts : List Turn)
    → let b = rounds message_count (4 * message_count + 3) (run message_count ts start) in
      (b.consumer ≡ all_consumed)
      × (b.messages_processed ≡ message_count)
      × (b.checksum ≡ wrap64 (expected message_count))
benchmark_ends message_count ts =
    let b = run message_count ts start in
    let v = run-IsSound message_count ts start (start-IsSound message_count) in
    let made = producer_left_le message_count b.producer b.sequence (omega (arith, v.counted)) in
    let used = consumer_left_le message_count b.consumer b.messages_processed in
    let ended = rounds_end message_count (4 * message_count + 3) b v (omega (arith, made, used)) in
    let (all, sum) =
      sums_at_end message_count _ ended
        (rounds-IsSound message_count (4 * message_count + 3) b v) in
    (ended, all, sum)
