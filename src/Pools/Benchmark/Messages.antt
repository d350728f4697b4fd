-- ===== src/Pools/Benchmark/Messages.antt =====
-- What a message adds to the checksum.
use exchange_connectivity.Base.{ℕ, zero, suc, ◌+◌, ◌*◌, ◌/◌, ◌≡◌, ap, ◌∙◌, arith}
use exchange_connectivity.Base.Int.{wrap64, signed64, pattern64}
use exchange_connectivity.Pools.{BookUpdate}
use exchange_connectivity.Pools.Benchmark.{levels, update_level_count, add_levels, produce, consume}

pattern_signed : (n : ℕ) → pattern64 (signed64 (wrap64 n)) ≡ wrap64 n
pattern_signed n = ground arith

wrap64_left : (a b : ℕ) → wrap64 (wrap64 a + b) ≡ wrap64 (a + b)
wrap64_left a b = omega arith

wrap64_right : (a b : ℕ) → wrap64 (a + wrap64 b) ≡ wrap64 (a + b)
wrap64_right a b = omega arith

-- The prices and the quantities, without a wrap-around.
abbrev pub level_total : ℕ → ℕ → ℕ → ℕ
level_total sequence index zero = 0
level_total sequence index (suc n) =
    (100000 + index) + (sequence + index) + level_total sequence (index + 1) n

level_total_sequence :
    (sequence index n : ℕ) → level_total sequence index n ≡ n * sequence + level_total 0 index n
level_total_sequence sequence index zero = omega arith
level_total_sequence sequence index (suc n) =
    grind (arith, level_total_sequence sequence (index + 1) n)

-- The additions wrap around, which the sum may do once and for all.
add_levels_total :
    (checksum sequence index n : ℕ)
    → wrap64 (add_levels checksum (levels sequence index n))
      ≡ wrap64 (checksum + level_total sequence index n)
add_levels_total checksum sequence index zero = ap wrap64 (omega arith)
add_levels_total checksum sequence index (suc n) =
    let price = signed64 (wrap64 (100000 + index)) in
    let quantity = signed64 (wrap64 (sequence + index)) in
    let added = wrap64 (wrap64 (checksum + pattern64 price) + pattern64 quantity) in
    let rest = add_levels_total added sequence (index + 1) n in
    omega (arith, rest, pattern_signed (100000 + index), pattern_signed (sequence + index))

-- What the consumer adds up of a message of that sequence number.
pub message_weight :
    (update : BookUpdate) (sequence : ℕ)
    → wrap64 (consume (produce update sequence)) ≡ wrap64 (51 * sequence + 5002450)
unfolding consume produce
message_weight update sequence =
    let all = add_levels_total sequence sequence 0 update_level_count in
    let each = level_total_sequence sequence 0 update_level_count in
    all ∙ ap wrap64 (omega (arith, each))

-- What every message together comes to, up to that sequence number.
abbrev pub expected : ℕ → ℕ
expected n = 51 * (n * (n + 1) / 2) + 5002450 * n

halve : (x k : ℕ) → (x + 2 * k) / 2 ≡ x / 2 + k
halve x k = omega arith

gauss : (n : ℕ) → (n + 1) * (n + 1 + 1) / 2 ≡ n * (n + 1) / 2 + (n + 1)
gauss n =
    let product : (n + 1) * (n + 1 + 1) ≡ n * (n + 1) + 2 * (n + 1) = grind arith in
    ap (λ x. x / 2) product ∙ halve (n * (n + 1)) (n + 1)

pub expected_next : (n : ℕ) → expected (n + 1) ≡ expected n + (51 * (n + 1) + 5002450)
expected_next n = omega (arith, gauss n)
