-- ===== src/Utilities/Base64/Rounds.antt =====
-- What one byte does, from each of the places where a byte can begin.
use exchange_connectivity.Base.{
  ℕ, zero, suc, ◌+◌, ◌*◌, ◌/◌, ◌%◌, ◌<◌, ◌≡◌, refl, ap, ap₂, sym, ◌∙◌, append_assoc, append-nil,
  Bool, true, ◌&&◌, [], ◌∷◌, ◌++◌, ◌==◌, Bool-cases, inl, inr, arith, holds_below, holds_below_lem,
}
use exchange_connectivity.Base.Text.{Bytes, beq, beq_iff}
use exchange_connectivity.Utilities.Base64.{
  character, State, flush, set_bit, encode_bits, encode_byte,
}

abbrev empty_at : ℕ → ℕ → State
empty_at k e = record { bit_to_set = k; encoded_byte = e; result = [] }

abbrev agree : State → State → Bool
agree s t =
    s.bit_to_set == t.bit_to_set && (s.encoded_byte == t.encoded_byte && beq s.result t.result)

-- From a whole group, from two bits of one, and from four.
abbrev pub first : ℕ → State
first b = record { bit_to_set = 4; encoded_byte = b % 4 * 16; result = character (b / 4) ∷ [] }

abbrev pub second : ℕ → ℕ → State
second e b = record {
  bit_to_set = 2;
  encoded_byte = b % 16 * 4;
  result = character (e * 16 + b / 16) ∷ [];
}

abbrev pub third : ℕ → ℕ → State
third e b = record {
  bit_to_set = 0;
  encoded_byte = b % 64;
  result = character (e * 4 + b / 64) ∷ [];
}

first_table : holds_below (λ b. agree (encode_byte b (empty_at 6 0)) (first b)) 256 ≡ true
unfolding holds_below encode_byte
first_table = refl

second_table :
    holds_below
      (λ x. agree (encode_byte (x % 256) (empty_at 4 (x / 256 * 16))) (second (x / 256) (x % 256)))
      1024
    ≡ true
unfolding holds_below encode_byte
second_table = refl

third_table :
    holds_below
      (λ x. agree (encode_byte (x % 256) (empty_at 2 (x / 256 * 4))) (third (x / 256) (x % 256)))
      4096
    ≡ true
unfolding holds_below encode_byte
third_table = refl

agree_iff : (s t : State) → agree s t ≡ true → s ≡ t
agree_iff s t h = ground (arith, h, beq_iff s.result t.result)

-- What stands in the result before a byte stays before what it adds.
abbrev pub before : Bytes → State → State
before r s = record s { result = r ++ s.result }

flush-before : (r : Bytes) (s : State) → flush (before r s) ≡ before r (flush s)
unfolding flush
flush-before r s = elim (Bool-cases (s.bit_to_set == 0)) [
  | inl done ↦ rw done (
      ap (λ t. record { bit_to_set = 6; encoded_byte = 0; result = t }) (append_assoc r s.result _))
  | inr more ↦ rw more refl
]

encode_bits-before :
    (n byte : ℕ) (r : Bytes) (s : State)
    → encode_bits n byte (before r s) ≡ before r (encode_bits n byte s)
unfolding encode_bits
encode_bits-before zero byte r s = refl
encode_bits-before (suc n) byte r s =
    ap (λ t. encode_bits n byte (set_bit byte n t)) (flush-before r s)
    ∙ encode_bits-before n byte r (set_bit byte n (flush s))

from_empty :
    (k e byte : ℕ) (r : Bytes)
    → encode_byte byte (record { bit_to_set = k; encoded_byte = e; result = r })
      ≡ before r (encode_byte byte (empty_at k e))
unfolding encode_byte
from_empty k e byte r =
    ap (λ t. encode_bits 8 byte (record { bit_to_set = k; encoded_byte = e; result = t }))
      (sym (append-nil r))
    ∙ encode_bits-before 8 byte r (empty_at k e)

-- A byte that begins a group.
pub first_byte :
    (b : ℕ) (r : Bytes)
    → b < 256
    → encode_byte b (record { bit_to_set = 6; encoded_byte = 0; result = r }) ≡ before r (first b)
first_byte b r h =
    from_empty 6 0 b r
    ∙ ap (before r) (
        agree_iff _ _ (
          holds_below_lem (λ x. agree (encode_byte x (empty_at 6 0)) (first x)) 256 b first_table
            h))

-- Where four bits are left of a character, and where two are.
pub second_byte :
    (e b : ℕ) (r : Bytes)
    → e < 4
    → b < 256
    → encode_byte b (record { bit_to_set = 4; encoded_byte = e * 16; result = r })
      ≡ before r (second e b)
second_byte e b r he hb =
    let x = e * 256 + b in
    let quotient : x / 256 ≡ e = omega arith in
    let remainder : x % 256 ≡ b = omega arith in
    let held =
      holds_below_lem
        (λ x.
          agree (encode_byte (x % 256) (empty_at 4 (x / 256 * 16))) (second (x / 256) (x % 256)))
        1024 x second_table (omega arith) in
    from_empty 4 (e * 16) b r
    ∙ ap (before r) (
        agree_iff _ _ (
          ap₂ (λ d m. agree (encode_byte m (empty_at 4 (d * 16))) (second d m)) (sym quotient)
            (sym remainder)
          ∙ held))

pub third_byte :
    (e b : ℕ) (r : Bytes)
    → e < 16
    → b < 256
    → encode_byte b (record { bit_to_set = 2; encoded_byte = e * 4; result = r })
      ≡ before r (third e b)
third_byte e b r he hb =
    let x = e * 256 + b in
    let quotient : x / 256 ≡ e = omega arith in
    let remainder : x % 256 ≡ b = omega arith in
    let held =
      holds_below_lem
        (λ x. agree (encode_byte (x % 256) (empty_at 2 (x / 256 * 4))) (third (x / 256) (x % 256)))
        4096 x third_table (omega arith) in
    from_empty 2 (e * 4) b r
    ∙ ap (before r) (
        agree_iff _ _ (
          ap₂ (λ d m. agree (encode_byte m (empty_at 2 (d * 4))) (third d m)) (sym quotient)
            (sym remainder)
          ∙ held))

-- A whole group is written out by the first bit that follows it.
pub next_group :
    (e b : ℕ) (r : Bytes)
    → encode_byte b (record { bit_to_set = 0; encoded_byte = e; result = r })
      ≡ encode_byte b (record { bit_to_set = 6; encoded_byte = 0; result = r ++ character e ∷ [] })
unfolding encode_byte
next_group e b r = refl
