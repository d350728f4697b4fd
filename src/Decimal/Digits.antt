-- ===== src/Decimal/Digits.antt =====
-- Runs of decimal digits and the numbers that they spell.
use native.Mathlib.Nat.{pow-suc, pow-zero, add-zero, add-suc, mul_assoc}
use exchange_connectivity.Base.{
  ℕ, zero, suc, ◌+◌, ◌-◌, ◌*◌, ◌^◌, ◌≤◌, ◌<◌, ◌≡◌, refl, [], ◌∷◌, ◌++◌, arith, length, All,
  replicate,
}
use exchange_connectivity.Base.Text.{Bytes}

abbrev pub IsDigit : ℕ → Type 0
IsDigit byte = (b'0' ≤ byte) × (byte ≤ b'9')

-- The number that digits spell behind `n`.
abbrev pub value : ℕ → Bytes → ℕ
value n [] = n
value n (c ∷ s) = value (n * 10 + (c - b'0')) s

pub pow-add : (a m n : ℕ) → a ^ (m + n) ≡ a ^ m * a ^ n
pow-add a m zero = rw (add-zero, pow-zero) (omega arith)
pow-add a m (suc n) = simp (add-suc, pow-suc, pow-add a m n, mul_assoc)

shift_one : (n d p v : ℕ) → (n * 10 + d) * p + v ≡ n * (p * 10) + ((0 + d) * p + v)
shift_one n d p v = omega arith

pub value-pow : (s : Bytes) (n : ℕ) → value n s ≡ n * 10 ^ length s + value 0 s
value-pow [] n = omega arith
value-pow (c ∷ s) n =
    rw (value-pow s (n * 10 + (c - b'0')), value-pow s (0 + (c - b'0')), pow-suc)
      (shift_one n (c - b'0') (10 ^ length s) (value 0 s))

pub value-append : (s t : Bytes) (n : ℕ) → value n (s ++ t) ≡ value (value n s) t
value-append [] t n = refl
value-append (c ∷ s) t n = value-append s t (n * 10 + (c - b'0'))

pub value-lt-pow : (s : Bytes) → All IsDigit s → value 0 s < 10 ^ length s
value-lt-pow [] d = omega arith
value-lt-pow (c ∷ s) d =
    grind (
      arith,
      value-pow (c ∷ s) 0,
      value-pow s (c - b'0'),
      value-lt-pow s d.1,
      pow-suc 10 (length s),
    )

pub value-zeros : (k n : ℕ) → value n (replicate k b'0') ≡ n * 10 ^ k
value-zeros zero n = omega arith
value-zeros (suc k) n = rw (value-zeros k (n * 10 + 0), pow-suc) (omega arith)

-- A number has one quotient and one remainder.
pub quotient_unique : (a b r q : ℕ) → r < q → a * q + r ≡ b * q → (a ≡ b) × (r ≡ 0)
quotient_unique zero zero r q h e = omega arith
quotient_unique zero (suc b) r q h e = absurd (omega arith)
quotient_unique (suc a) zero r q h e = absurd (omega arith)
quotient_unique (suc a) (suc b) r q h e =
    let ih = quotient_unique a b r q h (omega arith) in omega (arith, ih)
