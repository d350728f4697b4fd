-- ===== src/Feed/Decimal/Agreement.antt =====
-- The unchecked reading of a decimal text and the checked one of binance_connector/binance/parser.cpp.
use native.Mathlib.Nat.{pow-suc, one-le-pow}
use exchange_connectivity.Base.{
  ℕ, zero, suc, ◌+◌, ◌-◌, ◌*◌, ◌^◌, ◌≤◌, ◌<◌, ◌≡◌, ◌≢◌, refl, sym, ap, ◌∙◌, false, Bool-cases, inl,
  inr, [], ◌∷◌, ◌++◌, Option, none, some, ◌==◌, ==_iff, arith, length, All, ok, ◌>>=◌,
}
use exchange_connectivity.Base.Int.{ℤ, pos, negsuc, ◌+ℤ◌, ◌-ℤ◌, ◌*ℤ◌}
use exchange_connectivity.Base.Text.{Bytes}
use exchange_connectivity.Decimal.{decimal_scale, max_value, parse_decimal, limit}
use exchange_connectivity.Decimal.Digits.{IsDigit, value, value-pow, value-lt-pow, quotient_unique}
use exchange_connectivity.Decimal.Literal.{
  Sign, unsigned, plus, minus, signed, point_text, places, minus_ℕ, sign_text, is_minus,
}
use exchange_connectivity.Decimal.Scan.{le-value}
use exchange_connectivity.Decimal.Complete.{cancel_ten, cancel_le, split_units}
use exchange_connectivity.Decimal.Sound.{Denotes, parse_decimal_sound}
use exchange_connectivity.Feed.Decimal.{
  checked, push_digit, integer_part, fractional_part, fill_zeros, fraction, feed_magnitude,
  parse_feed_decimal,
}

pub checked_small : (n : ℕ) → n ≤ max_value → checked (pos n) ≡ ok (pos n)
checked_small n h = ground arith

checked_scaled : (n k : ℕ) → n * k ≤ max_value → checked (pos n *ℤ pos k) ≡ ok (pos (n * k))
unfolding ◌*ℤ◌
checked_scaled n k h = ground arith

push_digit_small :
    (n c : ℕ)
    → IsDigit c
    → n * 10 + (c - b'0') ≤ max_value
    → push_digit (pos n) c ≡ ok (pos (n * 10 + (c - b'0')))
unfolding push_digit ◌+ℤ◌ ◌-ℤ◌
push_digit_small n c d h = rw (checked_scaled n 10 (omega arith)) (ground arith)

le_times : (n k : ℕ) → 0 < k → n ≤ n * k
le_times n zero h = absurd (omega arith)
le_times n (suc k) h = omega arith

-- A number that is only part of the digits is no more than the number that all of them are.
leading_le : (m q v p a : ℕ) → 0 < p → 0 < q → (m * q + v) * p ≡ a * q → m ≤ a
leading_le m q v p a hp hq e =
    let le = le_times (m * q + v) p hp in cancel_le m a q hq (omega (arith, le, e))

fill_zeros-pow : (j n : ℕ) → n * 10 ^ j ≤ max_value → fill_zeros j (pos n) ≡ ok (pos (n * 10 ^ j))
unfolding fill_zeros
fill_zeros-pow zero n h = ap (λ m. ok (pos m)) (omega arith)
fill_zeros-pow (suc j) n h =
    let shift = ap (λ t. n * t) (pow-suc 10 j) in
    let small = le_times (n * 10) (10 ^ j) (one-le-pow j 10 (omega arith)) in
    rw
      (
        checked_scaled n 10 (omega (arith, h, shift)),
        fill_zeros-pow j (n * 10) (omega (arith, h, shift)),
      )
      (ap (λ m. ok (pos m)) (omega (arith, shift)))

integer_part-digits :
    (w rest : Bytes) (n : ℕ)
    → All IsDigit w
    → value n w ≤ max_value
    → integer_part (pos n) (w ++ rest) ≡ integer_part (pos (value n w)) rest
unfolding integer_part
integer_part-digits [] rest n digits fits = refl
integer_part-digits (c ∷ w) rest n (d, digits) fits =
    let next : n * 10 + (c - b'0') ≤ max_value =
      omega (arith, fits, le-value (n * 10 + (c - b'0')) w) in
    let no_point : (c == b'.') ≡ false = ground (arith, d) in
    rw (no_point, push_digit_small n c d next)
      (integer_part-digits w rest (n * 10 + (c - b'0')) digits fits)

-- The digits behind the point, and the zeros that fill them up to eight, are `a` units.
fractional_part-units :
    (s : Bytes) (j f a : ℕ)
    → All IsDigit s
    → a ≤ max_value
    → value f s * 10 ^ j ≡ a * 10 ^ length s
    → (fractional_part j (pos f) s >>= λ (room, part). fill_zeros room part) ≡ ok (pos a)
unfolding fractional_part fill_zeros
fractional_part-units [] zero f a digits fits exact = ap (λ m. ok (pos m)) (omega (arith, exact))
fractional_part-units [] (suc j) f a digits fits exact =
    let units : f * 10 ^ suc j ≡ a = omega (arith, exact) in
    fill_zeros-pow (suc j) f (omega (arith, units)) ∙ ap (λ m. ok (pos m)) units
fractional_part-units (c ∷ s) zero f a (d, digits) fits exact =
    let below = value-lt-pow (c ∷ s) (d, digits) in
    let shifted = value-pow (c ∷ s) f in
    let whole =
      quotient_unique f a (value 0 (c ∷ s)) (10 ^ length (c ∷ s)) below
        (omega (arith, exact, shifted)) in
    ap (λ m. ok (pos m)) (whole.0)
fractional_part-units (c ∷ s) (suc j) f a (d, digits) fits exact =
    let m = f * 10 + (c - b'0') in
    let less : value m s * 10 ^ j ≡ a * 10 ^ length s =
      cancel_ten (value m s) (10 ^ j) a (10 ^ length s)
        (rw (pow-suc 10 j, pow-suc 10 (length s)) at exact) in
    let room = one-le-pow j 10 (omega arith) in
    let digits_room = one-le-pow (length s) 10 (omega arith) in
    let small : m ≤ a =
      leading_le m (10 ^ length s) (value 0 s) (10 ^ j) a room digits_room
        (rw (value-pow s m) at less) in
    rw (push_digit_small f c d (omega (arith, small, fits)))
      (fractional_part-units s j m a digits fits less)

point_text-units :
    (fraction_text : Option Bytes) (a : ℕ)
    → All IsDigit (places fraction_text)
    → a ≤ max_value
    → a * 10 ^ length (places fraction_text) ≡ value 0 (places fraction_text) * decimal_scale
    → fraction (point_text fraction_text) ≡ ok (pos a)
unfolding fraction
point_text-units none a digits fits exact =
    fill_zeros-pow 8 0 (omega arith) ∙ ap (λ m. ok (pos m)) (omega (arith, exact))
point_text-units (some s) a digits fits exact =
    fractional_part-units s 8 0 a digits fits (sym exact)

integer_part-text :
    (w : Bytes) (text : Option Bytes)
    → All IsDigit w
    → value 0 w ≤ max_value
    → integer_part (pos 0) (w ++ point_text text) ≡ ok (pos (value 0 w), point_text text)
unfolding integer_part
integer_part-text w none digits fits = integer_part-digits w [] 0 digits fits
integer_part-text w (some s) digits fits = integer_part-digits w (b'.' ∷ s) 0 digits fits

checked_sum : (n m : ℕ) → n + m ≤ max_value → checked (pos n +ℤ pos m) ≡ ok (pos (n + m))
unfolding ◌+ℤ◌
checked_sum n m h = ground arith

feed_magnitude-units :
    (w : Bytes) (fraction_text : Option Bytes) (n : ℕ)
    → All IsDigit w
    → All IsDigit (places fraction_text)
    → n ≤ max_value
    → n * 10 ^ length (places fraction_text)
      ≡ (value 0 w * 10 ^ length (places fraction_text) + value 0 (places fraction_text))
        * decimal_scale
    → feed_magnitude (w ++ point_text fraction_text) ≡ ok (pos n)
unfolding feed_magnitude
feed_magnitude-units w text n whole behind fits exact =
    let positive = one-le-pow (length (places text)) 10 (omega arith) in
    let (a, split, rest) =
      split_units (value 0 w) (10 ^ length (places text)) (value 0 (places text)) n positive
        exact in
    let scaled = checked_scaled (value 0 w) decimal_scale (omega (arith, split, fits)) in
    let sum = checked_sum (value 0 w * decimal_scale) a (omega (arith, split, fits)) in
    rw
      (
        integer_part-text w text whole (omega (arith, split, fits)),
        point_text-units text a behind (omega (arith, split, fits)) rest,
        scaled,
        sum,
      )
      (ap (λ m. ok (pos m)) (sym split))

unsigned_head :
    (w : Bytes) (text : Option Bytes)
    → All IsDigit w
    → parse_feed_decimal (w ++ point_text text) ≡ feed_magnitude (w ++ point_text text)
unfolding parse_feed_decimal
unsigned_head [] none digits = refl
unsigned_head [] (some s) digits = refl
unsigned_head (c ∷ w) text (d, digits) = ground arith

negated : (n : ℕ) → n ≤ max_value → checked (pos 0 -ℤ pos n) ≡ ok (minus_ℕ n)
unfolding ◌-ℤ◌
negated zero h = refl
negated (suc n) h = ground arith

sign_agrees :
    (sign : Sign) (w : Bytes) (text : Option Bytes) (n : ℕ)
    → sign ≢ plus
    → All IsDigit w
    → feed_magnitude (w ++ point_text text) ≡ ok (pos n)
    → n ≤ max_value
    → parse_feed_decimal (sign_text sign ++ (w ++ point_text text)) ≡ ok (signed sign n)
unfolding parse_feed_decimal ◌-ℤ◌
sign_agrees unsigned w text n h digits e fits = unsigned_head w text digits ∙ e
sign_agrees plus w text n h digits e fits = absurd (h refl)
sign_agrees minus w text n h digits e fits = rw e (negated n fits)

units_small :
    (sign : Sign) (n : ℕ)
    → n ≤ limit (is_minus sign)
    → signed sign n ≢ negsuc max_value
    → n ≤ max_value
units_small unsigned n fits larger = fits
units_small plus n fits larger = fits
units_small minus zero fits larger = omega arith
units_small minus (suc n) fits larger = elim (Bool-cases (n == max_value)) [
  | inl same ↦ absurd (larger (ap negsuc ((==_iff n max_value).0 same)))
  | inr other ↦ ground (arith, fits, other)
]

denoted_agrees :
    (s : Bytes) (v : ℤ)
    → ((t : Bytes) → s ≢ b'+' ∷ t)
    → v ≢ negsuc max_value
    → Denotes s v
    → parse_feed_decimal s ≡ ok v
denoted_agrees s v no_plus larger r =
    let t = r.literal in
    let not_plus : t.sign ≢ plus = λ e.
      no_plus (t.whole ++ point_text t.fraction)
        (r.spelled ∙ ap (λ sign. sign_text sign ++ (t.whole ++ point_text t.fraction)) e) in
    let small = units_small t.sign r.units r.fits (λ e. larger (r.result ∙ e)) in
    let magnitude =
      feed_magnitude-units t.whole t.fraction r.units (r.well_formed.whole_digits)
        (r.well_formed.fraction_digits) small r.exact in
    rw (r.spelled, r.result)
      (sign_agrees t.sign t.whole t.fraction r.units not_plus (r.well_formed.whole_digits) magnitude
        small)

-- A text that the checked `parseDecimal` of binance_connector accepts is read as the same number by the unchecked
-- one, without an overflow on the way, provided that it does not begin with a plus sign and that the number is
-- not the smallest `std::int64_t`.
pub parse_feed_decimal_agrees :
    (s : Bytes) (v : ℤ)
    → ((t : Bytes) → s ≢ b'+' ∷ t)
    → v ≢ negsuc max_value
    → parse_decimal s ≡ ok v
    → parse_feed_decimal s ≡ ok v
parse_feed_decimal_agrees s v no_plus larger e =
    denoted_agrees s v no_plus larger (parse_decimal_sound s v e)
