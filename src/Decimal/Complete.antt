-- ===== src/Decimal/Complete.antt =====
-- `parse_decimal` accepts every decimal literal whose value is representable.
use mathlib.Core.List.{append-ne-nil_of_right_ne-nil, cons-ne-nil}
use native.Mathlib.Nat.{pow-suc, one-le-pow}
use exchange_connectivity.Base.{
  ℕ, zero, suc, ◌+◌, ◌-◌, ◌*◌, ◌/◌, ◌^◌, ◌≤◌, ◌<◌, ◌≡◌, refl, ◌∙◌, ap, sym, Bool, true, false, [],
  ◌∷◌, ◌++◌, arith, length, All, ok, some, none, ◌>>=◌, ◌≢◌, Option, append-nil, ◌||◌,
}
use exchange_connectivity.Base.Text.{Bytes}
use exchange_connectivity.Decimal.{
  decimal_scale, Progress, scan, limit, start, finish, parse_magnitude, parse_decimal,
}
use exchange_connectivity.Decimal.Digits.{IsDigit, value, value-pow, value-lt-pow, quotient_unique}
use exchange_connectivity.Decimal.Literal.{
  Sign, unsigned, plus, minus, Literal, IsLiteral, HasDigits, Units, spell, signed, is_minus,
  point_text, sign_text,
}
use exchange_connectivity.Decimal.Scan.{
  largest_whole, seen, in_whole, in_fraction, whole_digit, point_step, fraction_digit, spare_zero,
  le-value,
}
use exchange_connectivity.Decimal.Finish.{with_sign, total, HasSeen, finish_complete}
use exchange_connectivity.Decimal.Sound.{
  Reads, room_left, weight_suc, fraction_Reads, total-Reads, limit-whole,
}

pub cancel_ten : (x p a q : ℕ) → x * (p * 10) ≡ a * (q * 10) → x * p ≡ a * q
cancel_ten x p a q e = omega (arith, e)

-- Once the scale is full, an exact value leaves nothing but zeros.
spare_digits :
    (f d v a q : ℕ)
    → v < q
    → d < 10
    → (f * 10 + d) * q + v ≡ a * (q * 10)
    → (d ≡ 0) × (f * q + v ≡ a * q)
spare_digits f d v a q small digit e =
    let (top, rest) = quotient_unique (f * 10 + d) (a * 10) v q small (omega (arith, e)) in
    let same : f ≡ a = omega arith in (omega arith, rw (same, rest) (omega arith))

pub cancel_right : (a b q : ℕ) → 0 < q → a * q ≡ b * q → a ≡ b
cancel_right a b q h e = (quotient_unique a b 0 q h (omega (arith, e))).0

pub cancel_le : (a b q : ℕ) → 0 < q → a * q ≤ b * q → a ≤ b
cancel_le a b q h e = grind arith

module _ (bound : ℕ) (large : bound / decimal_scale ≡ largest_whole) where
  fraction_total :
      (s : Bytes) (j n f scale a : ℕ) (h k : Bool)
      → All IsDigit s
      → f < scale
      → scale * 10 ^ j ≡ decimal_scale
      → value f s * 10 ^ j ≡ a * 10 ^ length s
      → (q : Progress) × (scan bound (in_fraction n h f scale k) s ≡ ok q)
  unfolding scan
  fraction_total [] j n f scale a h k digits small weight exact = (in_fraction n h f scale k, refl)
  fraction_total (c ∷ s) zero n f scale a h k (d, digits) small weight exact =
      let (no_digit, rest) =
        spare_digits f (c - b'0') (value 0 s) a (10 ^ length s) (value-lt-pow s digits)
          (omega (arith, d))
          (omega (
            arith,
            exact,
            value-pow s (f * 10 + (c - b'0')),
            pow-suc 10 (length s),
            ap (λ t. a * t) (pow-suc 10 (length s)),
          )) in
      let is_zero : c ≡ b'0' = omega (arith, d) in
      let full : scale ≡ decimal_scale = omega arith in
      rw (is_zero, full, spare_zero bound large n f h k)
        (fraction_total s zero n f decimal_scale a h true digits (omega arith) refl
          (omega (arith, rest, value-pow s f)))
  fraction_total (c ∷ s) (suc j) n f scale a h k (d, digits) small weight exact =
      let left =
        room_left scale (10 ^ j) (one-le-pow j 10 (omega arith)) (weight_suc scale j weight) in
      rw (fraction_digit bound large n f scale c h k d small left) (
        fraction_total s j n (f * 10 + (c - b'0')) (scale * 10) a h true digits (omega (arith, d))
          (omega (arith, weight_suc scale j weight))
          (cancel_ten _ (10 ^ j) a (10 ^ length s)
            (rw (pow-suc 10 j, pow-suc 10 (length s)) at exact)))

  scan-whole :
      (w rest : Bytes) (n : ℕ) (h : Bool)
      → All IsDigit w
      → value n w ≤ largest_whole
      → scan bound (in_whole n h) (w ++ rest) ≡ scan bound (in_whole (value n w) (seen h w)) rest
  unfolding scan
  scan-whole [] rest n h digits fits = refl
  scan-whole (c ∷ w) rest n h (d, digits) fits =
      rw (whole_digit bound large n c h d (omega (arith, fits, le-value (n * 10 + (c - b'0')) w)))
        (scan-whole w rest (n * 10 + (c - b'0')) true digits fits)

seen-true : (s : Bytes) → seen true s ≡ true
seen-true [] = refl
seen-true (c ∷ s) = seen-true s

ne-nil-seen : (s : Bytes) → s ≢ [] → seen false s ≡ true
ne-nil-seen [] h = absurd (h refl)
ne-nil-seen (c ∷ s) h = seen-true s

parse_magnitude-scan :
    (negative : Bool) (s : Bytes)
    → s ≢ []
    → parse_magnitude negative s ≡ (scan (limit negative) start s >>= finish negative)
unfolding parse_magnitude
parse_magnitude-scan negative [] h = absurd (h refl)
parse_magnitude-scan negative (c ∷ s) h = refl

-- The digits before the point are no more than the loop allows.
whole_fits :
    (w q v n m : ℕ) → 0 < q → n ≤ 2 ^ 63 → n * q ≡ (w * q + v) * decimal_scale → w ≤ largest_whole
whole_fits w q v n m h fits e =
    let le : w * decimal_scale ≤ n = cancel_le (w * decimal_scale) n q h (omega (arith, e)) in
    omega arith

pub split_units :
    (w q v n : ℕ)
    → 0 < q
    → n * q ≡ (w * q + v) * decimal_scale
    → (a : ℕ) × (n ≡ w * decimal_scale + a) × (a * q ≡ v * decimal_scale)
split_units w q v n h e =
    let le : w * decimal_scale ≤ n = cancel_le (w * decimal_scale) n q h (omega (arith, e)) in
    let split : n ≡ w * decimal_scale + (n - w * decimal_scale) = omega arith in
    (n - w * decimal_scale, split, omega (arith, e, ap (λ (t : ℕ). t * q) split))

scan_point :
    (bound : ℕ) (large : bound / decimal_scale ≡ largest_whole) (n : ℕ) (h : Bool) (s : Bytes)
    → scan bound (in_whole n h) (b'.' ∷ s) ≡ scan bound (in_fraction n h 0 1 false) s
unfolding scan
scan_point bound large n h s = rw (point_step bound large n h)

or-true : (h : Bool) → (h || true) ≡ true
or-true true = refl
or-true false = refl

point_HasSeen :
    {s : Bytes} {n f j : ℕ} {h : Bool} {q : Progress} → Reads s j n f h false q → s ≢ [] → HasSeen q
point_HasSeen {s} {n} {f} {j} {h} r some_digit =
    rw r.shape (ground (arith, ne-nil-seen s some_digit, or-true h))

module _ (negative : Bool) (n : ℕ) (fits : n ≤ limit negative) where
  below : n ≤ 2 ^ 63
  below = ground arith

  magnitude_scanned :
      (s : Bytes) (q : Progress)
      → s ≢ []
      → scan (limit negative) start s ≡ ok q
      → q.fractional_part * (decimal_scale / q.fractional_scale) < decimal_scale
      → HasSeen q
      → total q ≡ n
      → parse_magnitude negative s ≡ ok (with_sign negative n)
  magnitude_scanned s q h run small flags sum =
      rw (parse_magnitude-scan negative s h, run)
        (finish_complete negative q small flags (omega (arith, fits, sum))
          ∙ ap (λ (m : ℕ). ok (with_sign negative m)) sum)

  magnitude_whole :
      (w : Bytes)
      → All IsDigit w
      → w ≢ []
      → n ≡ value 0 w * decimal_scale
      → parse_magnitude negative (w ++ []) ≡ ok (with_sign negative n)
  magnitude_whole w digits some_digit exact =
      let q = in_whole (value 0 w) (seen false w) in
      let run : scan (limit negative) start (w ++ []) ≡ ok q =
        scan-whole (limit negative) (limit-whole negative) w [] 0 false digits
          (omega (arith, below, exact))
        ∙ unfold scan in refl in
      let sum : total q ≡ n = omega (arith, exact) in
      magnitude_scanned (w ++ []) q (rw append-nil some_digit) run (omega arith)
        (ground (arith, ne-nil-seen w some_digit)) sum

  magnitude_point :
      (w s : Bytes)
      → All IsDigit w
      → All IsDigit s
      → s ≢ []
      → n * 10 ^ length s ≡ (value 0 w * 10 ^ length s + value 0 s) * decimal_scale
      → parse_magnitude negative (w ++ b'.' ∷ s) ≡ ok (with_sign negative n)
  magnitude_point w s whole digits some_digit exact =
      let bound = limit negative in
      let large = limit-whole negative in
      let positive : 0 < 10 ^ length s = one-le-pow (length s) 10 (omega arith) in
      let small = whole_fits (value 0 w) (10 ^ length s) (value 0 s) n 0 positive below exact in
      let (a, split, rest) = split_units (value 0 w) (10 ^ length s) (value 0 s) n positive exact in
      let (q, run) =
        fraction_total bound large s 8 (value 0 w) 0 1 a (seen false w) false digits (omega arith)
          (omega arith) (omega (arith, rest)) in
      let reads =
        fraction_Reads bound large s 8 (value 0 w) 0 1 (seen false w) false q (omega arith)
          (omega arith) run in
      let (bounded, units) = total-Reads reads in
      magnitude_scanned (w ++ b'.' ∷ s) q (append-ne-nil_of_right_ne-nil w (cons-ne-nil b'.' s))
        (scan-whole bound large w (b'.' ∷ s) 0 false whole small
          ∙ (scan_point bound large (value 0 w) (seen false w) s ∙ run))
        bounded (point_HasSeen reads some_digit)
        (cancel_right _ _ (10 ^ length s) positive (units ∙ sym exact))

-- A whole part and a fraction, of digits, do not begin with a sign.
unsigned_head :
    (w : Bytes) (f : Option Bytes)
    → All IsDigit w
    → HasDigits w f
    → parse_decimal (w ++ point_text f) ≡ parse_magnitude false (w ++ point_text f)
unfolding parse_decimal
unsigned_head [] none digits h = absurd (h refl)
unsigned_head [] (some s) digits h = refl
unsigned_head (c ∷ w) f (d, digits) h = ground arith

magnitude_complete :
    (negative : Bool) (t : Literal) (n : ℕ) (f : Option Bytes)
    → t.fraction ≡ f
    → IsLiteral t
    → Units t n
    → n ≤ limit negative
    → parse_magnitude negative (t.whole ++ point_text f) ≡ ok (with_sign negative n)
magnitude_complete negative t n none e l exact fits =
    magnitude_whole negative n fits t.whole l.whole_digits (rw e at l.has_digits)
      (omega (arith, rw e at exact))
magnitude_complete negative t n (some s) e l exact fits =
    magnitude_point negative n fits t.whole s l.whole_digits (rw e at l.fraction_digits)
      (rw e at l.has_digits) (rw e at exact)

sign_complete :
    (sign : Sign) (t : Literal) (n : ℕ)
    → t.sign ≡ sign
    → IsLiteral t
    → Units t n
    → n ≤ limit (is_minus sign)
    → parse_decimal (sign_text sign ++ (t.whole ++ point_text t.fraction)) ≡ ok (signed sign n)
unfolding parse_decimal
sign_complete unsigned t n e l exact fits =
    unsigned_head t.whole t.fraction l.whole_digits l.has_digits
    ∙ magnitude_complete false t n t.fraction refl l exact fits
sign_complete plus t n e l exact fits = magnitude_complete false t n t.fraction refl l exact fits
sign_complete minus t n e l exact fits = magnitude_complete true t n t.fraction refl l exact fits

-- A decimal literal, of digits with a sign or without and with a point or without, is accepted
-- whenever it denotes a whole number of units of 10 ^ -8 and that number fits in 64 bits; the
-- result is that number.
pub parse_decimal_complete :
    (t : Literal) (n : ℕ)
    → IsLiteral t
    → Units t n
    → n ≤ limit (is_minus t.sign)
    → parse_decimal (spell t) ≡ ok (signed t.sign n)
parse_decimal_complete t n l exact fits = sign_complete t.sign t n refl l exact fits
