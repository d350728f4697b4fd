-- ===== src/Decimal.antt =====
-- `parseDecimal` of binance_connector/binance/parser.cpp: a decimal text to a 64-bit number of
-- units of 10 ^ -8. The unsigned arithmetic of the source wraps at 2 ^ 64, and does so here.
-- The children say what the function accepts, what it returns, and that it undoes `toDecimalString`
-- of binance_order_client/binance_order_gateway.cpp.
pub mod Digits
pub mod Literal
pub mod Scan
pub mod Finish
pub mod Sound
pub mod Complete
pub mod Print
pub mod Tests
use exchange_connectivity.Base.{
  ℕ, zero, suc, ◌+◌, ◌-◌, ◌*◌, ◌/◌, ◌%◌, ◌^◌, Bool, true, false, ◌&&◌, ◌||◌, not, [], ◌∷◌, ltb,
  ◌==◌, if◌then◌else◌, Fallible, ok, err, ◌>>=◌, ◌>>◌, guard,
}
use exchange_connectivity.Base.Int.{ℤ, pos, negsuc, wrap64}
use exchange_connectivity.Base.Text.{Bytes, is_digit}
use exchange_connectivity.Failure.{
  Exception, empty_decimal, invalid_decimal, invalid_digit, out_of_range, excessive_precision,
}

-- `binance::DecimalScale`.
abbrev pub decimal_scale : ℕ
decimal_scale = 100_000_000

-- `MaxValue`, the largest `std::int64_t`.
abbrev pub max_value : ℕ
max_value = 2 ^ 63 - 1

-- `a - b` on `std::uint64_t`.
abbrev pub sub64 : ℕ → ℕ → ℕ
sub64 a b = (a + 2 ^ 64 - b) % 2 ^ 64

abbrev pub limit : Bool → ℕ
limit negative = if negative then max_value + 1 else max_value

-- The variables of the loop over the characters.
pub record Progress : Type 0 where
  pub integer_part : ℕ
  pub fractional_part : ℕ
  pub fractional_scale : ℕ
  pub has_integer_digit : Bool
  pub has_fractional_digit : Bool
  pub fractional_part_started : Bool

abbrev pub start : Progress
start = record {
  integer_part = 0;
  fractional_part = 0;
  fractional_scale = 1;
  has_integer_digit = false;
  has_fractional_digit = false;
  fractional_part_started = false;
}

-- One round of the loop.
pub scan_character : ℕ → Progress → ℕ → Fallible Exception Progress
scan_character bound p c =
    let digit = c - b'0' in
    if c == b'.'
    then (if p.fractional_part_started
        then err invalid_decimal
        else ok (record p { fractional_part_started = true }))
    else if not (is_digit c)
    then err invalid_digit
    else if not p.fractional_part_started
    then (if ltb (sub64 (bound / decimal_scale) digit / 10) p.integer_part
        then err out_of_range
        else ok (record p {
          has_integer_digit = true;
          integer_part = wrap64 (p.integer_part * 10 + digit);
        }))
    else if ltb p.fractional_scale decimal_scale
    then ok (record p {
      has_fractional_digit = true;
      fractional_part = wrap64 (p.fractional_part * 10 + digit);
      fractional_scale = wrap64 (p.fractional_scale * 10);
    })
    else if not (digit == 0)
    then err excessive_precision
    else ok (record p { has_fractional_digit = true })

pub scan : ℕ → Progress → Bytes → Fallible Exception Progress
scan bound p [] = ok p
scan bound p (c ∷ s) = scan_character bound p c >>= λ q. scan bound q s

-- `-static_cast<Price>(result)`, with the case of the smallest number first.
pub negate : ℕ → ℤ
negate zero = pos 0
negate (suc n) = if suc n == max_value + 1 then negsuc max_value else negsuc n

-- What follows the loop.
pub finish : Bool → Progress → Fallible Exception ℤ
finish negative p = do
  guard (p.has_integer_digit || p.has_fractional_digit) invalid_decimal
  guard (not (p.fractional_part_started && not p.has_fractional_digit)) invalid_decimal
  let fraction = wrap64 (p.fractional_part * (decimal_scale / p.fractional_scale))
  guard (not (ltb (limit negative / decimal_scale) p.integer_part)) out_of_range
  let scaled_integer = wrap64 (p.integer_part * decimal_scale)
  guard (not (ltb (sub64 (limit negative) scaled_integer) fraction)) out_of_range
  let result = wrap64 (scaled_integer + fraction)
  ok (if negative then negate result else pos result)

-- The text behind the sign.
pub parse_magnitude : Bool → Bytes → Fallible Exception ℤ
parse_magnitude negative [] = err invalid_decimal
parse_magnitude negative (c ∷ s) = do p ← scan (limit negative) start (c ∷ s); finish negative p

unfoldable pub parse_decimal : Bytes → Fallible Exception ℤ
unfolding parse_magnitude scan scan_character finish negate
parse_decimal [] = err empty_decimal
parse_decimal (c ∷ s) =
    if c == b'-'
    then parse_magnitude true s
    else if c == b'+'
    then parse_magnitude false s
    else parse_magnitude false (c ∷ s)
