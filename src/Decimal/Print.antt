-- ===== src/Decimal/Print.antt =====
-- `toDecimalString` of binance_order_client/binance_order_gateway.cpp: a 64-bit number of units of
-- 10 ^ -places to a decimal text without trailing zeros.
pub mod Texts
pub mod RoundTrip
use mathlib.Core.List.{reverse}
use exchange_connectivity.Base.{
  ℕ, zero, suc, ◌+◌, ◌-◌, ◌*◌, ◌/◌, ◌%◌, [], ◌∷◌, ◌++◌, ◌==◌, if◌then◌else◌, length, replicate, ◌≡◌,
  refl,
}
use exchange_connectivity.Base.Int.{ℤ, pos, negsuc, wrap64, is_negative}
use exchange_connectivity.Base.Text.{Bytes, codes}

-- `stream << n` on a `std::uint64_t`. The first argument bounds the digits: 2 ^ 64 < 10 ^ 20.
emit : ℕ → ℕ → Bytes → Bytes
emit zero n out = out
emit (suc fuel) n out =
    let rest = emit fuel (n / 10) ((b'0' + n % 10) ∷ out) in if n == 0 then out else rest

unfoldable pub format_unsigned : ℕ → Bytes
unfolding emit
format_unsigned n = if n == 0 then b'0' ∷ [] else emit 20 n []

-- `std::setfill('0') << std::setw(width)`.
pub pad : ℕ → Bytes → Bytes
pad width s = replicate (width - length s) b'0' ++ s

-- The loops at the back of the text work on its reversal here.
drop_zeros : Bytes → Bytes
drop_zeros [] = []
drop_zeros (c ∷ s) = if c == b'0' then drop_zeros s else c ∷ s

drop_point : Bytes → Bytes
drop_point [] = []
drop_point (c ∷ s) = if c == b'.' then s else c ∷ s

pub strip_zeros : Bytes → Bytes
unfolding drop_zeros drop_point
strip_zeros s = reverse (drop_point (drop_zeros (reverse s)))

-- `static_cast<uint64_t>(-(value + 1)) + 1` for a negative number.
pub absolute_value : ℤ → ℕ
absolute_value (pos n) = n
absolute_value (negsuc n) = wrap64 (n + 1)

-- The loop that multiplies `scale` by ten.
power_of_ten : ℕ → ℕ → ℕ
power_of_ten zero scale = scale
power_of_ten (suc k) scale = power_of_ten k (wrap64 (scale * 10))

unfoldable pub to_decimal_string : ℤ → ℕ → Bytes
unfolding format_unsigned pad strip_zeros absolute_value power_of_ten
to_decimal_string value places =
    let scale = power_of_ten places 1 in
    let integer_part = absolute_value value / scale in
    let fractional_part = absolute_value value % scale in
    let text = (if is_negative value then b'-' ∷ [] else []) ++ format_unsigned integer_part in
    if fractional_part == 0
    then text
    else strip_zeros (text ++ b'.' ∷ pad places (format_unsigned fractional_part))

print_example : to_decimal_string (negsuc 1_249_999_999) 8 ≡ codes "-12.5"
unfolding to_decimal_string
print_example = refl

print_smallest : to_decimal_string (negsuc 0x7fff_ffff_ffff_ffff) 8 ≡ codes "-92233720368.54775808"
unfolding to_decimal_string
print_smallest = refl
