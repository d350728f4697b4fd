-- ===== src/Feed/Decimal.antt =====
-- `parseDecimal` of binance_data_parser/BinanceDataParser.cpp, which checks nothing: a character that is no
-- digit counts by its code, and a number that leaves `std::int64_t` is undefined (`overflow`).
pub mod Agreement
use exchange_connectivity.Base.{
  ℕ, zero, suc, ◌-◌, Bool, true, false, [], ◌∷◌, ltb, leb, ◌==◌, if◌then◌else◌, Fallible, ok, err,
  ◌>>=◌,
}
use exchange_connectivity.Base.Int.{ℤ, pos, negsuc, ◌+ℤ◌, ◌-ℤ◌, ◌*ℤ◌}
use exchange_connectivity.Base.Text.{Bytes}
use exchange_connectivity.Decimal.{decimal_scale, max_value}
use exchange_connectivity.Feed.{FeedError, overflow}

-- The result of an operation on `std::int64_t`.
abbrev pub checked : ℤ → Fallible FeedError ℤ
checked (pos n) = if leb n max_value then ok (pos n) else err overflow
checked (negsuc n) = if leb n max_value then ok (negsuc n) else err overflow

-- `value[index] - '0'`, where `char` is signed.
abbrev pub character_value : ℕ → ℤ
character_value c = if ltb c 128 then pos c -ℤ pos b'0' else pos c -ℤ pos 304

-- `part * 10 + (value[index] - '0')`.
pub push_digit : ℤ → ℕ → Fallible FeedError ℤ
unfolding ◌*ℤ◌ ◌+ℤ◌ ◌-ℤ◌
push_digit part c = do shifted ← checked (part *ℤ pos 10); checked (shifted +ℤ character_value c)

-- The loop before the point: the integer part, and the text from the point on.
pub integer_part : ℤ → Bytes → Fallible FeedError (ℤ × Bytes)
unfolding push_digit
integer_part part [] = ok (part, [])
integer_part part (c ∷ s) =
    if c == b'.' then ok (part, c ∷ s) else push_digit part c >>= λ next. integer_part next s

-- The loop behind the point, while there is room for digits: the room that is left, and the part.
pub fractional_part : ℕ → ℤ → Bytes → Fallible FeedError (ℕ × ℤ)
unfolding push_digit
fractional_part zero part s = ok (zero, part)
fractional_part (suc room) part [] = ok (suc room, part)
fractional_part (suc room) part (c ∷ s) = push_digit part c >>= λ next. fractional_part room next s

-- The loop that fills the room with zeros.
pub fill_zeros : ℕ → ℤ → Fallible FeedError ℤ
unfolding ◌*ℤ◌
fill_zeros zero part = ok part
fill_zeros (suc room) part = checked (part *ℤ pos 10) >>= fill_zeros room

pub fraction : Bytes → Fallible FeedError ℤ
unfolding fractional_part fill_zeros
fraction [] = fill_zeros 8 (pos 0)
fraction (point ∷ s) = do (room, part) ← fractional_part 8 (pos 0) s; fill_zeros room part

pub feed_magnitude : Bytes → Fallible FeedError ℤ
unfolding integer_part fraction ◌*ℤ◌ ◌+ℤ◌
feed_magnitude s = do
  (whole, rest) ← integer_part (pos 0) s
  part ← fraction rest
  scaled ← checked (whole *ℤ pos decimal_scale)
  checked (scaled +ℤ part)

unfoldable pub parse_feed_decimal : Bytes → Fallible FeedError ℤ
unfolding feed_magnitude ◌-ℤ◌
parse_feed_decimal [] = feed_magnitude []
parse_feed_decimal (c ∷ s) =
    if c == b'-'
    then (feed_magnitude s >>= λ result. checked (pos 0 -ℤ result))
    else feed_magnitude (c ∷ s)
