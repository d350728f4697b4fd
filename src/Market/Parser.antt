-- ===== src/Market/Parser.antt =====
-- binance_connector/binance/parser.cpp over any JSON library: `Parser` and its helpers. What the
-- source throws is an `Exception`.
pub mod Levels
pub mod Messages
pub mod Tests
use exchange_connectivity.Base.{
  ℕ, Bool, true, false, List, [], ◌∷◌, Option, none, some, Fallible, ok, err, ◌>>=◌, ◌>>◌, guard,
  or_fail, map_err, if◌then◌else◌,
}
use exchange_connectivity.Base.Int.{ℤ, pos, negsuc}
use exchange_connectivity.Base.Text.{Bytes, codes}
use exchange_connectivity.Failure.{
  Exception, missing_field, not_unsigned, not_string, not_array, not_object, not_bool,
  invalid_level, malformed_json,
}
use exchange_connectivity.Decimal.{parse_decimal}
use exchange_connectivity.Json.{Json}
use exchange_connectivity.Market.{Side, buy, sell, BookLevel, Snapshot, DepthUpdate, Trade}

module _ (J : Json) where
  open J use {Value, parse, is_object, member, as_uint64, as_int64, as_string, as_bool, as_array}

  pub get_required : Value → Bytes → Fallible Exception Value
  get_required object key = or_fail (member object key) (missing_field key)

  -- A signed number that is not negative serves too.
  unsigned_of : Option ℤ → Fallible Exception ℕ
  unsigned_of none = err not_unsigned
  unsigned_of (some (pos n)) = ok n
  unsigned_of (some (negsuc n)) = err not_unsigned

  pub parse_unsigned : Value → Fallible Exception ℕ
  unfolding unsigned_of
  parse_unsigned value = elim (as_uint64 value) [
    | some n ↦ ok n
    | none ↦ unsigned_of (as_int64 value)
  ]

  pub parse_string : Value → Fallible Exception Bytes
  parse_string value = or_fail (as_string value) not_string

  -- `parseDecimal(parseString(value))`.
  pub decimal_value : Value → Fallible Exception ℤ
  unfolding parse_string
  decimal_value value = parse_string value >>= parse_decimal

  -- The elements of an array that has two at least.
  level_of : Option (List Value) → Fallible Exception BookLevel
  unfolding decimal_value
  level_of (some (p ∷ q ∷ rest)) = do
    price ← decimal_value p
    quantity ← decimal_value q
    ok (record { price = price; quantity = quantity })
  level_of other = err invalid_level

  pub parse_book_level : Value → Fallible Exception BookLevel
  unfolding level_of
  parse_book_level value = level_of (as_array value)

  -- The loop over the array.
  parse_each : List Value → Fallible Exception (List BookLevel)
  unfolding parse_book_level
  parse_each [] = ok []
  parse_each (x ∷ xs) = do level ← parse_book_level x; rest ← parse_each xs; ok (level ∷ rest)

  pub parse_levels : Value → Fallible Exception (List BookLevel)
  unfolding parse_each
  parse_levels value = or_fail (as_array value) not_array >>= parse_each

  -- `json::parse`, with what it throws.
  pub parse_json : Bytes → Fallible Exception Value
  parse_json message = map_err malformed_json (parse message)

  pub parse_object : Bytes → Fallible Exception Value
  unfolding parse_json
  parse_object message = do value ← parse_json message; guard (is_object value) not_object; ok value

  unfoldable pub is_subscription_response : Bytes → Fallible Exception Bool
  unfolding parse_json
  is_subscription_response message = do
    value ← parse_json message
    ok (
        if is_object value
        then (elim (member value (codes "result")) [ none ↦ false | some v ↦ true ])
        else false)

  pub required_unsigned : Value → Bytes → Fallible Exception ℕ
  unfolding get_required parse_unsigned
  required_unsigned object key = get_required object key >>= parse_unsigned

  pub required_levels : Value → Bytes → Fallible Exception (List BookLevel)
  unfolding get_required parse_levels
  required_levels object key = get_required object key >>= parse_levels

  pub required_decimal : Value → Bytes → Fallible Exception ℤ
  unfolding get_required decimal_value
  required_decimal object key = get_required object key >>= decimal_value

  unfoldable pub parse_depth_update : Bytes → Fallible Exception DepthUpdate
  unfolding parse_object required_unsigned required_levels
  parse_depth_update message = do
    object ← parse_object message
    first ← required_unsigned object (codes "U")
    last ← required_unsigned object (codes "u")
    time ← required_unsigned object (codes "E")
    bids ← required_levels object (codes "b")
    asks ← required_levels object (codes "a")
    ok (record {
      first_update_id = first;
      last_update_id = last;
      exchange_timestamp = time;
      bids = bids;
      asks = asks;
    })

  unfoldable pub parse_trade : Bytes → Fallible Exception Trade
  unfolding parse_object get_required required_unsigned required_decimal
  parse_trade message = do
    object ← parse_object message
    m ← get_required object (codes "m")
    buyer_is_maker ← or_fail (as_bool m) not_bool
    sequence ← required_unsigned object (codes "t")
    time ← required_unsigned object (codes "T")
    price ← required_decimal object (codes "p")
    quantity ← required_decimal object (codes "q")
    ok (record {
      sequence = sequence;
      exchange_timestamp = time;
      price = price;
      quantity = quantity;
      side = if buyer_is_maker then sell else buy;
    })

  unfoldable pub parse_snapshot : Bytes → Fallible Exception Snapshot
  unfolding parse_object required_unsigned required_levels
  parse_snapshot message = do
    object ← parse_object message
    last ← required_unsigned object (codes "lastUpdateId")
    bids ← required_levels object (codes "bids")
    asks ← required_levels object (codes "asks")
    ok (record { last_update_id = last; bids = bids; asks = asks })
