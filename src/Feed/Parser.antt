-- ===== src/Feed/Parser.antt =====
-- binance_data_parser/BinanceDataParser.cpp over any JSON library: one function for each kind of message, and
-- `normalize`.
pub mod Snapshots
pub mod Tickers
use exchange_connectivity.Base.{
  ℕ, Bool, List, [], ◌∷◌, Option, none, some, Fallible, ok, err, ◌>>=◌, or_fail, map_err,
  if◌then◌else◌,
}
use exchange_connectivity.Base.Int.{ℤ}
use exchange_connectivity.Base.Text.{Bytes, codes}
use exchange_connectivity.Json.{Json}
use exchange_connectivity.Feed.{
  FeedError, malformed, no_such_field, incorrect_type, index_out_of_bounds, PriceLevel,
  MarketUpdate, DepthSnapshot, DepthUpdate, Trade, AggregateTrade, BookTicker, Kline,
}
use exchange_connectivity.Feed.Book.{emplace}
use exchange_connectivity.Feed.Decimal.{parse_feed_decimal}

module _ (J : Json) where
  open J use {Value, parse, is_object, member, as_uint64, as_string, as_bool, as_array}

  pub parse_document : Bytes → Fallible FeedError Value
  parse_document message = map_err malformed (parse message)

  -- `document[key]`.
  pub field : Value → Bytes → Fallible FeedError Value
  field document key =
      if is_object document
      then or_fail (member document key) (no_such_field key)
      else err incorrect_type

  pub uint64_field : Value → Bytes → Fallible FeedError ℕ
  unfolding field
  uint64_field document key = do
    value ← field document key
    or_fail (as_uint64 value) incorrect_type

  pub string_field : Value → Bytes → Fallible FeedError Bytes
  unfolding field
  string_field document key = do
    value ← field document key
    or_fail (as_string value) incorrect_type

  pub bool_field : Value → Bytes → Fallible FeedError Bool
  unfolding field
  bool_field document key = do value ← field document key; or_fail (as_bool value) incorrect_type

  pub array_field : Value → Bytes → Fallible FeedError (List Value)
  unfolding field
  array_field document key = do value ← field document key; or_fail (as_array value) incorrect_type

  -- `parsePrice` and `parseQuantity` of a field.
  pub decimal_field : Value → Bytes → Fallible FeedError ℤ
  unfolding string_field parse_feed_decimal
  decimal_field document key = string_field document key >>= parse_feed_decimal

  string_at : Option Value → Fallible FeedError Bytes
  string_at value = do v ← or_fail value index_out_of_bounds; or_fail (as_string v) incorrect_type

  -- `values.at(0)` and `values.at(1)`.
  abbrev first : List Value → Option Value
  first [] = none
  first (v ∷ values) = some v

  abbrev second : List Value → Option Value
  second [] = none
  second (v ∷ values) = first values

  -- One round of the loops over the levels.
  pub price_level : Value → Fallible FeedError PriceLevel
  unfolding string_at parse_feed_decimal
  price_level level = do
    values ← or_fail (as_array level) incorrect_type
    price_text ← string_at (first values)
    quantity_text ← string_at (second values)
    price ← parse_feed_decimal price_text
    quantity ← parse_feed_decimal quantity_text
    ok (record { price = price; quantity = quantity })

  -- The loops of a depth update, and of a snapshot.
  pub emplace_back_levels : List Value → Fallible FeedError (List PriceLevel)
  unfolding price_level
  emplace_back_levels [] = ok []
  emplace_back_levels (v ∷ values) = do
    level ← price_level v
    rest ← emplace_back_levels values
    ok (level ∷ rest)

  pub emplace_levels : List PriceLevel → List Value → Fallible FeedError (List PriceLevel)
  unfolding price_level emplace
  emplace_levels levels [] = ok levels
  emplace_levels levels (v ∷ values) =
      price_level v >>= λ level. emplace_levels (emplace level.price level.quantity levels) values

  unfoldable pub parse_depth_snapshot : Bytes → Fallible FeedError DepthSnapshot
  unfolding parse_document uint64_field array_field emplace_levels
  parse_depth_snapshot message = do
    document ← parse_document message
    last ← uint64_field document (codes "lastUpdateId")
    bid_values ← array_field document (codes "bids")
    bids ← emplace_levels [] bid_values
    ask_values ← array_field document (codes "asks")
    asks ← emplace_levels [] ask_values
    ok (record { last_update_id = last; bids = bids; asks = asks })

  unfoldable pub parse_depth_update : Bytes → Fallible FeedError DepthUpdate
  unfolding parse_document uint64_field array_field emplace_back_levels
  parse_depth_update message = do
    document ← parse_document message
    time ← uint64_field document (codes "E")
    first_id ← uint64_field document (codes "U")
    last_id ← uint64_field document (codes "u")
    bid_values ← array_field document (codes "b")
    bids ← emplace_back_levels bid_values
    ask_values ← array_field document (codes "a")
    asks ← emplace_back_levels ask_values
    ok (record {
      first_update_id = first_id;
      last_update_id = last_id;
      exchange_timestamp = time;
      bids = bids;
      asks = asks;
    })

  unfoldable pub parse_trade : Bytes → Fallible FeedError Trade
  unfolding parse_document string_field uint64_field decimal_field bool_field
  parse_trade message = do
    document ← parse_document message
    symbol ← string_field document (codes "s")
    id ← uint64_field document (codes "t")
    price ← decimal_field document (codes "p")
    quantity ← decimal_field document (codes "q")
    exchange_time ← uint64_field document (codes "E")
    trade_time ← uint64_field document (codes "T")
    is_maker ← bool_field document (codes "m")
    ok (record {
      symbol = symbol;
      trade_id = id;
      price = price;
      quantity = quantity;
      exchange_timestamp = exchange_time;
      trade_timestamp = trade_time;
      buyer_is_maker = is_maker;
    })

  unfoldable pub parse_aggregate_trade : Bytes → Fallible FeedError AggregateTrade
  unfolding parse_document string_field uint64_field decimal_field bool_field
  parse_aggregate_trade message = do
    document ← parse_document message
    symbol ← string_field document (codes "s")
    id ← uint64_field document (codes "a")
    price ← decimal_field document (codes "p")
    quantity ← decimal_field document (codes "q")
    first_id ← uint64_field document (codes "f")
    last_id ← uint64_field document (codes "l")
    trade_time ← uint64_field document (codes "T")
    exchange_time ← uint64_field document (codes "E")
    is_maker ← bool_field document (codes "m")
    ok (record {
      symbol = symbol;
      aggregate_trade_id = id;
      first_trade_id = first_id;
      last_trade_id = last_id;
      price = price;
      quantity = quantity;
      exchange_timestamp = exchange_time;
      trade_timestamp = trade_time;
      buyer_is_maker = is_maker;
    })

  unfoldable pub parse_book_ticker : Bytes → Fallible FeedError BookTicker
  unfolding parse_document string_field uint64_field decimal_field
  parse_book_ticker message = do
    document ← parse_document message
    symbol ← string_field document (codes "s")
    id ← uint64_field document (codes "u")
    bid_price ← decimal_field document (codes "b")
    bid_quantity ← decimal_field document (codes "B")
    ask_price ← decimal_field document (codes "a")
    ask_quantity ← decimal_field document (codes "A")
    ok (record {
      symbol = symbol;
      update_id = id;
      bid_price = bid_price;
      bid_quantity = bid_quantity;
      ask_price = ask_price;
      ask_quantity = ask_quantity;
    })

  unfoldable pub parse_kline : Bytes → Fallible FeedError Kline
  unfolding parse_document field string_field uint64_field decimal_field bool_field
  parse_kline message = do
    document ← parse_document message
    kline ← field document (codes "k")
    symbol ← string_field kline (codes "s")
    interval ← string_field kline (codes "i")
    open_time ← uint64_field kline (codes "t")
    close_time ← uint64_field kline (codes "T")
    first_id ← uint64_field kline (codes "f")
    last_id ← uint64_field kline (codes "L")
    open_price ← decimal_field kline (codes "o")
    high_price ← decimal_field kline (codes "h")
    low_price ← decimal_field kline (codes "l")
    close_price ← decimal_field kline (codes "c")
    volume ← decimal_field kline (codes "v")
    trade_count ← uint64_field kline (codes "n")
    quote_volume ← decimal_field kline (codes "q")
    taker_base ← decimal_field kline (codes "V")
    taker_quote ← decimal_field kline (codes "Q")
    is_closed ← bool_field kline (codes "x")
    ok (record {
      symbol = symbol;
      interval = interval;
      open_timestamp = open_time;
      close_timestamp = close_time;
      first_trade_id = first_id;
      last_trade_id = last_id;
      open_price = open_price;
      high_price = high_price;
      low_price = low_price;
      close_price = close_price;
      volume = volume;
      trade_count = trade_count;
      quote_asset_volume = quote_volume;
      taker_buy_base_asset_volume = taker_base;
      taker_buy_quote_asset_volume = taker_quote;
      closed = is_closed;
    })

-- The loops of `normalize`.
abbrev copy_levels : List PriceLevel → List PriceLevel
copy_levels [] = []
copy_levels (level ∷ levels) =
    record { price = level.price; quantity = level.quantity } ∷ copy_levels levels

abbrev pub normalize : DepthUpdate → MarketUpdate
normalize update = record {
  first_update_id = update.first_update_id;
  last_update_id = update.last_update_id;
  exchange_timestamp = update.exchange_timestamp;
  bids = copy_levels update.bids;
  asks = copy_levels update.asks;
}
