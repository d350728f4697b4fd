-- ===== src/Feed/Parser/Tickers.antt =====
-- `parseTicker` of binance_data_parser/BinanceDataParser.cpp. A `double` is a value of a type that is left
-- open, and `std::stod` a parameter, with what it throws as a `FeedError`.
use exchange_connectivity.Base.{ℕ, Fallible, ok, ◌>>=◌}
use exchange_connectivity.Base.Int.{ℤ}
use exchange_connectivity.Base.Text.{Bytes, codes}
use exchange_connectivity.Json.{Json}
use exchange_connectivity.Feed.{FeedError}
use exchange_connectivity.Feed.Parser.{parse_document, string_field, uint64_field, decimal_field}

pub record Ticker (Double : Type 0) : Type 0 where
  pub symbol : Bytes
  pub price_change : ℤ
  pub price_change_percent : Double
  pub weighted_average_price : ℤ
  pub previous_close_price : ℤ
  pub last_price : ℤ
  pub last_quantity : ℤ
  pub bid_price : ℤ
  pub bid_quantity : ℤ
  pub ask_price : ℤ
  pub ask_quantity : ℤ
  pub open_price : ℤ
  pub high_price : ℤ
  pub low_price : ℤ
  pub volume : ℤ
  pub quote_asset_volume : ℤ
  pub open_timestamp : ℕ
  pub close_timestamp : ℕ
  pub first_trade_id : ℕ
  pub last_trade_id : ℕ
  pub trade_count : ℕ
  pub first_update_id : ℕ
  pub last_update_id : ℕ
  pub exchange_timestamp : ℕ

module _ (J : Json) {Double : Type 0} (stod : Bytes → Fallible FeedError Double) where
  unfoldable pub parse_ticker : Bytes → Fallible FeedError (Ticker Double)
  unfolding parse_document string_field uint64_field decimal_field
  parse_ticker message = do
    document ← parse_document J message
    symbol ← string_field J document (codes "s")
    change ← decimal_field J document (codes "p")
    percent_text ← string_field J document (codes "P")
    percent ← stod percent_text
    average ← decimal_field J document (codes "w")
    previous ← decimal_field J document (codes "x")
    last ← decimal_field J document (codes "c")
    last_amount ← decimal_field J document (codes "Q")
    bid ← decimal_field J document (codes "b")
    bid_amount ← decimal_field J document (codes "B")
    ask ← decimal_field J document (codes "a")
    ask_amount ← decimal_field J document (codes "A")
    open_at ← decimal_field J document (codes "o")
    high ← decimal_field J document (codes "h")
    low ← decimal_field J document (codes "l")
    base_volume ← decimal_field J document (codes "v")
    quote_volume ← decimal_field J document (codes "q")
    open_time ← uint64_field J document (codes "O")
    close_time ← uint64_field J document (codes "C")
    first_trade ← uint64_field J document (codes "F")
    last_trade ← uint64_field J document (codes "L")
    trades ← uint64_field J document (codes "n")
    first_update ← uint64_field J document (codes "F")
    last_update ← uint64_field J document (codes "L")
    time ← uint64_field J document (codes "E")
    ok (record {
      symbol = symbol;
      price_change = change;
      price_change_percent = percent;
      weighted_average_price = average;
      previous_close_price = previous;
      last_price = last;
      last_quantity = last_amount;
      bid_price = bid;
      bid_quantity = bid_amount;
      ask_price = ask;
      ask_quantity = ask_amount;
      open_price = open_at;
      high_price = high;
      low_price = low;
      volume = base_volume;
      quote_asset_volume = quote_volume;
      open_timestamp = open_time;
      close_timestamp = close_time;
      first_trade_id = first_trade;
      last_trade_id = last_trade;
      trade_count = trades;
      first_update_id = first_update;
      last_update_id = last_update;
      exchange_timestamp = time;
    })
