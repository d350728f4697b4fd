-- ===== src/Feed.antt =====
-- binance_data_parser/MarketData.hpp: the market data of the parser of binance_data_parser and of its copy
-- binance/binance_market_data_parser.cpp, and what the parser throws.
pub mod Decimal
pub mod Book
pub mod Parser
pub mod Tests
use exchange_connectivity.Base.{ℕ, Bool, List}
use exchange_connectivity.Base.Int.{ℤ}
use exchange_connectivity.Base.Text.{Bytes}

-- `simdjson_error` with its code, where `incorrect_type` stands for every code of a value that is not of the kind
-- asked for, a number out of range included; `overflow` stands for arithmetic on `std::int64_t` whose result is undefined.
pub data FeedError : Type 0 where
  malformed : Bytes → FeedError
  no_such_field : Bytes → FeedError
  incorrect_type : FeedError
  index_out_of_bounds : FeedError
  overflow : FeedError

-- `PriceLevelUpdate`, and the pairs of a depth update.
pub record PriceLevel : Type 0 where
  pub price : ℤ
  pub quantity : ℤ

pub record MarketUpdate : Type 0 where
  pub first_update_id : ℕ
  pub last_update_id : ℕ
  pub exchange_timestamp : ℕ
  pub bids : List PriceLevel
  pub asks : List PriceLevel

-- The levels are the entries of a `std::map`, in the order of their prices.
pub record DepthSnapshot : Type 0 where
  pub last_update_id : ℕ
  pub bids : List PriceLevel
  pub asks : List PriceLevel

pub record DepthUpdate : Type 0 where
  pub first_update_id : ℕ
  pub last_update_id : ℕ
  pub exchange_timestamp : ℕ
  pub bids : List PriceLevel
  pub asks : List PriceLevel

pub record Trade : Type 0 where
  pub symbol : Bytes
  pub trade_id : ℕ
  pub price : ℤ
  pub quantity : ℤ
  pub exchange_timestamp : ℕ
  pub trade_timestamp : ℕ
  pub buyer_is_maker : Bool

pub record AggregateTrade : Type 0 where
  pub symbol : Bytes
  pub aggregate_trade_id : ℕ
  pub first_trade_id : ℕ
  pub last_trade_id : ℕ
  pub price : ℤ
  pub quantity : ℤ
  pub exchange_timestamp : ℕ
  pub trade_timestamp : ℕ
  pub buyer_is_maker : Bool

pub record BookTicker : Type 0 where
  pub symbol : Bytes
  pub update_id : ℕ
  pub bid_price : ℤ
  pub bid_quantity : ℤ
  pub ask_price : ℤ
  pub ask_quantity : ℤ

pub record Kline : Type 0 where
  pub symbol : Bytes
  pub interval : Bytes
  pub open_timestamp : ℕ
  pub close_timestamp : ℕ
  pub first_trade_id : ℕ
  pub last_trade_id : ℕ
  pub open_price : ℤ
  pub high_price : ℤ
  pub low_price : ℤ
  pub close_price : ℤ
  pub volume : ℤ
  pub trade_count : ℕ
  pub quote_asset_volume : ℤ
  pub taker_buy_base_asset_volume : ℤ
  pub taker_buy_quote_asset_volume : ℤ
  pub closed : Bool
