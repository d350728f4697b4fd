-- ===== src/Market.antt =====
-- binance_connector/binance/types.hpp: the market data that the connector hands to its clients.
pub mod Parser
use exchange_connectivity.Base.{ℕ, List}
use exchange_connectivity.Base.Int.{ℤ}

pub data Side : Type 0 where
  buy sell : Side

-- `Price` and `Quantity` are `std::int64_t` units of 10 ^ -8.
pub record BookLevel : Type 0 where
  pub price : ℤ
  pub quantity : ℤ

pub record Snapshot : Type 0 where
  pub last_update_id : ℕ
  pub bids : List BookLevel
  pub asks : List BookLevel

pub record DepthUpdate : Type 0 where
  pub first_update_id : ℕ
  pub last_update_id : ℕ
  pub exchange_timestamp : ℕ
  pub bids : List BookLevel
  pub asks : List BookLevel

pub record Trade : Type 0 where
  pub sequence : ℕ
  pub exchange_timestamp : ℕ
  pub price : ℤ
  pub quantity : ℤ
  pub side : Side
