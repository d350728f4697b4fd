-- ===== src/Pools.antt =====
-- pools/main.cpp: the book updates, and the two pools that lend them.
pub mod Ring
pub mod Shared
pub mod Bounded
pub mod Benchmark
use exchange_connectivity.Base.{ℕ, List, []}
use exchange_connectivity.Base.Int.{ℤ}

pub data Side : Type 0 where
  buy sell : Side

pub record PriceLevel : Type 0 where
  pub side : Side
  pub price : ℤ
  pub quantity : ℤ

pub record BookUpdate : Type 0 where
  pub exchange_timestamp : ℕ
  pub first_sequence : ℕ
  pub last_sequence : ℕ
  pub updates : List PriceLevel

-- What `release` leaves behind, and what a new object holds.
abbrev pub cleared : BookUpdate
cleared = record { exchange_timestamp = 0; first_sequence = 0; last_sequence = 0; updates = [] }
