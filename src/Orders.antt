-- ===== src/Orders.antt =====
-- Orders and their replies: binance_order_client/order.hpp, order.cpp, types.hpp and types.cpp, which
-- binance_spot_client and binance_order_execution_module repeat.
pub mod Text
pub mod Fields
pub mod Gateway
use exchange_connectivity.Base.{ℕ, Bool, true, false, ◌||◌, List, if◌then◌else◌}
use exchange_connectivity.Base.Int.{ℤ}
use exchange_connectivity.Base.Text.{Bytes, codes, beq}

pub data Side : Type 0 where
  buy sell : Side

pub data OrderType : Type 0 where
  market limit : OrderType

pub data OrderStatus : Type 0 where
  new partially_filled filled cancelled rejected : OrderStatus

-- `Price` and `Quantity` by their `raw()` values, of 8 decimal places.
pub record OrderRequest : Type 0 where
  pub instrument : ℕ
  pub side : Side
  pub order_type : OrderType
  pub price : ℤ
  pub quantity : ℤ

pub record OrderSubmission : Type 0 where
  pub client_order_id : ℕ
  pub exchange_order_id : ℕ
  pub status : OrderStatus

pub data OrderSubmissionErrorCode : Type 0 where
  invalid_instrument invalid_order signing_failed transport_error : OrderSubmissionErrorCode
  exchange_rejected invalid_response : OrderSubmissionErrorCode

pub record OrderSubmissionError : Type 0 where
  pub code : OrderSubmissionErrorCode
  pub exchange_error_code : ℤ
  pub message : Bytes

abbrev pub side_text : Side → Bytes
side_text buy = codes "BUY"
side_text sell = codes "SELL"

abbrev pub type_text : OrderType → Bytes
type_text market = codes "MARKET"
type_text limit = codes "LIMIT"

unfoldable pub to_order_status : Bytes → OrderStatus
to_order_status status =
    if beq status (codes "NEW")
    then new
    else if beq status (codes "PARTIALLY_FILLED")
    then partially_filled
    else if beq status (codes "FILLED")
    then filled
    else if beq status (codes "CANCELED") || beq status (codes "CANCELLED")
    then cancelled
    else if beq status (codes "REJECTED")
    then rejected
    else new
