-- ===== src/Connector.antt =====
-- binance_connector/binance/connector.cpp: the class `Connector`. A method returns the new state and
-- the effects in their order: the calls of the network clients and of the user's handlers, and what
-- is written to the error log. A handler says what it throws, if it throws.
pub mod Streams
pub mod Delivery
pub mod Tests
use exchange_connectivity.Base.{
  ℕ, ◌+◌, Bool, true, false, ◌&&◌, List, [], ◌∷◌, ◌++◌, map, Option, none, some, Fallible, ok, err,
  ◌>>=◌, leb, if◌then◌else◌,
}
use exchange_connectivity.Base.Text.{Bytes, codes, to_lower}
use exchange_connectivity.Failure.{Exception, what}
use exchange_connectivity.Json.{Json}
use exchange_connectivity.Market.{Snapshot, DepthUpdate, Trade}
use exchange_connectivity.Market.Parser.{
  is_subscription_response, parse_depth_update, parse_trade, parse_snapshot,
}

-- `networking::RestError` and `RestFailure`.
pub data RestError : Type 0 where
  resolve_failed connect_failed tls_handshake_failed write_failed read_failed invalid_response :
      RestError

pub record RestFailure : Type 0 where
  pub error : RestError
  pub message : Bytes

abbrev pub Response : Type 0
Response = Fallible RestFailure Bytes

-- `none` where the handler returns, or the text of what it throws.
abbrev pub DepthHandler : Type 0
DepthHandler = DepthUpdate → Option Bytes

abbrev pub TradeHandler : Type 0
TradeHandler = Trade → Option Bytes

abbrev pub SnapshotHandler : Type 0
SnapshotHandler = Fallible RestFailure Snapshot → Option Bytes

pub data Channel : Type 0 where
  depth trades : Channel

pub data Effect : Type 0 where
  start_stream stop_stream : Channel → Bytes → Effect
  request_snapshot : Bytes → SnapshotHandler → Effect
  call_depth : DepthHandler → DepthUpdate → Effect
  call_trade : TradeHandler → Trade → Effect
  call_snapshot : SnapshotHandler → Fallible RestFailure Snapshot → Effect
  log : Bytes → Bytes → Effect

-- A client is the name of its stream.
pub record Connector : Type 0 where
  pub symbol : Bytes
  pub depth_client : Option Bytes
  pub trade_client : Option Bytes
  pub depth_handler : Option DepthHandler
  pub trade_handler : Option TradeHandler

unfoldable pub create : Bytes → Connector
unfolding to_lower
create symbol = record {
  symbol = to_lower symbol;
  depth_client = none;
  trade_client = none;
  depth_handler = none;
  trade_handler = none;
}

pub stop_client : Channel → Option Bytes → List Effect
stop_client channel none = []
stop_client channel (some name) = stop_stream channel name ∷ []

pub stop_depth : Connector → Connector × List Effect
unfolding stop_client
stop_depth c =
    (record c { depth_client = none; depth_handler = none }, stop_client depth c.depth_client)

pub stop_trades : Connector → Connector × List Effect
unfolding stop_client
stop_trades c =
    (record c { trade_client = none; trade_handler = none }, stop_client trades c.trade_client)

pub start_depth : Option DepthHandler → Connector → Connector × List Effect
unfolding stop_depth
start_depth handler c =
    let (stopped, effects) = stop_depth c in
    let name = stopped.symbol ++ codes "@depth@100ms" in
    (
      record stopped { depth_handler = handler; depth_client = some name },
      effects ++ start_stream depth name ∷ [],
    )

pub start_trades : Option TradeHandler → Connector → Connector × List Effect
unfolding stop_trades
start_trades handler c =
    let (stopped, effects) = stop_trades c in
    let name = stopped.symbol ++ codes "@trade" in
    (
      record stopped { trade_handler = handler; trade_client = some name },
      effects ++ start_stream trades name ∷ [],
    )

unfoldable pub async_snapshot : SnapshotHandler → Connector → Connector × List Effect
async_snapshot handler c = (c, request_snapshot c.symbol handler ∷ [])

-- `stop`, which the destructor calls.
pub stop : Connector → Connector × List Effect
unfolding stop_depth stop_trades
stop c =
    let (c', effects) = stop_depth c in
    let (c'', others) = stop_trades c' in (c'', effects ++ others)

-- What the `catch` around a handler adds where the handler throws.
caught : Bytes → Option Bytes → List Effect
caught text none = []
caught text (some thrown) = log text thrown ∷ []

module _ (J : Json) where
  -- The body of the `try` block: nothing for the answer to a subscription.
  abbrev pub message_of :
      {A : Type 0} → (Bytes → Fallible Exception A) → Bytes → Fallible Exception (Option A)
  message_of parse message = do
    answer ← is_subscription_response J message
    if answer then ok none else (parse message >>= λ a. ok (some a))

  abbrev depth_effects : Option DepthHandler → Fallible Exception (Option DepthUpdate) → List Effect
  depth_effects handler (err e) = log (codes "Failed to parse depth update: ") (what e) ∷ []
  depth_effects handler (ok none) = []
  depth_effects none (ok (some update)) = []
  depth_effects (some h) (ok (some update)) =
      call_depth h update ∷ caught (codes "Failed to parse depth update: ") (h update)

  pub on_depth_message : Connector → Bytes → List Effect
  unfolding caught
  on_depth_message c message =
      depth_effects c.depth_handler (message_of (parse_depth_update J) message)

  abbrev trade_effects : Option TradeHandler → Fallible Exception (Option Trade) → List Effect
  trade_effects handler (err e) = log (codes "Failed to parse trade: ") (what e) ∷ []
  trade_effects handler (ok none) = []
  trade_effects none (ok (some trade)) = []
  trade_effects (some h) (ok (some trade)) =
      call_trade h trade ∷ caught (codes "Failed to parse trade: ") (h trade)

  pub on_trade_message : Connector → Bytes → List Effect
  unfolding caught
  on_trade_message c message = trade_effects c.trade_handler (message_of (parse_trade J) message)

  -- The `catch` block: the handler is called with the failure.
  abbrev invalid : SnapshotHandler → Bytes → List Effect
  invalid h text = call_snapshot h (err (record { error = invalid_response; message = text })) ∷ []

  abbrev snapshot_effects : SnapshotHandler → Fallible Exception Snapshot → List Effect
  snapshot_effects h (err e) = invalid h (what e)
  snapshot_effects h (ok s) =
      call_snapshot h (ok s) ∷ (elim (h (ok s)) [ none ↦ [] | some thrown ↦ invalid h thrown ])

  pub on_snapshot_response : Response → SnapshotHandler → List Effect
  on_snapshot_response (err failure) h = call_snapshot h (err failure) ∷ []
  on_snapshot_response (ok body) h = snapshot_effects h (parse_snapshot J body)
