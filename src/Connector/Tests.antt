-- ===== src/Connector/Tests.antt =====
-- The connector's theorems at a small document and a short history.
use exchange_connectivity.Base.{◌+◌, ◌≡◌, ◌↔◌, List, [], ◌∷◌, none, some, ok, err, false}
use exchange_connectivity.Base.Text.{codes}
use exchange_connectivity.Market.Parser.{is_subscription_response, parse_depth_update}
use exchange_connectivity.Market.Parser.Tests.{document, update}
use exchange_connectivity.Connector.{
  DepthHandler, TradeHandler, SnapshotHandler, depth, Connector, create, on_depth_message, stop,
}
use exchange_connectivity.Connector.Streams.{
  Command, starts_depth, starts_trades, stops_depth, run, starts_of, stops_of, stop_matches_all,
}
use exchange_connectivity.Connector.Delivery.{depth_calls, on_depth_message_calls}

abbrev quiet_depth : DepthHandler
quiet_depth u = none

abbrev quiet_trade : TradeHandler
quiet_trade t = none

abbrev quiet_snapshot : SnapshotHandler
quiet_snapshot r = none

-- It throws at a snapshot.
abbrev strict_snapshot : SnapshotHandler
strict_snapshot (ok s) = some (codes "no")
strict_snapshot (err f) = none

abbrev subscribed : Connector
subscribed = record {
  symbol = codes "btcusdt";
  depth_client = some (codes "btcusdt@depth@100ms");
  trade_client = some (codes "btcusdt@trade");
  depth_handler = some quiet_depth;
  trade_handler = some quiet_trade;
}

abbrev history : List Command
history =
    starts_depth (some quiet_depth)
    ∷ starts_depth (some quiet_depth)
    ∷ starts_trades none
    ∷ stops_depth
    ∷ []

stop_matches_all_example :
    let r = run history (create (codes "BTC")) in
    let last = stop r.0 in
    (starts_of depth r.1 + starts_of depth last.1 ≡ stops_of depth r.1 + stops_of depth last.1)
    × (last.0.depth_handler ≡ none)
    × (last.0.trade_handler ≡ none)
stop_matches_all_example = stop_matches_all (codes "BTC") history depth

on_depth_message_calls_example :
    (depth_calls (on_depth_message document subscribed (codes "{}")) ≡ (quiet_depth, update) ∷ [])
    ↔ ((some quiet_depth ≡ some quiet_depth)
        × ((is_subscription_response document (codes "{}") ≡ ok false)
            × (parse_depth_update document (codes "{}") ≡ ok update)))
on_depth_message_calls_example =
    on_depth_message_calls document subscribed (codes "{}") quiet_depth update
