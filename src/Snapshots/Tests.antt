-- ===== src/Snapshots/Tests.antt =====
-- A request for a snapshot of one symbol, answered and refused.
use exchange_connectivity.Base.{◌≡◌, refl, true, [], ◌∷◌, none, ok, ◌>>=◌, map_err, length}
use exchange_connectivity.Base.Text.{codes}
use exchange_connectivity.Failure.{what}
use exchange_connectivity.Market.Parser.{parse_snapshot}
use exchange_connectivity.Market.Parser.Tests.{document}
use exchange_connectivity.Connector.{
  invalid_response, SnapshotHandler, call_snapshot, Connector, async_snapshot,
}
use exchange_connectivity.Snapshots.{async_get_depth_snapshot}
use exchange_connectivity.Snapshots.Runs.{Ends, events_of, answer, run, outcomes}
use exchange_connectivity.Snapshots.Once.{over, request_settled}
use exchange_connectivity.Snapshots.Asked.{served, snapshot_answered}

abbrev refused : Ends
refused = record {
  resolve_end = none;
  connect_end = none;
  sni = true;
  handshake_end = none;
  write_end = none;
  read_end = ok (record { status = 418; body = codes "no" });
}

request_settled_example :
    let (s, effects) =
      run (events_of refused) (async_get_depth_snapshot (codes "btcusdt") true).0 in
    length (outcomes effects) ≡ over s.operation
request_settled_example = request_settled (codes "btcusdt") (events_of refused)

abbrev patient : SnapshotHandler
patient r = none

abbrev connector : Connector
connector = record {
  symbol = codes "btcusdt";
  depth_client = none;
  trade_client = none;
  depth_handler = none;
  trade_handler = none;
}

snapshot_answered_example :
    served document refused (async_snapshot patient connector).1
    ≡ call_snapshot patient (
        answer refused >>= λ body.
        map_err
          (λ e. record { error = invalid_response; message = what e })
          (parse_snapshot document body))
      ∷ []
snapshot_answered_example = snapshot_answered document connector patient refused (λ s. refl)
