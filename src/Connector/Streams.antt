-- ===== src/Connector/Streams.antt =====
-- The calls of `start` and `stop` that a connector makes of its stream clients, over any history of calls.
use exchange_connectivity.Base.{ℕ, ◌+◌, ◌≡◌, refl, List, [], ◌∷◌, ◌++◌, Option, none, some, arith}
use exchange_connectivity.Base.Text.{Bytes}
use exchange_connectivity.Connector.{
  DepthHandler, TradeHandler, SnapshotHandler, Channel, depth, trades, Effect, start_stream,
  stop_stream, Connector, create, stop_depth, stop_trades, start_depth, start_trades,
  async_snapshot, stop,
}

-- A call of the public interface.
pub data Command : Type 0 where
  starts_depth : Option DepthHandler → Command
  starts_trades : Option TradeHandler → Command
  asks_snapshot : SnapshotHandler → Command
  stops_depth stops_trades stops : Command

pub step : Command → Connector → Connector × List Effect
step (starts_depth h) = start_depth h
step (starts_trades h) = start_trades h
step (asks_snapshot h) = async_snapshot h
step stops_depth = stop_depth
step stops_trades = stop_trades
step stops = stop

unfoldable pub run : List Command → Connector → Connector × List Effect
unfolding step
run [] c = (c, [])
run (k ∷ ks) c =
    let (c', effects) = step k c in let (c'', others) = run ks c' in (c'', effects ++ others)

-- 1 for an event on the channel, 0 for one on the other.
abbrev on : Channel → Channel → ℕ
on depth depth = 1
on depth trades = 0
on trades depth = 0
on trades trades = 1

abbrev pub starts_of : Channel → List Effect → ℕ
starts_of ch [] = 0
starts_of ch (start_stream d name ∷ es) = on ch d + starts_of ch es
starts_of ch (e ∷ es) = starts_of ch es

abbrev pub stops_of : Channel → List Effect → ℕ
stops_of ch [] = 0
stops_of ch (stop_stream d name ∷ es) = on ch d + stops_of ch es
stops_of ch (e ∷ es) = stops_of ch es

abbrev present : Option Bytes → ℕ
present none = 0
present (some name) = 1

abbrev pub live : Channel → Connector → ℕ
live depth c = present c.depth_client
live trades c = present c.trade_client

starts_of-append :
    (ch : Channel) (xs ys : List Effect)
    → starts_of ch (xs ++ ys) ≡ starts_of ch xs + starts_of ch ys
starts_of-append ch [] ys = omega arith
starts_of-append ch (start_stream d n ∷ xs) ys = omega (arith, starts_of-append ch xs ys)
starts_of-append ch (x ∷ xs) ys = omega (arith, starts_of-append ch xs ys)

stops_of-append :
    (ch : Channel) (xs ys : List Effect) → stops_of ch (xs ++ ys) ≡ stops_of ch xs + stops_of ch ys
stops_of-append ch [] ys = omega arith
stops_of-append ch (stop_stream d n ∷ xs) ys = omega (arith, stops_of-append ch xs ys)
stops_of-append ch (x ∷ xs) ys = omega (arith, stops_of-append ch xs ys)

abbrev Balanced : Channel → Connector → Connector × List Effect → Type 0
Balanced ch c r = starts_of ch r.1 + live ch c ≡ stops_of ch r.1 + live ch r.0

step-Balanced : (ch : Channel) (k : Command) (c : Connector) → Balanced ch c (step k c)
unfolding step start_depth start_trades stop async_snapshot
step-Balanced depth (starts_depth h) c = ground arith
step-Balanced trades (starts_depth h) c = ground arith
step-Balanced ch (starts_trades h) c = ground arith
step-Balanced ch (asks_snapshot h) c = ground arith
step-Balanced ch stops_depth c = ground arith
step-Balanced ch stops_trades c = ground arith
step-Balanced ch stops c = ground arith

run-Balanced : (ch : Channel) (ks : List Command) (c : Connector) → Balanced ch c (run ks c)
unfolding run
run-Balanced ch [] c = refl
run-Balanced ch (k ∷ ks) c = omega (
  arith,
  step-Balanced ch k c,
  run-Balanced ch ks (step k c).0,
  starts_of-append ch (step k c).1 (run ks (step k c).0).1,
  stops_of-append ch (step k c).1 (run ks (step k c).0).1,
)

-- Over any calls on a new connector, `start` has been called on the clients of a channel as often as `stop`, and once
-- more exactly while the connector holds a client for it.
pub streams_balanced :
    (symbol : Bytes) (ks : List Command) (ch : Channel)
    → let r = run ks (create symbol) in starts_of ch r.1 ≡ stops_of ch r.1 + live ch r.0
unfolding create
streams_balanced symbol ks depth = omega (arith, run-Balanced depth ks (create symbol))
streams_balanced symbol ks trades = omega (arith, run-Balanced trades ks (create symbol))

-- When the connector is destroyed, after any calls, `stop` has been called on the stream clients of each channel as
-- often as `start`, and the connector keeps no handler.
pub stop_matches_all :
    (symbol : Bytes) (ks : List Command) (ch : Channel)
    → let r = run ks (create symbol) in
      let last = stop r.0 in
      (starts_of ch r.1 + starts_of ch last.1 ≡ stops_of ch r.1 + stops_of ch last.1)
      × (last.0.depth_handler ≡ none)
      × (last.0.trade_handler ≡ none)
unfolding stop step
stop_matches_all symbol ks depth = (
  omega (
    arith,
    streams_balanced symbol ks depth,
    step-Balanced depth stops (run ks (create symbol)).0,
  ),
  refl,
  refl,
)
stop_matches_all symbol ks trades = (
  omega (
    arith,
    streams_balanced symbol ks trades,
    step-Balanced trades stops (run ks (create symbol)).0,
  ),
  refl,
  refl,
)
