-- ===== src/Stream/Client.antt =====
-- `WebSocketClient` of binance_connector/networking/websocket_client.cpp, with the session that it has. A session that
-- it lets go of lives on while its operations are under way.
pub mod Replacing
use exchange_connectivity.Base.{Bool, Option, none, some}
use exchange_connectivity.Base.Text.{Bytes}
use exchange_connectivity.Stream.Network.{Link, stops, step, started}

pub record WebSocketClient : Type 0 where
  pub stream_name : Bytes
  pub session : Option Link

pub create_client : Bytes → WebSocketClient
create_client stream_name = record { stream_name = stream_name; session = none }

-- `stop`, which the destructor calls: the client, and the session that was let go of.
pub stop_client : WebSocketClient → WebSocketClient × Option Link
stop_client c = elim c.session [
  | none ↦ (c, none)
  | some link ↦ (record c { session = none }, some (step stops link).0)
]

-- `start`; the first argument is whether the handler that is given can be called.
pub start_client : Bool → WebSocketClient → WebSocketClient × Option Link
unfolding stop_client
start_client handler c =
    let (stopped, former) = stop_client c in
    (record stopped { session = some (started stopped.stream_name handler) }, former)
