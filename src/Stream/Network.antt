-- ===== src/Stream/Network.antt =====
-- A session with the socket that it runs on. What is assumed of Boost.Asio: an operation ends once; one that was
-- begun on a closed socket does not succeed, but for a connection, which opens the socket; closing the socket does
-- not undo an end that has already come.
pub mod Protocol
pub mod Order
pub mod Stopping
use exchange_connectivity.Base.{
  Bool, true, false, List, [], ◌∷◌, ◌++◌, Option, none, some, if◌then◌else◌,
}
use exchange_connectivity.Base.Text.{Bytes}
use exchange_connectivity.Stream.{
  Operation, resolving, connecting, tls_shaking, shaking, writing, reading, ErrorCode, Effect,
  call_handler, close_socket, connect, Session, Result, create, start, stop, on_resolve, on_connect,
  on_tls_handshake, on_handshake, on_write, on_read,
}

-- A call of `stop`, or the end of an operation.
pub data Event : Type 0 where
  stops : Event
  resolved tls_shaken shaken written : Option ErrorCode → Event
  connected : Option ErrorCode → Bool → Event
  received : Option ErrorCode → Bytes → Event

-- `live` is whether the operation under way may still succeed.
pub record Link : Type 0 where
  pub session : Session
  pub open_socket : Bool
  pub live : Bool

-- The operation that a handler has begun runs on the socket as it is then.
abbrev pub on_socket : Option Operation → Bool → Session → Link
on_socket none up s = record { session = s; open_socket = up; live = false }
on_socket (some resolving) up s = record { session = s; open_socket = up; live = true }
on_socket (some connecting) up s = record { session = s; open_socket = up; live = true }
on_socket (some tls_shaking) up s = record { session = s; open_socket = up; live = up }
on_socket (some shaking) up s = record { session = s; open_socket = up; live = up }
on_socket (some writing) up s = record { session = s; open_socket = up; live = up }
on_socket (some reading) up s = record { session = s; open_socket = up; live = up }

-- Whether the socket is open behind what a session did.
abbrev pub open_after : List Effect → Bool → Bool
open_after [] up = up
open_after (close_socket ∷ es) up = open_after es false
open_after (connect ∷ es) up = open_after es true
open_after (e ∷ es) up = open_after es up

abbrev pub settle : Bool → Result → Link × List Effect
settle up (s, effects) = (on_socket s.operation (open_after effects up) s, effects)

-- An end that succeeds comes only where it can.
abbrev pub possible : Option ErrorCode → Bool → Bool
possible none live = live
possible (some e) live = true

abbrev pub arrives : Link → Option ErrorCode → Result → Link × List Effect
arrives l e r = if possible e l.live then settle l.open_socket r else (l, [])

abbrev pub ended : Operation → Event → Link → Link × List Effect
ended resolving (resolved e) l = arrives l e (on_resolve e l.session)
ended connecting (connected e sni) l = arrives l e (on_connect e sni l.session)
ended tls_shaking (tls_shaken e) l = arrives l e (on_tls_handshake e l.session)
ended shaking (shaken e) l = arrives l e (on_handshake e l.session)
ended writing (written e) l = arrives l e (on_write e l.session)
ended reading (received e m) l = arrives l e (on_read e m l.session)
ended operation e l = (l, [])

abbrev pub pending : Option Operation → Event → Link → Link × List Effect
pending none e l = (l, [])
pending (some operation) e l = ended operation e l

unfoldable pub step : Event → Link → Link × List Effect
unfolding stop
step stops l =
    let (s, effects) = stop l.session in
    (record l { session = s; open_socket = open_after effects l.open_socket }, effects)
step e l = pending l.session.operation e l

unfoldable pub run : List Event → Link → Link × List Effect
unfolding step
run [] l = (l, [])
run (e ∷ es) l =
    let (l', effects) = step e l in let (l'', others) = run es l' in (l'', effects ++ others)

-- A session that was made and started, as `WebSocketClient::start` does.
abbrev pub started : Bytes → Bool → Link
started name handler = record {
  session = (start (create name handler)).0;
  open_socket = false;
  live = true;
}

-- The messages that the handler is called with.
abbrev pub delivered : List Effect → List Bytes
delivered [] = []
delivered (call_handler m ∷ es) = m ∷ delivered es
delivered (e ∷ es) = delivered es
