-- ===== src/Stream.antt =====
-- binance_connector/networking/websocket_client.cpp: `WebSocketSession`, which subscribes to one stream and reads
-- it; web_socket_client_old repeats it. A completion handler returns the new state with its effects in order.
pub mod Network
pub mod Client
pub mod Tests
use exchange_connectivity.Base.{
  Bool, true, false, List, [], ◌∷◌, ◌++◌, Option, none, some, if◌then◌else◌,
}
use exchange_connectivity.Base.Text.{Bytes, codes}

-- The operation that is under way.
pub data Operation : Type 0 where
  resolving connecting tls_shaking shaking writing reading : Operation

-- An error code, as far as the code looks at it.
pub data ErrorCode : Type 0 where
  closed operation_aborted : ErrorCode
  other : Bytes → ErrorCode

pub data Effect : Type 0 where
  resolve connect tls_handshake handshake read close_socket : Effect
  write : Bytes → Effect
  call_handler : Bytes → Effect
  log : Bytes → Effect

pub record Session : Type 0 where
  pub stream_name : Bytes
  -- Whether the message handler can be called.
  pub handler : Bool
  pub operation : Option Operation

abbrev pub Result : Type 0
Result = Session × List Effect

pub create : Bytes → Bool → Session
create name handler = record { stream_name = name; handler = handler; operation = none }

abbrev begin : Session → Operation → Effect → Result
begin s operation effect = (record s { operation = some operation }, effect ∷ [])

pub start : Session → Result
start s = begin s resolving resolve

-- It cancels and closes the socket, and leaves the resolver alone.
pub stop : Session → Result
stop s = (s, close_socket ∷ [])

-- `reportError`; what is logged stands without the text of the code.
pub report_error : Bytes → ErrorCode → List Effect
report_error operation operation_aborted = []
report_error operation closed = log operation ∷ []
report_error operation (other text) = log operation ∷ []

pub fail : Session → Bytes → ErrorCode → Result
unfolding report_error
fail s operation error = (record s { operation = none }, report_error operation error)

pub on_resolve : Option ErrorCode → Session → Result
unfolding fail
on_resolve (some e) s = fail s (codes "WebSocket resolve failed") e
on_resolve none s = begin s connecting connect

-- The handler of `async_connect`, and `onConnected`; `sni` is whether `SSL_set_tlsext_host_name` succeeds.
pub on_connect : Option ErrorCode → Bool → Session → Result
unfolding fail stop
on_connect (some e) sni s = fail s (codes "WebSocket connect failed") e
on_connect none sni s =
    let halted = stop (record s { operation = none }) in
    if sni
    then begin s tls_shaking tls_handshake
    else (halted.0, log (codes "Failed to configure TLS SNI") ∷ halted.1)

pub on_tls_handshake : Option ErrorCode → Session → Result
unfolding fail
on_tls_handshake (some e) s = fail s (codes "WebSocket TLS handshake failed") e
on_tls_handshake none s = begin s shaking handshake

abbrev pub subscription : Bytes → Bytes
subscription name =
    codes "{\"method\":\"SUBSCRIBE\",\"params\":[\"" ++ (name ++ codes "\"],\"id\":1}")

-- The handler of `async_handshake`, and `subscribe`.
pub on_handshake : Option ErrorCode → Session → Result
unfolding fail
on_handshake (some e) s = fail s (codes "WebSocket handshake failed") e
on_handshake none s = begin s writing (write (subscription s.stream_name))

pub on_write : Option ErrorCode → Session → Result
unfolding fail
on_write (some e) s = fail s (codes "WebSocket subscription failed") e
on_write none s = begin s reading read

abbrev read_error : Session → ErrorCode → Result
read_error s closed = (record s { operation = none }, [])
read_error s operation_aborted = (record s { operation = none }, [])
read_error s (other text) =
    (record s { operation = none }, log (codes "WebSocket read failed") ∷ [])

-- The message is that of the buffer, which is emptied.
pub on_read : Option ErrorCode → Bytes → Session → Result
on_read (some e) message s = read_error s e
on_read none message s = (
  record s { operation = some reading },
  (if s.handler then call_handler message ∷ [] else []) ++ read ∷ [],
)
