-- ===== src/WebSocket.antt =====
-- web_socket_client/web_socket_client.cpp: `WebSocketSession`, which
-- binance_order_execution_module/networking repeats. Everything runs on one strand: an event is a
-- posted call or the completion handler of an operation, and a handler returns the new state with
-- its effects in order.
pub mod Order
pub mod Client
pub mod Tests
use exchange_connectivity.Base.{
  Bool, true, false, ◌&&◌, not, List, [], ◌∷◌, ◌++◌, Option, none, some, if◌then◌else◌,
}
use exchange_connectivity.Base.Text.{Bytes, codes}

pub data State : Type 0 where
  idle connecting connected stopped : State

-- An error code, as far as the code looks at it.
pub data ErrorCode : Type 0 where
  closed operation_aborted : ErrorCode
  other : Bytes → ErrorCode

pub data Effect : Type 0 where
  resolve connect tls_handshake handshake read cancel_resolver close_socket : Effect
  write : Bytes → Effect
  call_handler : Bytes → Effect
  log : Bytes → Effect

pub record Session : Type 0 where
  pub state : State
  pub writing : Bool
  pub outgoing_messages : List Bytes
  -- Whether the message handler can be called.
  pub handler : Bool

abbrev Result : Type 0
Result = Session × List Effect

pub create : Bool → Session
create handler = record { state = idle; writing = false; outgoing_messages = []; handler = handler }

-- `stopNow`.
unfoldable pub stop_now : Session → Result
stop_now s = elim s.state [
  | stopped ↦ (s, [])
  | _ ↦ (
    record s { state = stopped; writing = false; outgoing_messages = [] },
    cancel_resolver ∷ close_socket ∷ [],
  )
]

abbrev report : Bytes → ErrorCode → List Effect
report operation operation_aborted = []
report operation closed = log operation ∷ []
report operation (other text) = log operation ∷ []

fail : Session → Bytes → ErrorCode → Result
unfolding stop_now
fail s operation error = let (s', effects) = stop_now s in (s', report operation error ++ effects)

-- `write`, by the message at the front of the queue.
write_front : Session → List Bytes → Result
write_front s [] = (s, [])
write_front s (m ∷ ms) = if s.writing then (s, []) else (record s { writing = true }, write m ∷ [])

unfoldable pub write_next : Session → Result
unfolding write_front
write_next s = elim s.state [ connected ↦ write_front s s.outgoing_messages | _ ↦ (s, []) ]

-- The calls that `start`, `send` and `stop` post.
pub start : Session → Result
start s = elim s.state [ idle ↦ (record s { state = connecting }, resolve ∷ []) | _ ↦ (s, []) ]

pub send : Bytes → Session → Result
unfolding write_next
send message s = elim s.state [
  | stopped ↦ (s, [])
  | _ ↦ write_next (record s { outgoing_messages = s.outgoing_messages ++ message ∷ [] })
]

pub stop : Session → Result
unfolding stop_now
stop s = stop_now s

-- A step of the connection: only while connecting; an error stops the session.
abbrev connecting_step : Session → Option ErrorCode → Bytes → Result → Result
connecting_step s error operation next = elim s.state [
  | connecting ↦ (elim error [ some e ↦ fail s operation e | none ↦ next ])
  | _ ↦ (s, [])
]

pub on_resolve : Option ErrorCode → Session → Result
unfolding fail
on_resolve error s = connecting_step s error (codes "WebSocket resolve failed") (s, connect ∷ [])

-- `sni` is whether `SSL_set_tlsext_host_name` succeeds.
pub on_connect : Option ErrorCode → Bool → Session → Result
unfolding fail stop_now
on_connect error sni s =
    let refused = stop_now s in
    connecting_step s error (codes "WebSocket connect failed") (
      if sni
      then (s, tls_handshake ∷ [])
      else (refused.0, log (codes "Failed to configure TLS SNI") ∷ refused.1))

pub on_tls_handshake : Option ErrorCode → Session → Result
unfolding fail
on_tls_handshake error s =
    connecting_step s error (codes "WebSocket TLS handshake failed") (s, handshake ∷ [])

pub on_handshake : Option ErrorCode → Session → Result
unfolding fail write_next
on_handshake error s =
    let written = write_next (record s { state = connected }) in
    connecting_step s error (codes "WebSocket handshake failed") (written.0, read ∷ written.1)

abbrev read_error : Session → ErrorCode → Result
read_error s closed = stop_now s
read_error s operation_aborted = fail s (codes "WebSocket read failed") operation_aborted
read_error s (other text) = fail s (codes "WebSocket read failed") (other text)

-- The message is that of the buffer, which is emptied.
pub on_read : Option ErrorCode → Bytes → Session → Result
unfolding fail stop_now
on_read error message s = elim s.state [
  | connected ↦ (elim error [
    | some e ↦ read_error s e
    | none ↦ (s, (if s.handler then call_handler message ∷ [] else []) ++ read ∷ [])
  ])
  | _ ↦ (s, [])
]

abbrev pub tail_of : List Bytes → List Bytes
tail_of [] = []
tail_of (m ∷ ms) = ms

pub on_write : Option ErrorCode → Session → Result
unfolding fail write_next
on_write error s = elim s.state [
  | stopped ↦ (s, [])
  | _ ↦
      let s' = record s { writing = false } in
      (elim error [
        | some e ↦ fail s' (codes "WebSocket write failed") e
        | none ↦ write_next (record s' { outgoing_messages = tail_of s.outgoing_messages })
      ])
]
