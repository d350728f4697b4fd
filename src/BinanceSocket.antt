-- ===== src/BinanceSocket.antt =====
-- binance/binance_web_socket_client.hpp and .cpp: `BinanceWebSocketClient`, with a queue of messages to write. A
-- method or a completion handler returns the new state with its effects in order.
pub mod Connection
pub mod Tests
use exchange_connectivity.Base.{
  Bool, true, false, ◌&&◌, not, List, [], ◌∷◌, ◌++◌, Option, none, some, if◌then◌else◌,
}
use exchange_connectivity.Base.Text.{Bytes, is_empty}

pub data State : Type 0 where
  disconnected resolving connecting tls_handshake web_socket_handshake connected writing : State

-- An error code, as far as the code looks at it.
pub data ErrorCode : Type 0 where
  closed : ErrorCode
  other : Bytes → ErrorCode

pub data FrameType : Type 0 where
  ping pong close_frame : FrameType

pub data Effect : Type 0 where
  resolve : Bytes → Bytes → Effect
  open_socket shake_tls read_message send_pong close_socket : Effect
  shake_web_socket : Bytes → Bytes → Effect
  write_text : Bytes → Effect
  call_message : Bytes → Effect
  call_error : ErrorCode → Effect

pub record Client : Type 0 where
  pub host : Bytes
  pub target : Bytes
  pub write_queue : List Bytes
  -- Whether the handlers can be called.
  pub message_handler : Bool
  pub error_handler : Bool
  pub state : State

abbrev pub Result : Type 0
Result = Client × List Effect

unfoldable pub create : Bool → Bool → Client
create message_handler error_handler = record {
  host = [];
  target = [];
  write_queue = [];
  message_handler = message_handler;
  error_handler = error_handler;
  state = disconnected;
}

-- The control callback that the constructor sets.
unfoldable pub on_control : FrameType → List Effect
on_control ping = send_pong ∷ []
on_control pong = []
on_control close_frame = []

unfoldable pub connect : Bytes → Bytes → Bytes → Client → Result
connect host port target c = (record c { host = host; target = target }, resolve host port ∷ [])

-- `if (errorHandler) errorHandler(errorCode);`
abbrev report : Client → ErrorCode → List Effect
report c error = if c.error_handler then call_error error ∷ [] else []

abbrev is_connected : State → Bool
is_connected connected = true
is_connected disconnected = false
is_connected resolving = false
is_connected connecting = false
is_connected tls_handshake = false
is_connected web_socket_handshake = false
is_connected writing = false

abbrev write_front : Client → List Bytes → Result
write_front c [] = (c, [])
write_front c (message ∷ messages) = (record c { state = writing }, write_text message ∷ [])

unfoldable pub write : Client → Result
write c = if not (is_connected c.state) then (c, []) else write_front c c.write_queue

unfoldable pub send : Bytes → Client → Result
unfolding write
send message c =
    let queued = record c { write_queue = c.write_queue ++ message ∷ [] } in
    if is_connected queued.state then write queued else (queued, [])

unfoldable pub on_resolve : Option ErrorCode → Client → Result
on_resolve (some e) c = (c, report c e)
on_resolve none c = (c, open_socket ∷ [])

-- `sni` is the error of `SSL_set_tlsext_host_name`, where it fails.
unfoldable pub on_connect : Option ErrorCode → Option ErrorCode → Client → Result
on_connect (some e) sni c = (c, report c e)
on_connect none (some e) c = (c, report c e)
on_connect none none c = (c, shake_tls ∷ [])

unfoldable pub on_ssl_handshake : Option ErrorCode → Client → Result
on_ssl_handshake (some e) c = (c, report c e)
on_ssl_handshake none c = (c, shake_web_socket c.host c.target ∷ [])

unfoldable pub on_web_socket_handshake : Option ErrorCode → Client → Result
unfolding write
on_web_socket_handshake (some e) c = (c, report c e)
on_web_socket_handshake none c =
    let (c', effects) = write (record c { state = connected }) in (c', effects ++ read_message ∷ [])

-- `pop_front`, which wants a queue that is not empty.
abbrev pop_front : List Bytes → List Bytes
pop_front [] = []
pop_front (message ∷ messages) = messages

unfoldable pub on_write : Option ErrorCode → Client → Result
unfolding write
on_write (some e) c = (record c { state = disconnected }, report c e)
on_write none c =
    let popped = record c { state = disconnected; write_queue = pop_front c.write_queue } in
    if not (is_empty popped.write_queue) then write popped else (popped, [])

abbrev is_closed : ErrorCode → Bool
is_closed closed = true
is_closed (other text) = false

unfoldable pub on_close : ErrorCode → Client → Result
on_close e c = (
  record c { state = disconnected },
  if not (is_closed e) && c.error_handler then call_error e ∷ [] else [],
)

-- The message is that of the buffer, which is emptied.
unfoldable pub on_read : Option ErrorCode → Bytes → Client → Result
unfolding on_close
on_read (some e) message c = on_close e c
on_read none message c =
    (c, (if c.message_handler then call_message message ∷ [] else []) ++ read_message ∷ [])

-- The first argument is the error of closing the socket, where it fails.
unfoldable pub close : Option ErrorCode → Client → Result
unfolding on_close
close failure c =
    let failed : Result = elim failure [ none ↦ (c, []) | some e ↦ on_close e c ] in
    if not (is_connected c.state) then (c, []) else (failed.0, close_socket ∷ failed.1)
