-- ===== src/Rest/Session.antt =====
-- `RestSession`: one request, as a state machine on its strand. An event is the completion handler
-- of an operation that was started, with what the operation reports; Boost.Asio calls such a handler
-- at most once, and that is all that `pending` records. The deadline runs beside the rest.
pub mod Completion
pub mod Writing
pub mod Tests
use exchange_connectivity.Base.{
  ℕ, not, Bool, true, false, ◌||◌, List, [], ◌∷◌, ◌++◌, Option, none, some, Fallible, ok, err,
  if◌then◌else◌,
}
use exchange_connectivity.Base.Text.{Bytes, codes, is_empty}
use exchange_connectivity.Rest.{
  Verb, RestError, RestFailure, HttpRequest, HttpResponse, Response, resolve_failed, connect_failed,
  tls_handshake_failed, write_failed, read_failed, timeout, invalid_request,
}

pub data State : Type 0 where
  idle running completed : State

-- The operation of the request chain that is under way.
pub data Operation : Type 0 where
  resolving connecting handshaking writing reading : Operation

-- The message that is written, of version 1.1. Its fields are set in this order, and Boost.Beast replaces a field that
-- is set again; with `prepared` it adds those that describe the body.
pub record Message : Type 0 where
  pub method : Verb
  pub target : Bytes
  pub fields : List (Bytes × Bytes)
  pub keep_alive : Bool
  pub body : Bytes
  pub prepared : Bool

-- What the session does to the outside: an operation or the timer is started, the message that it writes among
-- them, the timer or the resolver is cancelled, the socket is closed, the user's handler is called.
pub data Effect : Type 0 where
  start_operation : Operation → Effect
  write_message : Message → Effect
  start_timer cancel_timer cancel_resolver close_socket : Effect
  call_handler : Response → Effect

pub record Session : Type 0 where
  pub request : HttpRequest
  pub state : State
  -- Whether the `std::function` that was given can be called; it is moved out when it is.
  pub handler : Bool
  pub operation : Option Operation
  -- Whether the handler of the timer is still to come, and whether the timer was cancelled.
  pub timer : Bool
  pub timer_cancelled : Bool

pub create : HttpRequest → Bool → Session
create request handler = record {
  request = request;
  state = idle;
  handler = handler;
  operation = none;
  timer = false;
  timer_cancelled = false;
}

abbrev pub failure : RestError → Bytes → Response
failure error message = err (record { error = error; message = message })

-- `complete`.
pub complete : Session → Response → Session × List Effect
complete s response = elim s.state [
  | completed ↦ (s, [])
  | _ ↦ (
    record s { state = completed; handler = false; timer_cancelled = true },
    cancel_timer ∷ (if s.handler then call_handler response ∷ [] else []),
  )
]

begin : Session → Operation → Session × List Effect
begin s op = (record s { operation = some op }, start_operation op ∷ [])

-- `execute`, which `run` dispatches. `sni` is the error text of `SSL_set_tlsext_host_name`, if it
-- fails.
pub execute : Session → Option Bytes → Session × List Effect
unfolding complete begin
execute s sni =
    let s' = record s { state = running } in
    if is_empty s.request.host || is_empty s.request.port || is_empty s.request.target
    then complete s' (failure invalid_request (codes "Host, port and target are required"))
    else (elim sni [
      | some message ↦ complete s' (failure tls_handshake_failed message)
      | none ↦ (
        record s' { timer = true; operation = some resolving },
        start_timer ∷ start_operation resolving ∷ [],
      )
    ])

-- The common shape of `onResolve`, `onConnect` and `onWrite`: an error completes the
-- session with the code of the step, and success starts the next operation.
advance : Session → Option Bytes → RestError → Operation → Session × List Effect
unfolding complete begin
advance s error code next = elim s.state [
  | completed ↦ (s, [])
  | _ ↦ elim error [ some message ↦ complete s (failure code message) | none ↦ begin s next ]
]

pub on_resolve : Session → Option Bytes → Session × List Effect
unfolding advance
on_resolve s error = advance s error resolve_failed connecting

pub on_connect : Session → Option Bytes → Session × List Effect
unfolding advance
on_connect s error = advance s error connect_failed handshaking

-- What `onHandshake` makes of the request.
abbrev pub message_for : HttpRequest → Message
message_for request = record {
  method = request.method;
  target = request.target;
  fields =
      (codes "Host", request.host)
      ∷ (codes "User-Agent", codes "ExchangeConnectivity")
      ∷ request.headers;
  keep_alive = false;
  body = request.body;
  prepared = not (is_empty request.body);
}

pub on_handshake : Session → Option Bytes → Session × List Effect
unfolding complete
on_handshake s error = elim s.state [
  | completed ↦ (s, [])
  | _ ↦ elim error [
    | some message ↦ complete s (failure tls_handshake_failed message)
    | none ↦ (record s { operation = some writing }, write_message (message_for s.request) ∷ [])
  ]
]

pub on_write : Session → Option Bytes → Session × List Effect
unfolding advance
on_write s error = advance s error write_failed reading

pub on_read : Session → Fallible Bytes HttpResponse → Session × List Effect
unfolding complete
on_read s result = elim s.state [
  | completed ↦ (s, [])
  | _ ↦ elim result [
    | err message ↦ complete s (failure read_failed message)
    | ok response ↦ complete s (ok response)
  ]
]

-- `error` is whether the timer was cancelled, not expired.
pub on_timeout : Session → Bool → Session × List Effect
unfolding complete
on_timeout s true = (s, [])
on_timeout s false = elim s.state [
  | completed ↦ (s, [])
  | _ ↦
      let (s', effects) = complete s (failure timeout (codes "Request deadline exceeded")) in
      (s', cancel_resolver ∷ close_socket ∷ effects)
]
