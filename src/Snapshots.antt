-- ===== src/Snapshots.antt =====
-- binance_connector/networking/rest_client.cpp: `SnapshotRequest`, which asks for a snapshot of the order book, and
-- `RestClient`, which makes one for each call. A completion handler returns the new state with its effects in order.
pub mod Runs
pub mod Once
pub mod Asked
pub mod Tests
use exchange_connectivity.Base.{
  ℕ, ◌-◌, ◌+◌, Bool, true, false, ◌&&◌, List, [], ◌∷◌, ◌++◌, map, Option, none, some, Fallible, ok,
  err, leb, ◌==◌, not, if◌then◌else◌,
}
use exchange_connectivity.Base.Text.{Bytes, codes}
use exchange_connectivity.Decimal.Print.{format_unsigned}
use exchange_connectivity.Connector.{
  RestError, RestFailure, Response, resolve_failed, connect_failed, tls_handshake_failed,
  write_failed, read_failed, invalid_response,
}

pub upper : ℕ → ℕ
upper c = if leb b'a' c && leb c b'z' then (c - 97) + 65 else c

-- `toUpper`.
pub to_upper : Bytes → Bytes
unfolding upper
to_upper value = map upper value

-- The GET request that is sent: its version in tenths, its target, its fields.
pub record HttpRequest : Type 0 where
  pub version : ℕ
  pub target : Bytes
  pub headers : List (Bytes × Bytes)

pub record HttpResponse : Type 0 where
  pub status : ℕ
  pub body : Bytes

-- The operation that is under way.
pub data Operation : Type 0 where
  resolving connecting handshaking writing reading : Operation

pub data Effect : Type 0 where
  resolve : Bytes → Bytes → Effect
  connect read : Effect
  verify_and_handshake : Bytes → Effect
  write : HttpRequest → Effect
  call_handler : Response → Effect

pub record SnapshotRequest : Type 0 where
  pub symbol : Bytes
  -- Whether the handler can be called.
  pub handler : Bool
  pub completed : Bool
  pub operation : Option Operation

abbrev pub Result : Type 0
Result = SnapshotRequest × List Effect

pub create : Bytes → Bool → SnapshotRequest
unfolding to_upper
create symbol handler = record {
  symbol = to_upper symbol;
  handler = handler;
  completed = false;
  operation = none;
}

abbrev begin : SnapshotRequest → Operation → Effect → Result
begin s operation effect = (record s { operation = some operation }, effect ∷ [])

abbrev pub host : Bytes
host = codes "api.binance.com"

pub start : SnapshotRequest → Result
start s = begin s resolving (resolve host (codes "443"))

pub finish : Response → SnapshotRequest → Result
finish result s =
    if s.completed
    then (s, [])
    else (record s { completed = true }, if s.handler then call_handler result ∷ [] else [])

-- The operation has ended, and none is begun.
abbrev fail : RestError → Bytes → SnapshotRequest → Result
fail error message s =
    finish (err (record { error = error; message = message })) (record s { operation = none })

-- An operation that fails does so with the message of its error code.
pub on_resolve : Option Bytes → SnapshotRequest → Result
unfolding finish
on_resolve (some message) s = fail resolve_failed message s
on_resolve none s = begin s connecting connect

-- The handler of `async_connect`, and `onConnected`; `sni` is whether `SSL_set_tlsext_host_name` succeeds.
pub on_connect : Option Bytes → Bool → SnapshotRequest → Result
unfolding finish
on_connect (some message) sni s = fail connect_failed message s
on_connect none sni s =
    if sni
    then begin s handshaking (verify_and_handshake host)
    else fail tls_handshake_failed (codes "Failed to configure TLS SNI") s

abbrev pub request_for : Bytes → HttpRequest
request_for symbol = record {
  version = 11;
  target = codes "/api/v3/depth?symbol=" ++ (symbol ++ codes "&limit=1000");
  headers =
      (codes "Host", host)
      ∷ (codes "User-Agent", codes "BinanceConnector/1.0")
      ∷ (codes "Accept", codes "application/json")
      ∷ [];
}

-- The handler of `async_handshake`, and `sendRequest`.
pub on_handshake : Option Bytes → SnapshotRequest → Result
unfolding finish
on_handshake (some message) s = fail tls_handshake_failed message s
on_handshake none s = begin s writing (write (request_for s.symbol))

-- The handler of `async_write`, and `readResponse`.
pub on_write : Option Bytes → SnapshotRequest → Result
unfolding finish
on_write (some message) s = fail write_failed message s
on_write none s = begin s reading read

abbrev pub refusal : HttpResponse → Bytes
refusal r = codes "HTTP status " ++ (format_unsigned r.status ++ (codes ": " ++ r.body))

pub on_read : Fallible Bytes HttpResponse → SnapshotRequest → Result
unfolding finish
on_read (err message) s = fail read_failed message s
on_read (ok r) s =
    if not (r.status == 200)
    then fail invalid_response (refusal r) s
    else finish (ok r.body) (record s { operation = none })

-- `RestClient::asyncGetDepthSnapshot`.
pub async_get_depth_snapshot : Bytes → Bool → Result
unfolding create start
async_get_depth_snapshot symbol handler = start (create symbol handler)
