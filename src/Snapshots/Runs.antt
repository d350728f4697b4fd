-- ===== src/Snapshots/Runs.antt =====
-- Runs of a request over the ends of its operations.
use exchange_connectivity.Base.{
  ◌≡◌, refl, ap, Bool, true, List, [], ◌∷◌, ◌++◌, Option, none, some, Fallible, ok, err, ◌>>=◌,
  ◌==◌, guard, arith,
}
use exchange_connectivity.Base.Text.{Bytes, codes}
use exchange_connectivity.Connector.{
  RestError, RestFailure, Response, resolve_failed, connect_failed, tls_handshake_failed,
  write_failed, read_failed, invalid_response,
}
use exchange_connectivity.Snapshots.{
  HttpResponse, Operation, resolving, connecting, handshaking, writing, reading, Effect,
  call_handler, SnapshotRequest, Result, create, start, finish, refusal, on_resolve, on_connect,
  on_handshake, on_write, on_read, async_get_depth_snapshot,
}

pub data Event : Type 0 where
  resolved handshaken written : Option Bytes → Event
  connected : Option Bytes → Bool → Event
  received : Fallible Bytes HttpResponse → Event

-- An operation ends only while it is under way.
abbrev pub ended : Operation → Event → SnapshotRequest → Result
ended resolving (resolved e) s = on_resolve e s
ended connecting (connected e sni) s = on_connect e sni s
ended handshaking (handshaken e) s = on_handshake e s
ended writing (written e) s = on_write e s
ended reading (received r) s = on_read r s
ended operation e s = (s, [])

abbrev pub pending : Option Operation → Event → SnapshotRequest → Result
pending none e s = (s, [])
pending (some operation) e s = ended operation e s

unfoldable pub run : List Event → SnapshotRequest → Result
run [] s = (s, [])
run (e ∷ es) s =
    let (s', effects) = pending s.operation e s in
    let (s'', others) = run es s' in (s'', effects ++ others)

-- The outcomes that the handler is called with.
abbrev pub outcomes : List Effect → List Response
outcomes [] = []
outcomes (call_handler r ∷ es) = r ∷ outcomes es
outcomes (e ∷ es) = outcomes es

pub outcomes-append : (xs ys : List Effect) → outcomes (xs ++ ys) ≡ outcomes xs ++ outcomes ys
outcomes-append [] ys = refl
outcomes-append (call_handler r ∷ xs) ys = ap (λ t. r ∷ t) (outcomes-append xs ys)
outcomes-append (e ∷ xs) ys = outcomes-append xs ys

-- How each operation of a request ends.
pub record Ends : Type 0 where
  pub resolve_end : Option Bytes
  pub connect_end : Option Bytes
  pub sni : Bool
  pub handshake_end : Option Bytes
  pub write_end : Option Bytes
  pub read_end : Fallible Bytes HttpResponse

abbrev pub events_of : Ends → List Event
events_of w =
    resolved w.resolve_end
    ∷ connected w.connect_end w.sni
    ∷ handshaken w.handshake_end
    ∷ written w.write_end
    ∷ received w.read_end
    ∷ []

abbrev failing : RestError → Option Bytes → Fallible RestFailure (Unit {0})
failing error none = ok tt
failing error (some message) = err (record { error = error; message = message })

-- The request written straight: the first thing that fails is the answer, or else the body of a response whose
-- status is 200.
abbrev pub answer : Ends → Response
answer w = do
  _ ← failing resolve_failed w.resolve_end
  _ ← failing connect_failed w.connect_end
  _ ←
      guard w.sni
        (record { error = tls_handshake_failed; message = codes "Failed to configure TLS SNI" })
  _ ← failing tls_handshake_failed w.handshake_end
  _ ← failing write_failed w.write_end
  response ← elim w.read_end [
    | ok r ↦ ok r
    | err message ↦ err (record { error = read_failed; message = message })
  ]
  _ ←
      guard (response.status == 200)
        (record { error = invalid_response; message = refusal response })
  ok response.body

-- A request whose operations all end, in whatever way, calls its handler exactly once: with the first failure, or
-- with the body of a response of status 200.
pub request_answers :
    (symbol : Bytes) (w : Ends)
    → outcomes (run (events_of w) (async_get_depth_snapshot symbol true).0).1 ≡ answer w ∷ []
unfolding run async_get_depth_snapshot create start finish on_resolve on_connect on_handshake
    on_write on_read
request_answers symbol w = ground arith
