-- ===== src/Stream/Tests.antt =====
-- A session on one stream that is stopped while it reads.
use exchange_connectivity.Base.{◌≤◌, ◌≡◌, refl, true, List, [], ◌∷◌, some, none}
use exchange_connectivity.Base.Text.{Bytes, codes}
use exchange_connectivity.Stream.{
  reading, resolving, close_socket, stop, start, create, on_resolve, on_connect, on_tls_handshake,
  on_handshake, on_write, on_read,
}
use exchange_connectivity.Stream.Network.{
  Event, stops, resolved, connected, tls_shaken, shaken, written, received, Link, step, run,
  started, delivered,
}
use exchange_connectivity.Stream.Client.{WebSocketClient, start_client}
use exchange_connectivity.Stream.Client.Replacing.{delivered_by, start_replaces}
use exchange_connectivity.Stream.Network.Protocol.{Stage, before_connect, watch}
use exchange_connectivity.Stream.Network.Order.{protocol_followed}
use exchange_connectivity.Stream.Network.Stopping.{stop_unheeded}

abbrev name : Bytes
name = codes "btcusdt@trade"

abbrev until_reading : List Event
until_reading =
    resolved none
    ∷ connected none true
    ∷ tls_shaken none
    ∷ shaken none
    ∷ written none
    ∷ received none (codes "{}")
    ∷ []

abbrev reading_link : Link
reading_link = (run until_reading (started name true)).0

one_delivered : delivered (run until_reading (started name true)).1 ≡ codes "{}" ∷ []
unfolding run step start create on_resolve on_connect on_tls_handshake on_handshake on_write on_read
one_delivered = refl

protocol_followed_example :
    (last : Stage) × (watch name true before_connect (run until_reading (started name true)).1
      ≡ some last)
protocol_followed_example = protocol_followed name true until_reading

abbrev reader_at_work : Link
reader_at_work = record {
  session = record { stream_name = name; handler = true; operation = some reading };
  open_socket = true;
  live = true;
}

abbrev client_at_work : WebSocketClient
client_at_work = record { stream_name = name; session = some reader_at_work }

abbrev two_arrive : List Event
two_arrive = received none (codes "{}") ∷ received none (codes "[]") ∷ []

-- The read has already ended when the session is stopped, and its message still comes.
start_replaces_example :
    let (c', former) = start_client true client_at_work in
    (c'.session ≡ some (started name true)) × (delivered_by former two_arrive ≤ 1)
start_replaces_example = start_replaces true client_at_work reader_at_work two_arrive refl tt

still_resolving : (run [] (started name true)).0.session.operation ≡ some resolving
unfolding run start
still_resolving = refl

-- A session that is stopped while it resolves its host delivers its message all the same.
delivered_still : delivered (run (stops ∷ until_reading) (started name true)).1 ≡ codes "{}" ∷ []
unfolding run step start create stop on_resolve on_connect on_tls_handshake on_handshake on_write
    on_read
delivered_still = refl

stop_unheeded_example :
    (run (stops ∷ until_reading) (run [] (started name true)).0).1
    ≡ close_socket ∷ (run until_reading (run [] (started name true)).0).1
stop_unheeded_example = stop_unheeded name true [] until_reading still_resolving
