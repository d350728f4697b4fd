-- ===== src/WebSocket/Tests.antt =====
-- Two messages, the first sent before the connection is up.
use exchange_connectivity.Base.{◌≡◌, refl, true, false, List, [], ◌∷◌, ◌++◌, none, some}
use exchange_connectivity.Base.Text.{Bytes, codes}
use exchange_connectivity.WebSocket.{
  create, connected, start, send, on_resolve, on_connect, on_tls_handshake, on_handshake, on_write,
}
use exchange_connectivity.WebSocket.Client
use exchange_connectivity.WebSocket.Client.{one_session}
use exchange_connectivity.WebSocket.Order.{
  Event, starts, sends, resolved, connects, tls_shaken, shaken, written, step, run, wire, accepted,
  messages_in_order,
}

abbrev events : List Event
events =
    starts
    ∷ sends (codes "one")
    ∷ resolved none
    ∷ connects none true
    ∷ tls_shaken none
    ∷ shaken none
    ∷ sends (codes "two")
    ∷ written none
    ∷ []

both_written : wire (run events (create true)).1 ≡ codes "one" ∷ codes "two" ∷ []
unfolding run step create start send on_resolve on_connect on_tls_handshake on_handshake on_write
both_written = refl

messages_in_order_example :
    let (s, effects) = run events (create true) in
    (rest : List Bytes) × (accepted events (create true) ≡ wire effects ++ rest)
    × (s.state ≡ connected → s.writing ≡ false → rest ≡ [])
messages_in_order_example = messages_in_order true events

one_session_example :
    let (c, posts) =
      Client.run
        (Client.starts true ∷ Client.sends (codes "one") ∷ Client.starts true ∷ [])
        Client.create in
    let (last, others) = Client.stop c in
    Client.watch none 0 (posts ++ others) ≡ some (none, last.created)
one_session_example =
    one_session (Client.starts true ∷ Client.sends (codes "one") ∷ Client.starts true ∷ [])
