-- ===== src/BinanceSocket/Tests.antt =====
-- A connection that is given two messages.
use exchange_connectivity.Base.{◌≡◌, ◌⊎◌, refl, true, List, [], ◌∷◌, none, take}
use exchange_connectivity.Base.Text.{codes}
use exchange_connectivity.BinanceSocket.{
  create, connect, write, send, on_resolve, on_connect, on_ssl_handshake, on_web_socket_handshake,
  on_write, on_read,
}
use exchange_connectivity.BinanceSocket.Connection.{
  Event, sends, resolved, connects, tls_shaken, shaken, written, received, texts, step, run,
  opening, sent,
}
use exchange_connectivity.BinanceSocket.Connection.Once.{HasFront, first_message_only}

abbrev two_sent : List Event
two_sent =
    sends (codes "a")
    ∷ resolved none
    ∷ connects none none
    ∷ tls_shaken none
    ∷ shaken none
    ∷ sends (codes "b")
    ∷ written none
    ∷ received none (codes "{}")
    ∷ sends (codes "c")
    ∷ []

one_written :
    texts (run two_sent (opening true true (codes "h") (codes "443") (codes "/ws"))).1
    ≡ codes "a" ∷ []
unfolding run step create connect write send on_resolve on_connect on_ssl_handshake
    on_web_socket_handshake on_write on_read
one_written = refl

first_message_only_example :
    let r = run two_sent (opening true true (codes "h") (codes "443") (codes "/ws")) in
    ((texts r.1 ≡ []) ⊎ (texts r.1 ≡ take 1 (sent two_sent))) × HasFront r.0
first_message_only_example =
    first_message_only true true (codes "h") (codes "443") (codes "/ws") two_sent
