-- ===== src/Stream/Client/Replacing.antt =====
-- What is left of a session that another one replaces.
use exchange_connectivity.Base.{ℕ, ◌≤◌, ◌≡◌, refl, Bool, List, Option, none, some, length}
use exchange_connectivity.Stream.{stop}
use exchange_connectivity.Stream.Network.{Event, Link, stops, step, run, started, delivered}
use exchange_connectivity.Stream.Network.Stopping.{WillNotOpen, stop_ends}
use exchange_connectivity.Stream.Client.{WebSocketClient, stop_client, start_client}

-- The messages that a session which was let go of still delivers.
abbrev pub delivered_by : Option Link → List Event → ℕ
delivered_by none es = 0
delivered_by (some link) es = length (delivered (run es link).1)

stopped_delivers :
    (es : List Event) (link : Link)
    → WillNotOpen link.session.operation
    → length (delivered (run es (step stops link).0).1) ≤ 1
unfolding run step stop
stopped_delivers es link past = stop_ends es link past

-- A client that is started again while its session is past resolving its host has the new session, and the one that
-- it replaces delivers one more message at most, whatever ends in whatever order.
pub start_replaces :
    (handler : Bool) (c : WebSocketClient) (link : Link) (es : List Event)
    → c.session ≡ some link
    → WillNotOpen link.session.operation
    → let (c', former) = start_client handler c in
      (c'.session ≡ some (started c.stream_name handler)) × (delivered_by former es ≤ 1)
unfolding start_client stop_client
start_replaces handler c link es has past =
    rw (start_client, stop_client, has) (refl, stopped_delivers es link past)
