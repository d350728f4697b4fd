-- ===== src/BinanceSocket/Connection.antt =====
-- One connection of a client: from `connect` on, the ends of the operations that are under way, and the calls of
-- `send` and `close`, in any order.
pub mod Once
use exchange_connectivity.Base.{
  ◌≡◌, ◌≢◌, ◌⊎◌, inl, inr, refl, sym, ap, ◌∙◌, subst, Bool, true, false, ◌||◌, not, List, [], ◌∷◌,
  ◌++◌, append-nil, append_assoc, take, Option, none, some, arith, if◌then◌else◌,
}
use exchange_connectivity.Base.Text.{Bytes, is_empty}
use exchange_connectivity.BinanceSocket.{
  State, disconnected, connected, ErrorCode, FrameType, Effect, write_text, close_socket, Client,
  Result, create, on_control, connect, write, send, on_resolve, on_connect, on_ssl_handshake,
  on_web_socket_handshake, on_write, on_read, on_close, close,
}

-- The operation by which the client is being connected.
pub data SetUp : Type 0 where
  resolving connecting tls_shaking shaking : SetUp

pub data Event : Type 0 where
  sends : Bytes → Event
  closes : Option ErrorCode → Event
  resolved tls_shaken shaken written : Option ErrorCode → Event
  connects : Option ErrorCode → Option ErrorCode → Event
  received : Option ErrorCode → Bytes → Event
  controlled : FrameType → Event

-- The client with the operations that are under way.
pub record Link : Type 0 where
  pub client : Client
  pub set_up : Option SetUp
  -- The message whose write is under way.
  pub writes : Option Bytes
  pub reads : Bool

abbrev pub Stepped : Type 0
Stepped = Link × List Effect

abbrev pub texts : List Effect → List Bytes
texts [] = []
texts (write_text m ∷ es) = m ∷ texts es
texts (e ∷ es) = texts es

-- The write that is under way behind those that were begun.
abbrev pub latest : Option Bytes → List Bytes → Option Bytes
latest writes [] = writes
latest writes (m ∷ ms) = latest (some m) ms

-- The client after a handler, which may have begun to write.
abbrev pub continue : Option SetUp → Option Bytes → Bool → Result → Stepped
continue set_up writes reads (c, effects) = (
  record { client = c; set_up = set_up; writes = latest writes (texts effects); reads = reads },
  effects,
)

abbrev pub next_on : Option ErrorCode → SetUp → Option SetUp
next_on (some e) next = none
next_on none next = some next

abbrev pub succeeds : Option ErrorCode → Bool
succeeds (some e) = false
succeeds none = true

abbrev pub joined : Option ErrorCode → Option ErrorCode → Option ErrorCode
joined (some e) f = some e
joined none f = f

abbrev pub setting_up : SetUp → Event → Link → Stepped
setting_up resolving (resolved e) l =
    continue (next_on e connecting) l.writes l.reads (on_resolve e l.client)
setting_up connecting (connects e sni) l =
    continue (next_on (joined e sni) tls_shaking) l.writes l.reads (on_connect e sni l.client)
setting_up tls_shaking (tls_shaken e) l =
    continue (next_on e shaking) l.writes l.reads (on_ssl_handshake e l.client)
setting_up shaking (shaken e) l =
    continue none l.writes (succeeds e) (on_web_socket_handshake e l.client)
setting_up s e l = (l, [])

abbrev pub pending : Option SetUp → Event → Link → Stepped
pending none e l = (l, [])
pending (some s) e l = setting_up s e l

abbrev pub ends_write : Option Bytes → Option ErrorCode → Link → Stepped
ends_write none e l = (l, [])
ends_write (some m) e l = continue l.set_up none l.reads (on_write e l.client)

unfoldable pub step : Event → Link → Stepped
step (sends m) l = continue l.set_up l.writes l.reads (send m l.client)
step (closes failure) l = continue l.set_up l.writes l.reads (close failure l.client)
step (controlled frame) l = (l, on_control frame)
step (written e) l = ends_write l.writes e l
step (received e m) l =
    if l.reads then continue l.set_up l.writes (succeeds e) (on_read e m l.client) else (l, [])
step e l = pending l.set_up e l

unfoldable pub run : List Event → Link → Stepped
unfolding step
run [] l = (l, [])
run (e ∷ es) l =
    let (l', effects) = step e l in let (l'', others) = run es l' in (l'', effects ++ others)

abbrev pub opening : Bool → Bool → Bytes → Bytes → Bytes → Link
opening message_handler error_handler host port target = record {
  client = (connect host port target (create message_handler error_handler)).0;
  set_up = some resolving;
  writes = none;
  reads = false;
}

-- The messages that `send` is called with.
abbrev pub sent : List Event → List Bytes
sent [] = []
sent (sends m ∷ es) = m ∷ sent es
sent (e ∷ es) = sent es
