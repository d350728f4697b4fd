-- ===== src/Rest/Session/Writing.antt =====
-- What a session writes.
use exchange_connectivity.Base.{◌≡◌, ◌⊎◌, false, not, List, [], ◌∷◌, some}
use exchange_connectivity.Base.Text.{codes, is_empty}
use exchange_connectivity.Rest.{HttpRequest}
use exchange_connectivity.Rest.Session.{
  running, completed, writing, reading, Effect, write_message, Message, Session,
}

abbrev pub messages : List Effect → List Message
messages [] = []
messages (write_message m ∷ es) = m ∷ messages es
messages (e ∷ es) = messages es

-- The session has written, or has ended.
abbrev Past : Session → Type 0
Past s =
    (s.state ≡ completed)
    ⊎ ((s.state ≡ running) × ((s.operation ≡ some writing) ⊎ (s.operation ≡ some reading)))

-- The request as it goes over the wire: its own fields behind the host and the name of the program.
abbrev pub wire_message : HttpRequest → Message
wire_message r = record {
  method = r.method;
  target = r.target;
  fields = (codes "Host", r.host) ∷ (codes "User-Agent", codes "ExchangeConnectivity") ∷ r.headers;
  keep_alive = false;
  body = r.body;
  prepared = not (is_empty r.body);
}
