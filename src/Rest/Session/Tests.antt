-- ===== src/Rest/Session/Tests.antt =====
-- A session whose deadline expires while it connects.
use exchange_connectivity.Base.{◌≡◌, refl, true, false, List, [], ◌∷◌, none}
use exchange_connectivity.Base.Text.{codes}
use exchange_connectivity.Rest
use exchange_connectivity.Rest.{HttpRequest, timeout}
use exchange_connectivity.Rest.Session.{
  create, execute, on_resolve, on_connect, on_handshake, running, completed, failure,
}
use exchange_connectivity.Rest.Session.Writing.{messages, wire_message}
use exchange_connectivity.Rest.Session.Completion.{
  Event, executes, resolved, connected, handshaken, expires, step, run, calls, answers, outcomes,
  handler_once, deadline_answers,
}

abbrev request : HttpRequest
request = record {
  host = codes "api.binance.com";
  port = codes "443";
  target = codes "/api/v3/order";
  method = Rest.post;
  headers = [];
  body = [];
}

abbrev begun : List Event
begun = executes none ∷ resolved none ∷ []

abbrev expired : List Event
expired = executes none ∷ resolved none ∷ expires false ∷ []

handler_once_example :
    calls (run expired (create request true)).1
    ≡ answers (run expired (create request true)).0.state
handler_once_example = handler_once request expired

still_running : (run begun (create request true)).0.state ≡ running
unfolding run step create execute on_resolve
still_running = refl

deadline_answers_example :
    let (s', effects) = step (expires false) (run begun (create request true)).0 in
    (s'.state ≡ completed)
    × (outcomes effects ≡ failure timeout (codes "Request deadline exceeded") ∷ [])
deadline_answers_example = deadline_answers request begun still_running

abbrev until_written : List Event
until_written = executes none ∷ resolved none ∷ connected none ∷ handshaken none ∷ []

one_written : messages (run until_written (create request true)).1 ≡ wire_message request ∷ []
unfolding run step create execute on_resolve on_connect on_handshake
one_written = refl
