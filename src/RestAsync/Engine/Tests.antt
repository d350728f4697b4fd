-- ===== src/RestAsync/Engine/Tests.antt =====
-- Two requests, the second after the first has left its connection in the pool.
use exchange_connectivity.Base.{
  ◌+◌, ◌*◌, ◌≤◌, ◌≡◌, refl, true, false, List, [], ◌∷◌, ok, length, count, total, within,
}
use exchange_connectivity.Base.Text.{codes}
use exchange_connectivity.RestAsync.{ClientConfig, RawResponse}
use exchange_connectivity.RestAsync.Engine.{
  create, get_request, post_request, resolved, connected, shaken, written, received,
}
use exchange_connectivity.RestAsync.Engine.Single.{calls, shutdowns, holds, awaits}
use exchange_connectivity.RestAsync.Engine.Schedule.{
  Event, submits, completes, initial, run, answered_once, connections_kept,
}
use exchange_connectivity.RestAsync.Engine.Bound.{rounds, rounds_bounded}

abbrev config : ClientConfig
config = record {
  host = codes "api.binance.com";
  port = codes "443";
  user_agent = codes "RestClientAsync/3.0";
  https = true;
  verify_peer = true;
  follow_redirects = true;
  max_redirects = 5;
  max_pool_size = 8;
  keep_alive = true;
}

port_chosen : create (record config { port = [] }) ≡ ok config
unfolding create
port_chosen = refl

abbrev moved : RawResponse
moved = record {
  status = 302;
  reason = codes "Found";
  body = [];
  fields = (codes "LOCATION", codes "/v3/time") ∷ [];
}

abbrev done : RawResponse
done = record { status = 200; reason = codes "OK"; body = codes "{}"; fields = [] }

abbrev events : List Event
events =
    submits (get_request (codes "/time") [] 0)
    ∷ completes 0 (resolved false true true)
    ∷ completes 0 (connected false)
    ∷ completes 0 (shaken false)
    ∷ completes 0 (written false)
    ∷ completes 0 (received moved true)
    ∷ completes 0 (written false)
    ∷ completes 0 (received done true)
    ∷ submits (post_request (codes "/order") (codes "{}") (codes "application/json") [] 0)
    ∷ []

answered_once_example :
    calls 0 (run config events initial).1 + total (awaits 0) (run config events initial).0.active
    ≡ within 0 (run config events initial).0.given
answered_once_example = answered_once config events 0

connections_kept_example :
    (shutdowns 0 (run config events initial).1
        + count 0 (run config events initial).0.pool.idle
        + total (holds 0) (run config events initial).0.active
      ≡ within 0 (run config events initial).0.pool.made)
    × (length (run config events initial).0.pool.idle ≤ config.max_pool_size)
connections_kept_example = connections_kept config events 0

rounds_bounded_example :
    rounds config 0 events initial + total (awaits 0) (run config events initial).0.active
    ≤ 5 * (config.max_redirects + 1)
rounds_bounded_example = rounds_bounded config events 0
