-- ===== src/RestSync/Tests.antt =====
-- A client that follows one redirect at most.
use exchange_connectivity.Base.{
  ℕ, ◌+◌, ◌≤◌, ◌≡◌, refl, true, List, [], ◌∷◌, Option, none, some, ok, length, All, arith,
}
use exchange_connectivity.Base.Text.{Bytes, codes, to_lower}
use exchange_connectivity.RestAsync.{get, RawResponse, header, to_http_response}
use exchange_connectivity.RestAsync.Redirect.{is_redirect_status, extract_redirect_path}
use exchange_connectivity.RestAsync.Engine.{Request, reading, Pool, on_response, release_connection}
use exchange_connectivity.RestSync.{
  ClientConfig, Client, Turn, Endpoints, Message, Exchange, Done, attempt, ensure_endpoints_fresh,
  set_up, message, following, execute, request, get_call,
}
use exchange_connectivity.RestSync.Bounds.{IsFresh, IsLast, request_bounded}
use exchange_connectivity.RestSync.Agreement.{pooled, call_of, follows, redirects_agree}

abbrev config : ClientConfig
config = record {
  host = codes "api.binance.com";
  port = codes "443";
  dns_ttl = 60;
  user_agent = codes "RestClient/1.0";
  https = true;
  verify_peer = true;
  follow_redirects = true;
  max_redirects = 1;
}

abbrev moved : RawResponse
moved = record {
  status = 302;
  reason = codes "Found";
  body = [];
  fields = (codes "Location", codes "/next") ∷ [];
}

abbrev turn : ℕ → Turn
turn now = record {
  now = now;
  resolution = ok (codes "10.0.0.1" ∷ []);
  sni = true;
  verified = true;
  exchange = λ (e : Endpoints) (m : Message). ok moved;
}

abbrev turns : List Turn
turns = turn 100 ∷ turn 170 ∷ []

abbrev client : Client
client = record { endpoints = codes "10.0.0.2" ∷ []; resolved_at = 90 }

-- The second exchange, where the endpoints were out of date.
abbrev targets : List Exchange → List (ℕ × Bytes)
targets [] = []
targets (e ∷ es) = (e.client.resolved_at, e.message.target) ∷ targets es

abbrev sent : Option Done → List (ℕ × Bytes)
sent none = []
sent (some d) = targets d.exchanges

two_exchanges :
    sent (execute config turns (get_call (codes "/first") []) 0 client)
    ≡ (90, codes "/first") ∷ (170, codes "/next") ∷ []
unfolding execute attempt ensure_endpoints_fresh set_up following message is_redirect_status header
    to_http_response extract_redirect_path to_lower
two_exchanges = refl

request_bounded_example :
    (d : Done) × (request config turns (get_call (codes "/first") []) client ≡ some d)
    × (length d.exchanges ≤ 1 + 1)
    × All (IsFresh config) d.exchanges
    × IsLast config (length d.exchanges) d.result
request_bounded_example =
    request_bounded config turns (get_call (codes "/first") []) client (omega arith)

abbrev in_flight : Request
in_flight = record {
  method = get;
  target = codes "/first";
  body = [];
  headers = [];
  redirect_count = 0;
  handler = 3;
  phase = reading 0;
}

abbrev pool : Pool
pool = record { made = 1; idle = [] }

redirects_agree_example :
    on_response (pooled config 4 true) moved true 0 in_flight pool
    ≡ follows config 4 true
        (following config (call_of in_flight) 0 (to_http_response get moved))
        (to_http_response get moved)
        in_flight
        (release_connection (pooled config 4 true) 0 true pool)
redirects_agree_example = redirects_agree config 4 true moved true 0 in_flight pool
