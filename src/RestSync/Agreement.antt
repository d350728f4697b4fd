-- ===== src/RestSync/Agreement.antt =====
-- The blocking client beside the asynchronous one of rest_client_async.
use exchange_connectivity.Base.{
  ℕ, ◌+◌, ◌≡◌, Bool, List, ◌++◌, Option, none, some, Fallible, ok, err, arith,
}
use exchange_connectivity.Base.Text.{Bytes}
use exchange_connectivity.RestAsync.{
  Verb, get, HttpResponse, RawResponse, header, to_http_response, cross_host_redirect,
}
use exchange_connectivity.RestAsync.Redirect.{resolve_redirect}
use exchange_connectivity.RestAsync.Engine
use exchange_connectivity.RestAsync.Engine.{
  Request, Pool, Outcome, on_response, release_connection, start_request, finish,
}
use exchange_connectivity.RestSync.{ClientConfig, Call, following}
use exchange_connectivity.RestAsync

-- The same configuration for the asynchronous client, with the size of its pool and its keep-alive.
abbrev pub pooled : ClientConfig → ℕ → Bool → RestAsync.ClientConfig
pooled config size keep = record {
  host = config.host;
  port = config.port;
  user_agent = config.user_agent;
  https = config.https;
  verify_peer = config.verify_peer;
  follow_redirects = config.follow_redirects;
  max_redirects = config.max_redirects;
  max_pool_size = size;
  keep_alive = keep;
}

abbrev pub call_of : Request → Call
call_of r = record { method = r.method; target = r.target; body = r.body; headers = r.headers }

-- The request in flight for a call of the blocking client.
abbrev pub request_of : Request → Call → Request
request_of r next = record r {
  method = next.method;
  target = next.target;
  body = next.body;
  headers = next.headers;
  redirect_count = r.redirect_count + 1;
}

module _ (config : ClientConfig) (size : ℕ) (keep : Bool) where
  -- What the asynchronous client does where the blocking one decides so.
  abbrev pub follows :
      Fallible Bytes (Option Call) → HttpResponse → Request → Pool × List Engine.Effect → Outcome
  follows (err text) out r (pool, effects) =
      finish (pooled config size keep) r pool effects (err cross_host_redirect)
  follows (ok none) out r (pool, effects) = finish (pooled config size keep) r pool effects (ok out)
  follows (ok (some next)) out r (pool, effects) =
      let started = start_request (pooled config size keep) (request_of r next) pool in
      record started { effects = effects ++ started.effects }

  -- On the same response, with the same redirects behind them, the two clients decide alike: the asynchronous one
  -- answers with the response where the blocking one returns it and with `CrossHostRedirect` where that one throws,
  -- and where the blocking one goes on it starts the same call.
  pub redirects_agree :
      (raw : RawResponse) (reusable : Bool) (conn : ℕ) (r : Request) (pool : Pool)
      → on_response (pooled config size keep) raw reusable conn r pool
        ≡ follows
            (following config (call_of r) r.redirect_count (to_http_response r.method raw))
            (to_http_response r.method raw)
            r
            (release_connection (pooled config size keep) conn reusable pool)
  unfolding on_response following resolve_redirect
  redirects_agree raw reusable conn r pool = ground arith
