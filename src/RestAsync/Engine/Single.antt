-- ===== src/RestAsync/Engine/Single.antt =====
-- What one completion does to its request and to the pool.
use exchange_connectivity.Base.{
  ℕ, ◌+◌, ◌-◌, ◌*◌, ◌≤◌, ◌<◌, ◌≡◌, subst, Bool, true, false, ◌&&◌, not, List, [], ◌∷◌, ◌++◌, Option,
  some, Fallible, ok, err, arith, length, ltb, if◌then◌else◌, Bool-cases, inl, inr, is, within,
  count, count-append, weigh, length-append,
}
use exchange_connectivity.Base.Text.{Bytes, codes, is_empty}
use exchange_connectivity.RestAsync.{
  RestError, write_failed, read_failed, body_limit_exceeded, RestResult, ClientConfig, RawResponse,
  header, to_http_response,
}
use exchange_connectivity.RestAsync.Redirect.{is_redirect_status, resolve_redirect}
use exchange_connectivity.RestAsync.Engine.{
  Phase, resolving, connecting, handshaking, writing, reading, Request, Effect, shutdown,
  call_handler, Pool, Outcome, Completion, resolved, connected, shaken, written, failed_read,
  received, release_connection, start_request, use_connection, on_resolve, on_connect, on_handshake,
  on_write, on_read_error, on_response, follow, finish, redirected, complete,
}

-- The calls of a handler, and the shutdowns of a connection.
abbrev pub calls : ℕ → List Effect → ℕ
calls t [] = 0
calls t (call_handler h r ∷ es) = is t h + calls t es
calls t (e ∷ es) = calls t es

abbrev pub shutdowns : ℕ → List Effect → ℕ
shutdowns n [] = 0
shutdowns n (shutdown c ∷ es) = is n c + shutdowns n es
shutdowns n (e ∷ es) = shutdowns n es

pub calls-append : (t : ℕ) (xs ys : List Effect) → calls t (xs ++ ys) ≡ calls t xs + calls t ys
calls-append t [] ys = omega arith
calls-append t (call_handler h r ∷ xs) ys = omega (arith, calls-append t xs ys)
calls-append t (x ∷ xs) ys = omega (arith, calls-append t xs ys)

pub shutdowns-append :
    (n : ℕ) (xs ys : List Effect) → shutdowns n (xs ++ ys) ≡ shutdowns n xs + shutdowns n ys
shutdowns-append n [] ys = omega arith
shutdowns-append n (shutdown c ∷ xs) ys = omega (arith, shutdowns-append n xs ys)
shutdowns-append n (x ∷ xs) ys = omega (arith, shutdowns-append n xs ys)

-- 1 where the phase has the connection, and how many operations there are up to the end of the read.
abbrev pub has : ℕ → Phase → ℕ
has n (writing c) = is n c
has n (reading c) = is n c
has n p = 0

abbrev pub rank : Phase → ℕ
rank resolving = 5
rank connecting = 4
rank handshaking = 3
rank (writing c) = 2
rank (reading c) = 1

abbrev pub holds : ℕ → Request → ℕ
holds n r = has n r.phase

abbrev pub awaits : ℕ → Request → ℕ
awaits t r = is t r.handler

module _ (config : ClientConfig) where
  -- How many completions a request can still take, the rounds of its redirects included.
  abbrev pub life : Request → ℕ
  life r = rank r.phase + 5 * (config.max_redirects - r.redirect_count)

  -- Every connection stays accounted for and every handler too.
  pub record Fair (n t held handler : ℕ) (pool : Pool) (o : Outcome) : Type 0 where
    pub connections :
        shutdowns n o.effects + count n o.pool.idle + weigh (holds n) o.request + within n pool.made
        ≡ count n pool.idle + held + within n o.pool.made
    pub handlers : calls t o.effects + weigh (awaits t) o.request ≡ is t handler
    pub bounded :
        length pool.idle ≤ config.max_pool_size → length o.pool.idle ≤ config.max_pool_size
    pub grows : pool.made ≤ o.pool.made

  pub record Released (n t conn : ℕ) (pool : Pool) (r : Pool × List Effect) : Type 0 where
    pub connections : shutdowns n r.1 + count n r.0.idle ≡ count n pool.idle + is n conn
    pub handlers : calls t r.1 ≡ 0
    pub bounded : length pool.idle ≤ config.max_pool_size → length r.0.idle ≤ config.max_pool_size
    pub made : r.0.made ≡ pool.made

  release-Released :
      (n t conn : ℕ) (reusable : Bool) (pool : Pool)
      → Released n t conn pool (release_connection config conn reusable pool)
  unfolding release_connection
  release-Released n t conn reusable pool =
      ground (arith, count-append n pool.idle (conn ∷ []), length-append pool.idle (conn ∷ []))

  pub start-Fair :
      (n t : ℕ) (r : Request) (pool : Pool)
      → Fair n t 0 r.handler pool (start_request config r pool)
  unfolding start_request
  start-Fair n t r pool = ground arith

  use-Fair :
      (n t : ℕ) (r : Request) (pool : Pool)
      → Fair n t 0 r.handler pool (use_connection config r pool)
  unfolding use_connection
  use-Fair n t r pool = ground arith

  resolve-Fair :
      (n t : ℕ) (failed sni verify : Bool) (r : Request) (pool : Pool)
      → Fair n t 0 r.handler pool (on_resolve config failed sni verify r pool)
  unfolding on_resolve
  resolve-Fair n t failed sni verify r pool = ground arith

  connect-Fair :
      (n t : ℕ) (failed : Bool) (r : Request) (pool : Pool)
      → Fair n t 0 r.handler pool (on_connect config failed r pool)
  unfolding on_connect
  connect-Fair n t failed r pool = ground (arith, use-Fair n t r pool)

  handshake-Fair :
      (n t : ℕ) (failed : Bool) (r : Request) (pool : Pool)
      → Fair n t 0 r.handler pool (on_handshake config failed r pool)
  unfolding on_handshake
  handshake-Fair n t failed r pool = ground (arith, use-Fair n t r pool)

  finish-Fair :
      (n t conn : ℕ) (r : Request) (pool : Pool) (p : Pool × List Effect) (result : RestResult)
      → Released n t conn pool p
      → Fair n t (is n conn) r.handler pool (finish config r p.0 p.1 result)
  finish-Fair n t conn r pool (p, es) result v = ground (
    arith,
    calls-append t es (call_handler r.handler result ∷ []),
    shutdowns-append n es (call_handler r.handler result ∷ []),
  )

  write-Fair :
      (n t conn : ℕ) (failed : Bool) (r : Request) (pool : Pool)
      → Fair n t (is n conn) r.handler pool (on_write config failed conn r pool)
  unfolding on_write
  write-Fair n t conn true r pool =
      finish-Fair n t conn r pool (release_connection config conn false pool) (err write_failed)
        (release-Released n t conn false pool)
  write-Fair n t conn false r pool = ground arith

  read_error-Fair :
      (n t conn : ℕ) (body_limit : Bool) (r : Request) (pool : Pool)
      → Fair n t (is n conn) r.handler pool (on_read_error config body_limit conn r pool)
  unfolding on_read_error
  read_error-Fair n t conn body_limit r pool =
      finish-Fair n t conn r pool (release_connection config conn false pool)
        (err (if body_limit then body_limit_exceeded else read_failed))
        (release-Released n t conn false pool)

  follow-Fair :
      (n t conn status : ℕ) (r : Request) (pool : Pool) (p : Pool × List Effect)
      (target : Fallible RestError Bytes)
      → Released n t conn pool p
      → Fair n t (is n conn) r.handler pool (follow config target status conn r p)
  follow-Fair n t conn status r pool (p, es) (err e) v =
      finish-Fair n t conn r pool (p, es) (err e) v
  follow-Fair n t conn status r pool (p, es) (ok target) v =
      let next = redirected config r status target in
      ground (
        arith,
        start-Fair n t next p,
        calls-append t es (start_request config next p).effects,
        shutdowns-append n es (start_request config next p).effects,
      )

  response-Fair :
      (n t conn : ℕ) (raw : RawResponse) (reusable : Bool) (r : Request) (pool : Pool)
      → Fair n t (is n conn) r.handler pool (on_response config raw reusable conn r pool)
  unfolding on_response
  response-Fair n t conn raw reusable r pool =
      let out = to_http_response r.method raw in
      let location = header (codes "Location") out in
      let released = release_connection config conn reusable pool in
      let v = release-Released n t conn reusable pool in
      elim (Bool-cases (
        config.follow_redirects
        && is_redirect_status out.status
        && ltb r.redirect_count config.max_redirects
        && not (is_empty location))) [
          | inl yes_follow ↦ rw yes_follow (
              follow-Fair n t conn out.status r pool released
                (resolve_redirect location config.host) v)
          | inr ends ↦ rw ends (finish-Fair n t conn r pool released (ok out) v)
        ]

  pub complete-Fair :
      (n t : ℕ) (phase : Phase) (c : Completion) (r : Request) (pool : Pool) (o : Outcome)
      → complete config phase c r pool ≡ some o
      → Fair n t (has n phase) r.handler pool o
  unfolding complete
  complete-Fair n t resolving (resolved failed sni verify) r pool o e =
      subst (Fair n t 0 r.handler pool) (cc) (resolve-Fair n t failed sni verify r pool)
  complete-Fair n t connecting (connected failed) r pool o e =
      subst (Fair n t 0 r.handler pool) (cc) (connect-Fair n t failed r pool)
  complete-Fair n t handshaking (shaken failed) r pool o e =
      subst (Fair n t 0 r.handler pool) (cc) (handshake-Fair n t failed r pool)
  complete-Fair n t (writing conn) (written failed) r pool o e =
      subst (Fair n t (is n conn) r.handler pool) (cc) (write-Fair n t conn failed r pool)
  complete-Fair n t (reading conn) (failed_read body_limit) r pool o e =
      subst (Fair n t (is n conn) r.handler pool) (cc) (read_error-Fair n t conn body_limit r pool)
  complete-Fair n t (reading conn) (received raw reusable) r pool o e =
      subst (Fair n t (is n conn) r.handler pool) (cc) (response-Fair n t conn raw reusable r pool)
  complete-Fair n t phase c r pool o e = cc

  pub start-life :
      (r : Request) (pool : Pool)
      → weigh life (start_request config r pool).request
        ≤ 5 + 5 * (config.max_redirects - r.redirect_count)
  unfolding start_request
  start-life r pool = ground arith

  some_outcome : {a b : Outcome} → ◌≡◌ {A = Option Outcome} (some a) (some b) → a ≡ b
  some_outcome e = cc

  -- What is left after an operation ends that had so many completions to go.
  abbrev Shorter : ℕ → Request → Outcome → Type 0
  Shorter k r o = weigh life o.request < k + 5 * (config.max_redirects - r.redirect_count)

  use-Shorter : (r : Request) (pool : Pool) → Shorter 3 r (use_connection config r pool)
  unfolding use_connection
  use-Shorter r pool = omega arith

  follow-Shorter :
      (conn status : ℕ) (r : Request) (p : Pool × List Effect) (target : Fallible RestError Bytes)
      → r.redirect_count < config.max_redirects
      → Shorter 1 r (follow config target status conn r p)
  follow-Shorter conn status r (p, es) (err e) h = omega arith
  follow-Shorter conn status r (p, es) (ok target) h =
      omega (arith, start-life (redirected config r status target) p)

  response-Shorter :
      (conn : ℕ) (raw : RawResponse) (reusable : Bool) (r : Request) (pool : Pool)
      → Shorter 1 r (on_response config raw reusable conn r pool)
  unfolding on_response
  response-Shorter conn raw reusable r pool =
      let out = to_http_response r.method raw in
      let location = header (codes "Location") out in
      let released = release_connection config conn reusable pool in
      elim (Bool-cases (
        config.follow_redirects
        && is_redirect_status out.status
        && ltb r.redirect_count config.max_redirects
        && not (is_empty location))) [
          | inl follows ↦ rw follows (
              follow-Shorter conn out.status r released (resolve_redirect location config.host)
                (ground (arith, follows)))
          | inr ends ↦ rw ends (omega arith)
        ]

  phase-Shorter :
      (phase : Phase) (c : Completion) (r : Request) (pool : Pool) (o : Outcome)
      → complete config phase c r pool ≡ some o
      → Shorter (rank phase) r o
  unfolding complete on_resolve on_connect on_handshake on_write on_read_error
  phase-Shorter resolving (resolved failed sni verify) r pool o e =
      subst (Shorter 5 r) (some_outcome e) (ground arith)
  phase-Shorter connecting (connected failed) r pool o e =
      subst (Shorter 4 r) (some_outcome e) (ground (arith, use-Shorter r pool))
  phase-Shorter handshaking (shaken failed) r pool o e =
      subst (Shorter 3 r) (some_outcome e) (ground (arith, use-Shorter r pool))
  phase-Shorter (writing conn) (written failed) r pool o e =
      subst (Shorter 2 r) (some_outcome e) (ground arith)
  phase-Shorter (reading conn) (failed_read body_limit) r pool o e =
      subst (Shorter 1 r) (some_outcome e) (omega arith)
  phase-Shorter (reading conn) (received raw reusable) r pool o e =
      subst (Shorter 1 r) (some_outcome e) (response-Shorter conn raw reusable r pool)
  phase-Shorter phase c r pool o e = cc

  -- Each completion that a request takes leaves it fewer.
  pub complete-life :
      (c : Completion) (r : Request) (pool : Pool) (o : Outcome)
      → complete config r.phase c r pool ≡ some o
      → weigh life o.request < life r
  complete-life c r pool o e = phase-Shorter r.phase c r pool o e
