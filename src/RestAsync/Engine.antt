-- ===== src/RestAsync/Engine.antt =====
-- The engine of rest_client_async/rest_client_async.cpp: requests in flight and the pool of idle
-- connections. A completion is what an operation reports when it ends. A connection is a number; its
-- kind is that of the configuration.
pub mod Single
pub mod Schedule
pub mod Bound
pub mod Tests
use exchange_connectivity.Base.{
  ℕ, ◌+◌, Bool, true, false, ◌&&◌, ◌||◌, not, List, [], ◌∷◌, ◌++◌, Option, none, some, Fallible, ok,
  err, length, ltb, leb, ◌==◌, if◌then◌else◌,
}
use exchange_connectivity.Base.Text.{Bytes, codes, beq, is_empty, to_lower}
use exchange_connectivity.RestAsync.{
  RestError, resolve_failed, connect_failed, tls_handshake_failed, write_failed, read_failed,
  body_limit_exceeded, Verb, get, post, put, delete, patch, Headers, HttpResponse, RestResult,
  ClientConfig, RawResponse, header, to_http_response,
}
use exchange_connectivity.RestAsync.Redirect.{is_redirect_status, resolve_redirect}

-- The operation that a request waits for, with the connection that it has from `sendAndReceive` on.
pub data Phase : Type 0 where
  resolving connecting handshaking : Phase
  writing reading : ℕ → Phase

-- `RequestState`; the handler is the number of the call that gave it.
pub record Request : Type 0 where
  pub method : Verb
  pub target : Bytes
  pub body : Bytes
  pub headers : Headers
  pub redirect_count : ℕ
  pub handler : ℕ
  pub phase : Phase

-- `http::request`: the fields in the order in which they are set, and the body if one is prepared.
pub record Message : Type 0 where
  pub method : Verb
  pub target : Bytes
  pub fields : Headers
  pub body : Option Bytes

pub data Effect : Type 0 where
  resolve connect handshake : Effect
  write : ℕ → Message → Effect
  read shutdown : ℕ → Effect
  call_handler : ℕ → RestResult → Effect

-- How many connections were made, and the idle ones.
pub record Pool : Type 0 where
  pub made : ℕ
  pub idle : List ℕ

-- What a call leaves: the pool, the request if it is still in flight, and the effects.
pub record Outcome : Type 0 where
  pub pool : Pool
  pub request : Option Request
  pub effects : List Effect

-- `sni` and `verify` are whether OpenSSL takes the name of the host; `body_limit` is whether the error
-- of a read is that one.
pub data Completion : Type 0 where
  resolved : Bool → Bool → Bool → Completion
  connected shaken written : Bool → Completion
  failed_read : Bool → Completion
  received : RawResponse → Bool → Completion

-- The constructor: the port, where none is given, or the text of the exception.
pub create : ClientConfig → Fallible Bytes ClientConfig
create config =
    if is_empty config.host
    then err (codes "RestClientAsync: host is empty")
    else ok (record config {
      port =
          if is_empty config.port
          then (if config.https then codes "443" else codes "80")
          else config.port;
    })

module _ (config : ClientConfig) where
  unfoldable pub host_header : Bytes
  host_header =
      if (config.https && beq config.port (codes "443"))
        || (not config.https && beq config.port (codes "80"))
      then config.host
      else config.host ++ (codes ":" ++ config.port)

  -- The methods that always have a body.
  abbrev pub carries : Verb → Bool
  carries post = true
  carries put = true
  carries patch = true
  carries get = false
  carries delete = false

  -- The message that `startRequest` prepares.
  unfoldable pub message : Request → Message
  unfolding host_header
  message r = record {
    method = r.method;
    target = r.target;
    fields =
        (codes "Host", host_header)
        ∷ (codes "User-Agent", config.user_agent)
        ∷ (codes "Accept", codes "*/*")
        ∷ r.headers;
    body = if not (is_empty r.body) || carries r.method then some r.body else none;
  }

  -- `releaseConnection`.
  pub release_connection : ℕ → Bool → Pool → Pool × List Effect
  release_connection conn reusable pool =
      if not reusable || not config.keep_alive || leb config.max_pool_size (length pool.idle)
      then (pool, shutdown conn ∷ [])
      else (record pool { idle = pool.idle ++ conn ∷ [] }, [])

  pub send_and_receive : ℕ → Request → Pool → Outcome
  send_and_receive conn r pool = record {
    pool = pool;
    request = some (record r { phase = writing conn });
    effects = write conn (message r) ∷ [];
  }

  -- From the idle connections on.
  pub start_request : Request → Pool → Outcome
  unfolding send_and_receive
  start_request r pool = elim pool.idle [
    | conn ∷ others ↦ send_and_receive conn r (record pool { idle = others })
    | [] ↦ record {
      pool = pool;
      request = some (record r { phase = resolving });
      effects = resolve ∷ [];
    }
  ]

  -- A request ends with a call of its handler.
  abbrev pub finish : Request → Pool → List Effect → RestResult → Outcome
  finish r pool effects result = record {
    pool = pool;
    request = none;
    effects = effects ++ call_handler r.handler result ∷ [];
  }

  abbrev proceed : Request → Pool → Phase → Effect → Outcome
  proceed r pool phase effect = record {
    pool = pool;
    request = some (record r { phase = phase });
    effects = effect ∷ [];
  }

  -- A new connection.
  pub use_connection : Request → Pool → Outcome
  unfolding send_and_receive
  use_connection r pool = send_and_receive pool.made r (record pool { made = pool.made + 1 })

  pub do_connect : Bool → Bool → Request → Pool → Outcome
  do_connect sni verify r pool =
      if config.https && not sni
      then finish r pool [] (err tls_handshake_failed)
      else if config.https && config.verify_peer && not verify
      then finish r pool [] (err tls_handshake_failed)
      else proceed r pool connecting connect

  pub on_resolve : Bool → Bool → Bool → Request → Pool → Outcome
  unfolding do_connect
  on_resolve failed sni verify r pool =
      if failed then finish r pool [] (err resolve_failed) else do_connect sni verify r pool

  pub on_connect : Bool → Request → Pool → Outcome
  unfolding use_connection
  on_connect failed r pool =
      if failed
      then finish r pool [] (err connect_failed)
      else if config.https
      then proceed r pool handshaking handshake
      else use_connection r pool

  pub on_handshake : Bool → Request → Pool → Outcome
  unfolding use_connection
  on_handshake failed r pool =
      if failed then finish r pool [] (err tls_handshake_failed) else use_connection r pool

  pub on_write : Bool → ℕ → Request → Pool → Outcome
  on_write failed conn r pool =
      let (pool', effects) = release_connection conn false pool in
      if failed
      then finish r pool' effects (err write_failed)
      else proceed r pool (reading conn) (read conn)

  -- `onResponse` where the read failed.
  pub on_read_error : Bool → ℕ → Request → Pool → Outcome
  on_read_error body_limit conn r pool =
      let (pool', effects) = release_connection conn false pool in
      finish r pool' effects (err (if body_limit then body_limit_exceeded else read_failed))

  -- The request that follows a redirect.
  abbrev redirected : Request → ℕ → Bytes → Request
  redirected r status target = record r {
    method = if status == 303 then get else r.method;
    target = target;
    body = if status == 303 then [] else r.body;
    redirect_count = r.redirect_count + 1;
  }

  abbrev follow : Fallible RestError Bytes → ℕ → ℕ → Request → Pool × List Effect → Outcome
  follow (err e) status conn r (pool', effects) = finish r pool' effects (err e)
  follow (ok target) status conn r (pool', effects) =
      let next = start_request (redirected r status target) pool' in
      record next { effects = effects ++ next.effects }

  -- `onResponse` where a response was read; `reusable` is its `keep_alive()`.
  unfoldable pub on_response : RawResponse → Bool → ℕ → Request → Pool → Outcome
  on_response raw reusable conn r pool =
      let out = to_http_response r.method raw in
      let location = header (codes "Location") out in
      let released = release_connection conn reusable pool in
      if config.follow_redirects
        && is_redirect_status out.status
        && ltb r.redirect_count config.max_redirects
        && not (is_empty location)
      then follow (resolve_redirect location config.host) out.status conn r released
      else finish r released.0 released.1 (ok out)

  -- A completion reaches the request that waits for it; no other can arrive.
  pub complete : Phase → Completion → Request → Pool → Option Outcome
  complete resolving (resolved failed sni verify) r pool =
      some (on_resolve failed sni verify r pool)
  complete connecting (connected failed) r pool = some (on_connect failed r pool)
  complete handshaking (shaken failed) r pool = some (on_handshake failed r pool)
  complete (writing conn) (written failed) r pool = some (on_write failed conn r pool)
  complete (reading conn) (failed_read body_limit) r pool =
      some (on_read_error body_limit conn r pool)
  complete (reading conn) (received raw reusable) r pool =
      some (on_response raw reusable conn r pool)
  complete phase c r pool = none

-- The public calls: what they give to `startRequest`. The last argument is the handler.
abbrev fresh : Verb → Bytes → Bytes → Headers → ℕ → Request
fresh method target body headers handler = record {
  method = method;
  target = target;
  body = body;
  headers = headers;
  redirect_count = 0;
  handler = handler;
  phase = resolving;
}

has_content_type : Headers → Bool
has_content_type [] = false
has_content_type ((name, value) ∷ headers) =
    beq (to_lower name) (codes "content-type") || has_content_type headers

-- `h["Content-Type"] = content_type` where no name is that one, in any case. The order of a
-- `std::map` is left out.
with_content_type : Bytes → Headers → Headers
unfolding has_content_type
with_content_type content_type headers =
    if has_content_type headers then headers else (codes "Content-Type", content_type) ∷ headers

pub get_request : Bytes → Headers → ℕ → Request
get_request target headers handler = fresh get target [] headers handler

pub post_request : Bytes → Bytes → Bytes → Headers → ℕ → Request
unfolding with_content_type
post_request target body content_type headers handler =
    fresh post target body (with_content_type content_type headers) handler

pub put_request : Bytes → Bytes → Bytes → Headers → ℕ → Request
unfolding with_content_type
put_request target body content_type headers handler =
    fresh put target body (with_content_type content_type headers) handler

pub delete_request : Bytes → Headers → ℕ → Request
delete_request target headers handler = fresh delete target [] headers handler
