-- ===== src/RestAsync.antt =====
-- rest_client_async/rest_client_async.hpp and .cpp: the values of `RestClientAsync`. The children
-- model its redirects and its engine.
pub mod Redirect
pub mod Engine
use exchange_connectivity.Base.{ℕ, Bool, List, [], ◌∷◌, ◌++◌, Fallible, if◌then◌else◌}
use exchange_connectivity.Base.Text.{Bytes, beq, to_lower}

pub data RestError : Type 0 where
  resolve_failed connect_failed tls_handshake_failed write_failed read_failed : RestError
  body_limit_exceeded shutdown_failed too_many_redirects cross_host_redirect pool_exhausted :
      RestError

pub data Verb : Type 0 where
  get post put delete patch : Verb

abbrev pub Headers : Type 0
Headers = List (Bytes × Bytes)

pub record HttpResponse : Type 0 where
  pub status : ℕ
  pub reason : Bytes
  pub body : Bytes
  pub headers : Headers
  pub method : Verb

abbrev pub RestResult : Type 0
RestResult = Fallible RestError HttpResponse

-- The part of the configuration that the code looks at itself.
pub record ClientConfig : Type 0 where
  pub host : Bytes
  pub port : Bytes
  pub user_agent : Bytes
  pub https : Bool
  pub verify_peer : Bool
  pub follow_redirects : Bool
  pub max_redirects : ℕ
  pub max_pool_size : ℕ
  pub keep_alive : Bool

-- `headers.find(toLower(key))`, and the empty text where there is none.
find_header : Bytes → Headers → Bytes
find_header key [] = []
find_header key ((name, value) ∷ rest) = if beq name key then value else find_header key rest

unfoldable pub header : Bytes → HttpResponse → Bytes
unfolding find_header
header key response = find_header (to_lower key) response.headers

-- `map::emplace`, which keeps a value that is there.
emplace : Bytes → Bytes → Headers → Headers
emplace name value [] = (name, value) ∷ []
emplace name value ((k, v) ∷ rest) =
    if beq k name then (k, v) ∷ rest else (k, v) ∷ emplace name value rest

-- The loop of `toHttpResponse` over the fields that were received.
collect : Headers → Headers → Headers
unfolding emplace
collect headers [] = headers
collect headers ((name, value) ∷ fields) = collect (emplace (to_lower name) value headers) fields

-- What was received: the status, the reason, the body and the fields.
pub record RawResponse : Type 0 where
  pub status : ℕ
  pub reason : Bytes
  pub body : Bytes
  pub fields : Headers

unfoldable pub to_http_response : Verb → RawResponse → HttpResponse
unfolding collect
to_http_response method res = record {
  status = res.status;
  reason = res.reason;
  body = res.body;
  headers = collect [] res.fields;
  method = method;
}
