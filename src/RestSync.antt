-- ===== src/RestSync.antt =====
-- rest_client_2/rest_client.hpp and rest_client.cpp: the blocking `RestClient`. Its helpers on redirects and fields
-- are those of rest_client_async, word for word. A call returns what it leaves of the client, its result, where an
-- error is the text of the exception, and the exchanges that it made.
pub mod Agreement
pub mod Bounds
pub mod Tests
use exchange_connectivity.Base.{
  ℕ, ◌+◌, ◌-◌, Bool, true, false, ◌&&◌, ◌||◌, not, List, [], ◌∷◌, ◌++◌, Option, none, some,
  Fallible, ok, err, ◌>>=◌, guard, ltb, ◌==◌, if◌then◌else◌,
}
use exchange_connectivity.Base.Text.{Bytes, codes, beq, is_empty, to_lower}
use exchange_connectivity.RestAsync.{
  Verb, get, post, put, delete, patch, Headers, HttpResponse, RawResponse, header, to_http_response,
}
use exchange_connectivity.RestAsync.Redirect.{is_redirect_status, extract_redirect_path}

-- The part of the configuration that the code looks at itself, but for the files of the certificates.
pub record ClientConfig : Type 0 where
  pub host : Bytes
  pub port : Bytes
  -- In ticks of the clock.
  pub dns_ttl : ℕ
  pub user_agent : Bytes
  pub https : Bool
  pub verify_peer : Bool
  pub follow_redirects : Bool
  pub max_redirects : ℕ

abbrev pub Endpoints : Type 0
Endpoints = List Bytes

-- What changes of a client: the endpoints, and the clock when they were resolved.
pub record Client : Type 0 where
  pub endpoints : Endpoints
  pub resolved_at : ℕ

-- The arguments of `execute` but for the count.
pub record Call : Type 0 where
  pub method : Verb
  pub target : Bytes
  pub body : Bytes
  pub headers : Headers

-- `http::request`: the fields in the order in which they are set, and the body if one is prepared.
pub record Message : Type 0 where
  pub method : Verb
  pub target : Bytes
  pub fields : Headers
  pub body : Option Bytes

-- What the libraries give to one run of `execute`: the clock, what the resolver would answer, whether OpenSSL takes
-- the name of the host, and what connecting, writing and reading come to.
pub record Turn : Type 0 where
  pub now : ℕ
  pub resolution : Fallible Bytes Endpoints
  pub sni : Bool
  pub verified : Bool
  pub exchange : Endpoints → Message → Fallible Bytes RawResponse

-- A connection that was asked for, with the client's endpoints then.
pub record Exchange : Type 0 where
  pub at : ℕ
  pub client : Client
  pub message : Message

pub record Done : Type 0 where
  pub client : Client
  pub result : Fallible Bytes HttpResponse
  pub exchanges : List Exchange

has_header : Headers → Bytes → Bool
has_header [] name = false
has_header ((key, value) ∷ headers) name =
    beq (to_lower key) (to_lower name) || has_header headers name

-- `hdrs["Content-Type"] = content_type` where no name is that one, in any case. The order of a `std::map` is left
-- out.
pub with_content_type : Bytes → Headers → Headers
unfolding has_header
with_content_type content_type headers =
    if not (has_header headers (codes "Content-Type"))
    then (codes "Content-Type", content_type) ∷ headers
    else headers

module _ (config : ClientConfig) where
  pub host_header : Bytes
  host_header =
      if (config.https && beq config.port (codes "443"))
        || (not config.https && beq config.port (codes "80"))
      then config.host
      else config.host ++ (codes ":" ++ config.port)

  pub ensure_endpoints_fresh : Turn → Client → Fallible Bytes Client
  ensure_endpoints_fresh t c =
      let expired = is_empty c.endpoints || ltb config.dns_ttl (t.now - c.resolved_at) in
      if not expired
      then ok c
      else t.resolution >>= λ endpoints. ok (record { endpoints = endpoints; resolved_at = t.now })

  abbrev carries : Verb → Bool
  carries post = true
  carries put = true
  carries patch = true
  carries get = false
  carries delete = false

  pub message : Call → Message
  unfolding host_header
  message call = record {
    method = call.method;
    target = call.target;
    fields =
        (codes "Host", host_header)
        ∷ (codes "User-Agent", config.user_agent)
        ∷ (codes "Accept", codes "*/*")
        ∷ call.headers;
    body = if not (is_empty call.body) || carries call.method then some call.body else none;
  }

  -- The set-up of TLS, up to the connection.
  pub set_up : Turn → Fallible Bytes (Unit {0})
  set_up t =
      if config.https
      then (guard t.sni (codes "SNI setup failed") >>= λ u.
          guard (not config.verify_peer || t.verified) (codes "X509_VERIFY_PARAM_set1_host failed"))
      else ok tt

  -- `execute` up to the response.
  pub attempt : Turn → Call → Client → Done
  unfolding ensure_endpoints_fresh set_up message
  attempt t call c = elim (ensure_endpoints_fresh t c) [
    | err text ↦ record { client = c; result = err text; exchanges = [] }
    | ok fresh ↦ elim (set_up t) [
      | err text ↦ record { client = fresh; result = err text; exchanges = [] }
      | ok u ↦ record {
        client = fresh;
        result = t.exchange fresh.endpoints (message call) >>= λ raw.
            ok (to_http_response call.method raw);
        exchanges = record { at = t.now; client = fresh; message = message call } ∷ [];
      }
    ]
  ]

  -- Whether a response sends the client on, when redirects are left.
  abbrev pub leads_on : HttpResponse → Bool
  leads_on out =
      config.follow_redirects
      && is_redirect_status out.status
      && not (is_empty (header (codes "Location") out))

  abbrev redirected : Call → HttpResponse → Bytes → Call
  redirected call out target = record call {
    method = if out.status == 303 then get else call.method;
    target = target;
    body = if out.status == 303 then [] else call.body;
  }

  -- The call that follows a response, if one does.
  pub following : Call → ℕ → HttpResponse → Fallible Bytes (Option Call)
  following call count out =
      if leads_on out && ltb count config.max_redirects
      then (extract_redirect_path (header (codes "Location") out) config.host >>= λ target.
          ok (some (redirected call out target)))
      else ok none

  abbrev pub after : List Exchange → Option Done → Option Done
  after sent none = none
  after sent (some d) = some (record d { exchanges = sent ++ d.exchanges })

  -- The turns are those that the libraries take; it is `none` where they are too few.
  unfoldable pub execute : List Turn → Call → ℕ → Client → Option Done
  unfolding attempt following
  execute [] call count c = none
  execute (t ∷ ts) call count c =
      let d = attempt t call c in
      elim d.result [
        | err text ↦ some d
        | ok out ↦ elim (following call count out) [
          | err text ↦ some (record d { result = err text })
          | ok none ↦ some d
          | ok (some next) ↦ after d.exchanges (execute ts next (count + 1) d.client)
        ]
      ]

  pub request : List Turn → Call → Client → Option Done
  unfolding execute
  request ts call c = execute ts call 0 c

-- The port that the constructor leaves, or the text of its exception.
pub with_port : ClientConfig → Fallible Bytes ClientConfig
with_port config =
    if is_empty config.host
    then err (codes "RestClient: host is empty")
    else ok (record config {
      port =
          if is_empty config.port
          then (if config.https then codes "443" else codes "80")
          else config.port;
    })

-- The constructor, whose first resolution fails fast.
pub create : Turn → ClientConfig → Fallible Bytes (ClientConfig × Client)
unfolding with_port ensure_endpoints_fresh
create t config = do
  complete ← with_port config
  client ← ensure_endpoints_fresh complete t (record { endpoints = []; resolved_at = 0 })
  ok (complete, client)

abbrev pub get_call : Bytes → Headers → Call
get_call target headers = record { method = get; target = target; body = []; headers = headers }

pub post_call : Bytes → Bytes → Bytes → Headers → Call
unfolding with_content_type
post_call target body content_type headers = record {
  method = post;
  target = target;
  body = body;
  headers = with_content_type content_type headers;
}

pub put_call : Bytes → Bytes → Bytes → Headers → Call
unfolding with_content_type
put_call target body content_type headers = record {
  method = put;
  target = target;
  body = body;
  headers = with_content_type content_type headers;
}

abbrev pub delete_call : Bytes → Headers → Call
delete_call target headers = record {
  method = delete;
  target = target;
  body = [];
  headers = headers;
}
