-- ===== src/Spot.antt =====
-- binance_spot_client/binance_spot_client.cpp and .hpp: `BinanceSpotClient`. Its helpers for decimals,
-- signatures, orders and URLs repeat those of binance_order_client, and are Orders' here.
pub mod Calls
pub mod Signing
pub mod Replies
pub mod Tests
use exchange_connectivity.Base.{
  ℕ, Bool, true, false, ◌||◌, ◌&&◌, not, List, [], ◌∷◌, ◌++◌, Option, none, some, Fallible, ok, err,
  ◌>>=◌, or_fail, ltb, leb, ◌==◌, if◌then◌else◌,
}
use exchange_connectivity.Base.Int.{ℤ, pos, is_positive}
use exchange_connectivity.Base.Text.{Bytes, codes, is_empty}
use exchange_connectivity.Json.{Json}
use exchange_connectivity.Decimal.Print.{format_unsigned}
use exchange_connectivity.Rest
use exchange_connectivity.Rest.{Verb, HttpRequest, HttpResponse, RestFailure}
use exchange_connectivity.Orders.{
  OrderType, market, limit, OrderRequest, OrderStatus, OrderSubmission, side_text, type_text,
  to_order_status,
}
use exchange_connectivity.Orders.Text.{url_encode}
use exchange_connectivity.Orders.Gateway.{ApiCredentials, create_signature, order_text, price_text}

pub data BinanceApiErrorCode : Type 0 where
  invalid_request signing_failed transport_error exchange_rejected invalid_response :
      BinanceApiErrorCode

pub record BinanceApiError : Type 0 where
  pub code : BinanceApiErrorCode
  pub exchange_error_code : ℤ
  pub message : Bytes

pub record OrderCancellation : Type 0 where
  pub exchange_order_id : ℕ
  pub status : OrderStatus

pub record AssetBalance : Type 0 where
  pub asset : Bytes
  pub free : Bytes
  pub locked : Bytes

pub record SpotClient : Type 0 where
  pub credentials : ApiCredentials
  pub host : Bytes
  pub port : ℕ
  pub symbol : Bytes
  pub recv_window : ℕ

abbrev pub Reply : Type 0 → Type 0
Reply A = Fallible BinanceApiError A

abbrev pub ApiResponse : Type 0
ApiResponse = Reply HttpResponse

-- A handler is called at once, or a request goes to the REST client.
pub data Action (A : Type 0) : Type 0 where
  reply : Reply A → Action A
  submit : HttpRequest → Action A

abbrev pub order_endpoint : Bytes
order_endpoint = codes "/api/v3/order"

abbrev pub account_endpoint : Bytes
account_endpoint = codes "/api/v3/account"

abbrev pub make_error : BinanceApiErrorCode → Bytes → ℤ → BinanceApiError
make_error code message exchange_error_code = record {
  code = code;
  exchange_error_code = exchange_error_code;
  message = message;
}

abbrev refuse : {A : Type 0} → BinanceApiErrorCode → Bytes → Reply A
refuse code message = err (make_error code message (pos 0))

pub create_order_query : OrderRequest → ℕ → Bytes → Bytes
create_order_query request client_order_id symbol =
    order_text request client_order_id symbol (price_text request.order_type request.price [])

pub cancel_query : ℕ → Bytes → Bytes
cancel_query exchange_order_id symbol =
    codes "symbol="
    ++ (url_encode symbol ++ (codes "&orderId=" ++ format_unsigned exchange_order_id))

module _ (J : Json) where
  open J use {Value, parse, is_object, member, as_uint64, as_int64, as_string, as_array}

  abbrev at_member : {A : Type 0} → (Value → Option A) → Option Value → Option A
  at_member f none = none
  at_member f (some v) = f v

  -- What the three readers write to their last argument, where they return true.
  pub json_string : Value → Bytes → Option Bytes
  json_string json key = at_member as_string (member json key)

  abbrev unsigned_of : Option ℕ → Option ℤ → Option ℕ
  unsigned_of (some n) other = some n
  unsigned_of none (some (pos n)) = some n
  unsigned_of none other = none

  pub json_uint64 : Value → Bytes → Option ℕ
  json_uint64 json key =
      unsigned_of (at_member as_uint64 (member json key)) (at_member as_int64 (member json key))

  pub json_int64 : Value → Bytes → Option ℤ
  json_int64 json key = at_member as_int64 (member json key)

  abbrev text_or : Bytes → Option Bytes → Bytes
  text_or default none = default
  text_or default (some []) = default
  text_or default (some (c ∷ s)) = c ∷ s

  abbrev code_or_zero : Option ℤ → ℤ
  code_or_zero none = pos 0
  code_or_zero (some n) = n

  -- The tests with which the three parsers begin; the first text is that of an answer that is no
  -- object, the second that of a rejection with no message.
  pub open_response : Bytes → Bytes → HttpResponse → Reply Value
  open_response invalid rejected response = elim (parse response.body) [
    | err text ↦ refuse invalid_response invalid
    | ok json ↦
        (if not (is_object json)
          then refuse invalid_response invalid
          else if ltb response.status 200 || leb 300 response.status
          then err (
              make_error exchange_rejected (text_or rejected (json_string json (codes "msg")))
                (code_or_zero (json_int64 json (codes "code"))))
          else ok json)
  ]

  -- The order's id and its status text, which two of the parsers want.
  pub order_and_status : Bytes → Value → Reply (ℕ × Bytes)
  order_and_status invalid json = do
    order_id ←
        or_fail (json_uint64 json (codes "orderId")) (make_error invalid_response invalid (pos 0))
    status ←
        or_fail (json_string json (codes "status")) (make_error invalid_response invalid (pos 0))
    if order_id == 0 then refuse invalid_response invalid else ok (order_id, status)

  pub parse_order_response : HttpResponse → ℕ → Reply OrderSubmission
  parse_order_response response client_order_id = do
    json ←
        open_response (codes "Invalid Binance order response") (codes "Binance rejected order")
          response
    (order_id, status) ←
        order_and_status (codes "Binance response does not contain orderId or status") json
    ok (record {
      client_order_id = client_order_id;
      exchange_order_id = order_id;
      status = to_order_status status;
    })

  -- `toOrderStatus` gives a status for every text, so the test behind it never fails.
  pub parse_cancel_response : HttpResponse → Reply OrderCancellation
  parse_cancel_response response = do
    json ←
        open_response (codes "Invalid Binance cancel response")
          (codes "Binance rejected cancellation") response
    (order_id, status) ←
        order_and_status (codes "Binance cancel response does not contain orderId or status") json
    ok (record { exchange_order_id = order_id; status = to_order_status status })

  abbrev balance_error : BinanceApiError
  balance_error =
      make_error invalid_response (codes "Invalid balance entry in Binance response") (pos 0)

  pub parse_balance : Value → Reply AssetBalance
  parse_balance balance = do
    asset ← or_fail (json_string balance (codes "asset")) balance_error
    free ← or_fail (json_string balance (codes "free")) balance_error
    locked ← or_fail (json_string balance (codes "locked")) balance_error
    ok (record { asset = asset; free = free; locked = locked })

  -- The loop over the balances.
  pub parse_balances : List Value → Reply (List AssetBalance)
  parse_balances [] = ok []
  parse_balances (v ∷ vs) = parse_balance v >>= λ b. parse_balances vs >>= λ bs. ok (b ∷ bs)

  pub parse_balances_response : HttpResponse → Reply (List AssetBalance)
  parse_balances_response response = do
    json ←
        open_response (codes "Invalid Binance account response")
          (codes "Binance rejected account request") response
    balances ← or_fail (at_member as_array (member json (codes "balances"))) (
        make_error invalid_response (codes "Binance account response does not contain balances")
          (pos 0))
    parse_balances balances

  -- The handlers that the calls give to `asyncSignedRequest`.
  pub on_order_response : ℕ → ApiResponse → Reply OrderSubmission
  on_order_response client_order_id response =
      response >>= λ r. parse_order_response r client_order_id

  pub on_cancel_response : ApiResponse → Reply OrderCancellation
  on_cancel_response response = response >>= parse_cancel_response

  pub on_balances_response : ApiResponse → Reply (List AssetBalance)
  on_balances_response response = response >>= parse_balances_response

-- The handler that `asyncSignedRequest` gives to the REST client.
pub on_rest_response : Rest.Response → ApiResponse
on_rest_response (err failure) = err (make_error transport_error failure.message (pos 0))
on_rest_response (ok response) = ok response

module _ (hmac : Bytes → Bytes → Option Bytes) (c : SpotClient) (now : ℕ) where
  abbrev pub payload : Bytes → Bytes
  payload query =
      (if is_empty query then [] else query ++ codes "&")
      ++ (codes "recvWindow="
          ++ (format_unsigned c.recv_window ++ (codes "&timestamp=" ++ format_unsigned now)))

  abbrev pub http_request : Verb → Bytes → Bytes → Bytes → HttpRequest
  http_request method endpoint text signature = record {
    host = c.host;
    port = format_unsigned c.port;
    target = endpoint ++ (codes "?" ++ (text ++ (codes "&signature=" ++ signature)));
    method = method;
    headers = (codes "X-MBX-APIKEY", c.credentials.api_key) ∷ [];
    body = [];
  }

  pub async_signed_request : Verb → Bytes → Bytes → Action HttpResponse
  async_signed_request method endpoint query =
      let text = payload query in
      let signature = create_signature hmac text c.credentials.secret_key in
      if is_empty c.credentials.api_key || is_empty c.credentials.secret_key
      then reply (refuse signing_failed (codes "Binance API credentials are empty"))
      else if is_empty signature
      then reply (refuse signing_failed (codes "Failed to create HMAC SHA256 signature"))
      else submit (http_request method endpoint text signature)

  -- An action on the response, with the handler that reads it.
  abbrev pub deliver : {A : Type 0} → (ApiResponse → Reply A) → Action HttpResponse → Action A
  deliver read (reply r) = reply (read r)
  deliver read (submit q) = submit q

  abbrev is_limit : OrderType → Bool
  is_limit market = false
  is_limit limit = true

  abbrev pub is_refused : OrderRequest → ℕ → Bool
  is_refused request client_order_id =
      client_order_id == 0
      || not (is_positive request.quantity)
      || is_empty (side_text request.side)
      || is_empty (type_text request.order_type)
      || (is_limit request.order_type && not (is_positive request.price))

  module _ (J : Json) where
    -- The last argument is whether the handler can be called.
    pub send_order : OrderRequest → ℕ → Bool → List (Action OrderSubmission)
    unfolding async_signed_request
    send_order request client_order_id false = []
    send_order request client_order_id true =
        (if is_refused request client_order_id
          then reply (refuse invalid_request (codes "Invalid order parameters"))
          else if is_empty c.symbol
          then reply (refuse invalid_request (codes "Instrument symbol is empty"))
          else deliver (on_order_response J client_order_id) (
              async_signed_request Rest.post order_endpoint
                (create_order_query request client_order_id c.symbol)))
        ∷ []

    pub cancel_order : ℕ → Bool → List (Action OrderCancellation)
    unfolding async_signed_request
    cancel_order exchange_order_id false = []
    cancel_order exchange_order_id true =
        (if exchange_order_id == 0
          then reply (refuse invalid_request (codes "Invalid exchange order ID"))
          else deliver (on_cancel_response J) (
              async_signed_request Rest.delete order_endpoint
                (cancel_query exchange_order_id c.symbol)))
        ∷ []

    pub get_balances : Bool → List (Action (List AssetBalance))
    unfolding async_signed_request
    get_balances false = []
    get_balances true =
        deliver (on_balances_response J) (async_signed_request Rest.get account_endpoint []) ∷ []
