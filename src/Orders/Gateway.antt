-- ===== src/Orders/Gateway.antt =====
-- binance_order_client/binance_order_gateway.cpp: `BinanceOrderGateway` and its helpers. The JSON
-- library, HMAC-SHA256 and the clock are parameters; `none` of the former is its null result.
pub mod Signed
pub mod Query
pub mod Sending
pub mod Replies
pub mod Tests
use exchange_connectivity.Base.{
  ℕ, ◌+◌, Bool, true, false, ◌&&◌, ◌||◌, not, List, [], ◌∷◌, ◌++◌, Option, none, some, Fallible, ok,
  err, ltb, leb, ◌==◌, if◌then◌else◌,
}
use exchange_connectivity.Base.Int.{ℤ, pos, negsuc, is_positive}
use exchange_connectivity.Base.Text.{Bytes, codes, is_empty}
use exchange_connectivity.Json.{Json}
use exchange_connectivity.Decimal.Print.{format_unsigned, to_decimal_string}
use exchange_connectivity.Rest
use exchange_connectivity.Rest.{HttpRequest, HttpResponse, RestFailure}
use exchange_connectivity.Orders.{
  OrderType, market, limit, OrderRequest, OrderSubmission, OrderSubmissionError,
  OrderSubmissionErrorCode, invalid_instrument, invalid_order, signing_failed, transport_error,
  exchange_rejected, invalid_response, side_text, type_text, to_order_status,
}
use exchange_connectivity.Orders.Text.{url_encode, to_hex}

pub record ApiCredentials : Type 0 where
  pub api_key : Bytes
  pub secret_key : Bytes

pub record Gateway : Type 0 where
  pub credentials : ApiCredentials
  pub host : Bytes
  pub port : ℕ
  pub order_endpoint : Bytes
  pub symbol : Bytes

abbrev pub Reply : Type 0
Reply = Fallible OrderSubmissionError OrderSubmission

-- What `sendOrder` does: the handler is called at once, or a request goes to the REST client.
pub data Action : Type 0 where
  reply : Reply → Action
  submit : HttpRequest → Action

abbrev pub recv_window : ℕ
recv_window = 5000

-- `toString(Price)` and `toString(Quantity)`.
abbrev pub decimal_text : ℤ → Bytes
decimal_text value = to_decimal_string value 8

-- `createSignature`: the digest in hexadecimal, or nothing.
unfoldable pub create_signature : (Bytes → Bytes → Option Bytes) → Bytes → Bytes → Bytes
create_signature hmac payload secret_key = elim (hmac secret_key payload) [
  | none ↦ []
  | some digest ↦ to_hex digest
]

-- The text of the first `std::format`, with what the code appends to it.
abbrev pub order_text : OrderRequest → ℕ → Bytes → Bytes → Bytes
order_text request client_order_id symbol rest =
    codes "symbol="
    ++ (url_encode symbol
        ++ (codes "&side="
            ++ (side_text request.side
                ++ (codes "&type="
                    ++ (type_text request.order_type
                        ++ (codes "&quantity="
                            ++ (decimal_text request.quantity
                                ++ (codes "&newClientOrderId="
                                    ++ (format_unsigned client_order_id ++ rest)))))))))

abbrev pub price_text : OrderType → ℤ → Bytes → Bytes
price_text market price rest = rest
price_text limit price rest =
    codes "&price=" ++ (decimal_text price ++ (codes "&timeInForce=GTC" ++ rest))

abbrev pub time_text : ℕ → ℕ → Bytes
time_text window now =
    codes "&recvWindow=" ++ (format_unsigned window ++ (codes "&timestamp=" ++ format_unsigned now))

pub create_query : OrderRequest → ℕ → Bytes → ℕ → Bytes
create_query request client_order_id symbol now =
    order_text request client_order_id symbol
      (price_text request.order_type request.price (time_text recv_window now))

abbrev pub make_error : OrderSubmissionErrorCode → Bytes → ℤ → OrderSubmissionError
make_error code message exchange_error_code = record {
  code = code;
  exchange_error_code = exchange_error_code;
  message = message;
}

abbrev is_limit : OrderType → Bool
is_limit market = false
is_limit limit = true

-- The test of the order's parameters: whether it is refused.
abbrev pub is_invalid : OrderRequest → ℕ → Bool
is_invalid request client_order_id =
    client_order_id == 0
    || not (is_positive request.quantity)
    || (is_limit request.order_type && not (is_positive request.price))

module _ (hmac : Bytes → Bytes → Option Bytes) where
  abbrev pub order_query : Gateway → OrderRequest → ℕ → ℕ → Bytes
  order_query g request client_order_id now = create_query request client_order_id g.symbol now

  abbrev pub http_request : Gateway → Bytes → Bytes → HttpRequest
  http_request g query signature = record {
    host = g.host;
    port = format_unsigned g.port;
    target = g.order_endpoint ++ (codes "?" ++ (query ++ (codes "&signature=" ++ signature)));
    method = Rest.post;
    headers = (codes "X-MBX-APIKEY", g.credentials.api_key) ∷ [];
    body = [];
  }

  -- The last argument is the time in milliseconds, the third whether the handler can be called.
  pub send_order : Gateway → OrderRequest → ℕ → Bool → ℕ → List Action
  send_order g request client_order_id false now = []
  send_order g request client_order_id true now =
      let query = order_query g request client_order_id now in
      let signature = create_signature hmac query g.credentials.secret_key in
      if is_invalid request client_order_id
      then reply (err (make_error invalid_order (codes "Invalid order parameters") (pos 0))) ∷ []
      else if is_empty g.credentials.api_key || is_empty g.credentials.secret_key
      then reply
          (err (make_error signing_failed (codes "Binance API credentials are empty") (pos 0)))
        ∷ []
      else if is_empty g.symbol
      then reply (err (make_error invalid_instrument (codes "Unknown instrument") (pos 0))) ∷ []
      else if is_empty signature
      then reply
          (err (make_error signing_failed (codes "Failed to create HMAC SHA256 signature") (pos 0)))
        ∷ []
      else submit (http_request g query signature) ∷ []

module _ (J : Json) where
  open J use {Value, parse, is_object, member, as_uint64, as_int64, as_string}

  abbrev bind_member : {A : Type 0} → (Value → Option A) → Option Value → Option A
  bind_member f none = none
  bind_member f (some v) = f v

  abbrev or_empty : Option Bytes → Bytes
  or_empty none = []
  or_empty (some s) = s

  pub get_json_string : Value → Bytes → Bytes
  get_json_string json key = or_empty (bind_member as_string (member json key))

  abbrev signed_or_zero : Option ℤ → ℕ
  signed_or_zero (some (pos n)) = n
  signed_or_zero other = 0

  abbrev unsigned_or_zero : Option ℕ → Option ℤ → ℕ
  unsigned_or_zero (some n) other = n
  unsigned_or_zero none other = signed_or_zero other

  pub get_json_uint64 : Value → Bytes → ℕ
  get_json_uint64 json key =
      unsigned_or_zero (bind_member as_uint64 (member json key))
        (bind_member as_int64 (member json key))

  abbrev or_zero : Option ℤ → ℤ
  or_zero none = pos 0
  or_zero (some n) = n

  pub get_json_int64 : Value → Bytes → ℤ
  get_json_int64 json key = or_zero (bind_member as_int64 (member json key))

  -- A parsed document.
  pub read_document : Value → ℕ → ℕ → Reply
  read_document json status client_order_id =
      let message = get_json_string json (codes "msg") in
      let exchange_order_id = get_json_uint64 json (codes "orderId") in
      let order_status = get_json_string json (codes "status") in
      if not (is_object json)
      then err (make_error invalid_response (codes "Binance response is not a JSON object") (pos 0))
      else if ltb status 200 || leb 300 status
      then err (
          make_error exchange_rejected
            (if is_empty message then codes "Binance rejected order" else message)
            (get_json_int64 json (codes "code")))
      else if exchange_order_id == 0 || is_empty order_status
      then err (
          make_error invalid_response (codes "Binance response does not contain orderId or status")
            (pos 0))
      else ok (record {
        client_order_id = client_order_id;
        exchange_order_id = exchange_order_id;
        status = to_order_status order_status;
      })

  pub parse_response : HttpResponse → ℕ → Reply
  unfolding read_document
  parse_response response client_order_id = elim (parse response.body) [
    | err text ↦
        err (make_error invalid_response (codes "Invalid Binance JSON response: " ++ text) (pos 0))
    | ok json ↦ read_document json response.status client_order_id
  ]

  -- The handler that `sendOrder` gives to the REST client.
  pub on_response : ℕ → Rest.Response → Reply
  on_response client_order_id (err failure) =
      err (make_error transport_error failure.message (pos 0))
  on_response client_order_id (ok response) = parse_response response client_order_id
