-- ===== src/Orders/Gateway/Tests.antt =====
-- A limit order, and an exchange that answers it.
use exchange_connectivity.Base.{
  ℕ, ◌++◌, refl, ◌≡◌, ◌≢◌, ◌↔◌, [], ◌∷◌, Option, none, some, Fallible, ok, err, true, arith, ◌==◌,
  if◌then◌else◌, length,
}
use exchange_connectivity.Base.Int.{pos}
use exchange_connectivity.Base.Text.{Bytes, codes}
use exchange_connectivity.Json.{Json}
use exchange_connectivity.Rest
use exchange_connectivity.Rest.{HttpRequest, HttpResponse}
use exchange_connectivity.Decimal.Print.{format_unsigned, to_decimal_string}
use exchange_connectivity.Orders.Text.{url_encode, to_hex, is_plain, hex_pair}
use exchange_connectivity.Orders.Gateway.Signed.{IsRequest}
use exchange_connectivity.Orders.{buy, limit, OrderRequest, OrderSubmission, filled}
use exchange_connectivity.Orders.Fields.{fields_of}
use exchange_connectivity.Orders.Gateway.{
  Gateway, submit, create_signature, send_order, create_query, parse_response,
}
use exchange_connectivity.Orders.Gateway.Query.{order_fields, create_query-fields}
use exchange_connectivity.Orders.Gateway.Sending.{
  IsAcceptable, parameters, with_signature, send_order_submits,
}
use exchange_connectivity.Orders.Gateway.Replies.{IsAccepted, parse_response_accepts}

abbrev request : OrderRequest
request = record {
  instrument = 1;
  side = buy;
  order_type = limit;
  price = pos 6_500_000_000_000;
  quantity = pos 1_000_000;
}

abbrev gateway : Gateway
gateway = record {
  credentials = record { api_key = codes "key"; secret_key = codes "secret" };
  host = codes "testnet.binance.vision";
  port = 443;
  order_endpoint = codes "/api/v3/order";
  symbol = codes "BTC&SIDE";
}

abbrev sum_of : Bytes → Bytes → Option Bytes
sum_of key payload = some (length payload ∷ [])

create_query-fields_example :
    fields_of (create_query request 77 gateway.symbol 1_700_000_000_000)
    ≡ order_fields request 77 gateway.symbol 1_700_000_000_000
create_query-fields_example =
    create_query-fields request 77 gateway.symbol 1_700_000_000_000 (omega arith) (omega arith)
      (omega arith)

-- The request that sends the order, at the time 5.
abbrev posted : HttpRequest
posted = record {
  host = codes "testnet.binance.vision";
  port = codes "443";
  target =
      codes "/api/v3/order?symbol=BTC%26SIDE&side=BUY&type=LIMIT&quantity=0.01"
      ++ codes "&newClientOrderId=77&price=65000&timeInForce=GTC&recvWindow=5000"
      ++ codes "&timestamp=5&signature=7F";
  method = Rest.post;
  headers = (codes "X-MBX-APIKEY", codes "key") ∷ [];
  body = [];
}

posted_is_sent : send_order sum_of gateway request 77 true 5 ≡ submit posted ∷ []
unfolding send_order create_query create_signature url_encode to_hex format_unsigned
    to_decimal_string is_plain hex_pair
posted_is_sent = refl

send_order_submits_example : (send_order sum_of gateway request 77 true 5 ≡ submit posted ∷ []) ↔ (
    IsAcceptable request 77
    × (gateway.credentials.api_key ≢ [])
    × (gateway.credentials.secret_key ≢ [])
    × (gateway.symbol ≢ [])
    × IsRequest sum_of gateway.credentials.secret_key
        (parameters gateway request 77 5)
        (with_signature sum_of gateway request 77 5)
        posted)
send_order_submits_example = send_order_submits sum_of gateway request 77 5 posted

-- A document in which every member is 42 as a number and "FILLED" as a text.
abbrev document_parse : Bytes → Fallible Bytes ℕ
document_parse [] = err (codes "incomplete JSON")
document_parse (c ∷ s) = ok 0

abbrev document : Json
document = record {
  Value = ℕ;
  parse = document_parse;
  is_object = λ n. n == 0;
  member = λ n key. if n == 0 then some 1 else none;
  as_uint64 = λ n. if n == 1 then some 42 else none;
  as_int64 = λ n. if n == 1 then some (pos 42) else none;
  as_string = λ n. if n == 1 then some (codes "FILLED") else none;
  as_bool = λ n. none;
  as_array = λ n. none;
}

abbrev answer : ℕ → HttpResponse
answer status = record { status = status; headers = []; body = codes "{}" }

abbrev submission : OrderSubmission
submission = record { client_order_id = 77; exchange_order_id = 42; status = filled }

parse_response_accepts_example :
    (parse_response document (answer 200) 77 ≡ ok submission)
    ↔ IsAccepted document (answer 200) 77 submission
parse_response_accepts_example = parse_response_accepts document (answer 200) 77 submission
