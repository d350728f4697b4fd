-- ===== src/Spot/Tests.antt =====
-- A client, and an exchange that answers it.
use exchange_connectivity.Base.{
  ℕ, refl, ◌≡◌, ◌↔◌, [], ◌∷◌, Option, none, some, Fallible, ok, err, ◌==◌, if◌then◌else◌, length,
}
use exchange_connectivity.Base.Int.{pos}
use exchange_connectivity.Base.Text.{Bytes, codes, beq}
use exchange_connectivity.Json.{Json}
use exchange_connectivity.Rest
use exchange_connectivity.Rest.{HttpRequest, HttpResponse}
use exchange_connectivity.Decimal.Print.{format_unsigned}
use exchange_connectivity.Orders.Text.{url_encode, to_hex, is_plain, hex_pair}
use exchange_connectivity.Orders.Gateway.{create_signature}
use exchange_connectivity.Orders.{new}
use exchange_connectivity.Spot.{
  cancel_order, async_signed_request, cancel_query, SpotClient, OrderCancellation, AssetBalance,
  parse_cancel_response, parse_balances_response,
}
use exchange_connectivity.Spot.Calls.{cancels}
use exchange_connectivity.Spot.Signing.{IsAllowed, Sends, requests, requests_signed}
use exchange_connectivity.Spot.Replies.{
  IsCancelled, AreBalances, parse_cancel_response_accepts, parse_balances_response_accepts,
}

abbrev client : SpotClient
client = record {
  credentials = record { api_key = codes "key"; secret_key = codes "secret" };
  host = codes "testnet.binance.vision";
  port = 443;
  symbol = codes "BTCUSDT";
  recv_window = 5000;
}

abbrev sum_of : Bytes → Bytes → Option Bytes
sum_of key payload = some (length payload ∷ [])

-- A document with the value 0, the object, 1, a number or a text, and 2, a list of two objects.
abbrev document_parse : Bytes → Fallible Bytes ℕ
document_parse [] = err (codes "incomplete JSON")
document_parse (c ∷ s) = ok 0

abbrev document : Json
document = record {
  Value = ℕ;
  parse = document_parse;
  is_object = λ n. n == 0;
  member =
      λ n key. if n == 0 then (if beq key (codes "balances") then some 2 else some 1) else none;
  as_uint64 = λ n. if n == 1 then some 42 else none;
  as_int64 = λ n. if n == 1 then some (pos 42) else none;
  as_string = λ n. if n == 1 then some (codes "EXPIRED") else none;
  as_bool = λ n. none;
  as_array = λ n. if n == 2 then some (0 ∷ 0 ∷ []) else none;
}

abbrev answer : HttpResponse
answer = record { status = 200; headers = []; body = codes "{}" }

-- A status that the code does not know.
abbrev cancelled : OrderCancellation
cancelled = record { exchange_order_id = 42; status = new }

abbrev balance : AssetBalance
balance = record { asset = codes "EXPIRED"; free = codes "EXPIRED"; locked = codes "EXPIRED" }

-- The request that cancels an order, at the time 5.
abbrev cancellation : HttpRequest
cancellation = record {
  host = codes "testnet.binance.vision";
  port = codes "443";
  target = codes "/api/v3/order?symbol=BTCUSDT&orderId=42&recvWindow=5000&timestamp=5&signature=35";
  method = Rest.delete;
  headers = (codes "X-MBX-APIKEY", codes "key") ∷ [];
  body = [];
}

cancellation_sent : requests sum_of client 5 document (cancels 42) ≡ cancellation ∷ []
unfolding requests cancel_order async_signed_request cancel_query create_signature url_encode to_hex
    format_unsigned is_plain hex_pair
cancellation_sent = refl

requests_signed_example :
    (requests sum_of client 5 document (cancels 42) ≡ cancellation ∷ [])
    ↔ (IsAllowed client (cancels 42) × Sends sum_of client 5 document (cancels 42) cancellation)
requests_signed_example = requests_signed sum_of client 5 document (cancels 42) cancellation

parse_cancel_response_accepts_example :
    (parse_cancel_response document answer ≡ ok cancelled) ↔ IsCancelled document answer cancelled
parse_cancel_response_accepts_example = parse_cancel_response_accepts document answer cancelled

parse_balances_response_accepts_example :
    (parse_balances_response document answer ≡ ok (balance ∷ balance ∷ []))
    ↔ AreBalances document answer (balance ∷ balance ∷ [])
parse_balances_response_accepts_example =
    parse_balances_response_accepts document answer (balance ∷ balance ∷ [])
