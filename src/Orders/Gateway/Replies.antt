-- ===== src/Orders/Gateway/Replies.antt =====
-- What the exchange's answer becomes.
use exchange_connectivity.Base.{
  ℕ, ◌≤◌, ◌<◌, ◌≡◌, ◌≢◌, ◌↔◌, ◌⊎◌, refl, true, [], Fallible, ok, err, arith, inl, inr,
  if◌then◌else◌,
}
use exchange_connectivity.Base.Text.{Bytes, codes, is_empty}
use exchange_connectivity.Json.{Json}
use exchange_connectivity.Rest.{HttpResponse}
use exchange_connectivity.Orders.{
  OrderSubmission, OrderSubmissionError, exchange_rejected, to_order_status,
}
use exchange_connectivity.Orders.Gateway.{
  Reply, make_error, get_json_string, get_json_uint64, get_json_int64, read_document,
  parse_response,
}

module _ (J : Json) where
  open J use {Value, parse, is_object}

  -- An answer that counts as a submission.
  pub record IsAccepted (response : HttpResponse) (client_order_id : ℕ) (s : OrderSubmission)
      : Type 0 where
    pub json : Value
    pub parsed : parse response.body ≡ ok json
    pub object_kind : is_object json ≡ true
    pub success : (200 ≤ response.status) × (response.status < 300)
    pub same_client : s.client_order_id ≡ client_order_id
    pub exchange_id : s.exchange_order_id ≡ get_json_uint64 J json (codes "orderId")
    pub identified : s.exchange_order_id ≢ 0
    pub status_text : get_json_string J json (codes "status") ≢ []
    pub status_read : s.status ≡ to_order_status (get_json_string J json (codes "status"))

  accepted :
      (response : HttpResponse) (id : ℕ) (s : OrderSubmission) (json : Value)
      → parse response.body ≡ ok json
      → read_document J json response.status id ≡ ok s
      → IsAccepted response id s
  unfolding read_document
  accepted response id s json p e = record {
    json = json;
    parsed = p;
    object_kind = ground arith;
    success = ground arith;
    same_client = ground arith;
    exchange_id = ground arith;
    identified = ground arith;
    status_text = ground arith;
    status_read = ground arith;
  }

  document_accepts :
      (response : HttpResponse) (id : ℕ) (s : OrderSubmission) (a : IsAccepted response id s)
      → read_document J a.json response.status id ≡ ok s
  unfolding read_document
  document_accepts response id s a = ground arith

  accepts :
      (response : HttpResponse) (id : ℕ) (s : OrderSubmission)
      → IsAccepted response id s
      → parse_response J response id ≡ ok s
  unfolding parse_response
  accepts response id s a = rw (a.parsed, parse_response) (document_accepts response id s a)

  accepted_only :
      (response : HttpResponse) (id : ℕ) (s : OrderSubmission) (d : Fallible Bytes Value)
      → parse response.body ≡ d
      → parse_response J response id ≡ ok s
      → IsAccepted response id s
  unfolding parse_response
  accepted_only response id s (ok json) p e =
      accepted response id s json p (rw (p, parse_response) at e)
  accepted_only response id s (err text) p e = absurd (failed_parse (rw (p, parse_response) at e))
    where
      failed_parse : {f : OrderSubmissionError} → ◌≡◌ {A = Reply} (err f) (ok s) → ⊥
      failed_parse h = cc

  -- The answer to an order counts as a submission exactly where its body is a JSON object, its
  -- status is from 200 to 299, and it has a non-zero orderId and a status text; the submission then
  -- carries the client's own id, that orderId and the order status of that text.
  pub parse_response_accepts :
      (response : HttpResponse) (client_order_id : ℕ) (s : OrderSubmission)
      → (parse_response J response client_order_id ≡ ok s) ↔ IsAccepted response client_order_id s
  parse_response_accepts response id s =
      (accepted_only response id s (parse response.body) refl, accepts response id s)

  -- An object with a status outside 200 to 299 is a rejection, with the exchange's code and its
  -- message, or the default one where that is empty.
  pub parse_response_rejects :
      (response : HttpResponse) (client_order_id : ℕ) (json : Value)
      → parse response.body ≡ ok json
      → is_object json ≡ true
      → (response.status < 200) ⊎ (300 ≤ response.status)
      → parse_response J response client_order_id
        ≡ err (
            make_error exchange_rejected
              (if is_empty (get_json_string J json (codes "msg"))
                then codes "Binance rejected order"
                else get_json_string J json (codes "msg"))
              (get_json_int64 J json (codes "code")))
  unfolding parse_response read_document
  parse_response_rejects response id json p o (inl low) = rw (p, parse_response) (ground arith)
  parse_response_rejects response id json p o (inr high) = rw (p, parse_response) (ground arith)
