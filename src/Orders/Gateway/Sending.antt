-- ===== src/Orders/Gateway/Sending.antt =====
-- Which orders are sent, and which are answered at once.
use exchange_connectivity.Base.{
  ℕ, sym, ap, ◌∙◌, List, ◌<◌, ◌≡◌, ◌≢◌, ◌↔◌, refl, Bool, true, false, [], ◌∷◌, Option, arith,
  length, if◌then◌else◌,
}
use exchange_connectivity.Base.Int.{ℤ, pos, negsuc, pos_part, is_positive}
use exchange_connectivity.Base.Text.{Bytes, is_empty}
use exchange_connectivity.Rest
use exchange_connectivity.Rest.{HttpRequest}
use exchange_connectivity.Orders.{OrderType, market, limit, OrderRequest}
use exchange_connectivity.Orders.Gateway.{
  Gateway, submit, create_signature, is_invalid, order_query, http_request, send_order,
  create_query, order_text, price_text, time_text, recv_window,
}
use exchange_connectivity.Orders.Gateway.Signed.{
  Parameter, symbol_parameter, order_details, query_text, order_parameters, time_parameters,
  request_with, IsRequest, signed_target, signed_iff,
}

-- The order has an id, a positive quantity and, with a limit, a positive price.
pub record IsAcceptable (r : OrderRequest) (client_order_id : ℕ) : Type 0 where
  pub identified : 0 < client_order_id
  pub some_quantity : 0 < pos_part r.quantity
  pub some_price : r.order_type ≡ limit → 0 < pos_part r.price

positive_iff : (v : ℤ) → (is_positive v ≡ true) ↔ (0 < pos_part v)
positive_iff (pos n) = ground arith
positive_iff (negsuc n) = ground arith

pub is_invalid-IsAcceptable :
    (r : OrderRequest) (id : ℕ) → (is_invalid r id ≡ false) ↔ IsAcceptable r id
is_invalid-IsAcceptable r id = (
  λ h. record {
    identified = ground arith;
    some_quantity = ground (arith, positive_iff r.quantity);
    some_price = λ e. ground (arith, positive_iff r.price);
  },
  λ v. valid r id v r.order_type refl,
)
  where
    valid :
        (r : OrderRequest) (id : ℕ)
        → IsAcceptable r id
        → (t : OrderType) → r.order_type ≡ t
        → is_invalid r id ≡ false
    valid r id v market e = ground (arith, positive_iff r.quantity)
    valid r id v limit e =
        ground (arith, positive_iff r.quantity, positive_iff r.price, v.some_price e)

pub is_empty_iff : (s : Bytes) → (is_empty s ≡ false) ↔ (s ≢ [])
is_empty_iff [] = (λ h. cc, λ h. absurd (h refl))
is_empty_iff (c ∷ s) = (λ h. λ e. cc, λ h. refl)

-- The parameters that an order's request carries.
abbrev pub parameters : Gateway → OrderRequest → ℕ → ℕ → List Parameter
parameters g r client_order_id now =
    order_parameters r client_order_id g.symbol (time_parameters 5000 now)

priced_text :
    (r : OrderRequest) (id : ℕ) (symbol : Bytes) (now : ℕ) (t : OrderType)
    → order_text r id symbol (price_text t r.price (time_text recv_window now))
      ≡ query_text (symbol_parameter symbol ∷ order_details r t id (time_parameters 5000 now))
priced_text r id symbol now market = refl
priced_text r id symbol now limit = refl

query-parameters :
    (hmac : Bytes → Bytes → Option Bytes) (g : Gateway) (r : OrderRequest) (id now : ℕ)
    → order_query hmac g r id now ≡ query_text (parameters g r id now)
unfolding create_query
query-parameters hmac g r id now = priced_text r id g.symbol now r.order_type

module _ (hmac : Bytes → Bytes → Option Bytes) (g : Gateway) (r : OrderRequest)
    (client_order_id now : ℕ) where
  abbrev query : Bytes
  query = order_query hmac g r client_order_id now

  abbrev signature : Bytes
  signature = create_signature hmac query g.credentials.secret_key

  -- The tests in their order.
  passed :
      (q : HttpRequest)
      → send_order hmac g r client_order_id true now ≡ submit q ∷ []
      → (is_invalid r client_order_id ≡ false)
        × (is_empty g.credentials.api_key ≡ false)
        × (is_empty g.credentials.secret_key ≡ false)
        × (is_empty g.symbol ≡ false)
        × (is_empty signature ≡ false)
        × (q ≡ http_request hmac g query signature)
  unfolding send_order
  passed q e = ground arith

  sends :
      is_invalid r client_order_id ≡ false
      → is_empty g.credentials.api_key ≡ false
      → is_empty g.credentials.secret_key ≡ false
      → is_empty g.symbol ≡ false
      → is_empty signature ≡ false
      → send_order hmac g r client_order_id true now
        ≡ submit (http_request hmac g query signature) ∷ []
  unfolding send_order
  sends a b c d f = rw (a, b, c, d, f)

  abbrev pub with_signature : Bytes → HttpRequest
  with_signature =
      request_with g.host g.port g.credentials.api_key Rest.post g.order_endpoint
        (parameters g r client_order_id now)

  built_iff :
      (q : HttpRequest)
      → ((signature ≢ []) × (q ≡ http_request hmac g query signature))
        ↔ IsRequest hmac g.credentials.secret_key
            (parameters g r client_order_id now)
            with_signature
            q
  built_iff q =
      let same = query-parameters hmac g r client_order_id now in
      let details = order_details r r.order_type client_order_id (time_parameters 5000 now) in
      signed_iff hmac g.credentials.secret_key query (symbol_parameter g.symbol) details same
        (λ s. http_request hmac g query s) with_signature q
        (λ s.
          ap (λ t. record (with_signature s) { target = t })
            (signed_target hmac g.credentials.secret_key query (symbol_parameter g.symbol) details
              same g.order_endpoint s))

  -- An order is sent, and nothing else is done, exactly where it has an id, a positive quantity and, if it is a
  -- limit order, a positive price, the gateway has both keys and a symbol, and the digest of the query under the
  -- secret can be had and is not empty. The request is then a POST to the gateway's host, port and endpoint with
  -- the key as its only header and no body; its query carries the symbol in URL encoding, side, type, quantity, client
  -- id, for a limit order price and time in force, a receive window of 5000, the time, and last the digest of all that
  -- stands before it in hexadecimal.
  pub send_order_submits :
      (q : HttpRequest)
      → (send_order hmac g r client_order_id true now ≡ submit q ∷ []) ↔ (
          IsAcceptable r client_order_id
          × (g.credentials.api_key ≢ [])
          × (g.credentials.secret_key ≢ [])
          × (g.symbol ≢ [])
          × IsRequest hmac g.credentials.secret_key
              (parameters g r client_order_id now)
              with_signature
              q)
  unfolding send_order
  send_order_submits q = (
    λ e.
        let (a, b, c, d, f, same) = passed q e in
        (
          (is_invalid-IsAcceptable r client_order_id).0 a,
          (is_empty_iff g.credentials.api_key).0 b,
          (is_empty_iff g.credentials.secret_key).0 c,
          (is_empty_iff g.symbol).0 d,
          (built_iff q).0 ((is_empty_iff signature).0 f, same),
        ),
    λ (v, key, secret, symbol, built).
        let (signed, same) = (built_iff q).1 built in
        sends ((is_invalid-IsAcceptable r client_order_id).1 v)
          ((is_empty_iff g.credentials.api_key).1 key)
          ((is_empty_iff g.credentials.secret_key).1 secret) ((is_empty_iff g.symbol).1 symbol)
          ((is_empty_iff signature).1 signed)
        ∙ ap (λ q'. submit q' ∷ []) (sym same),
  )

  -- A handler that can be called is answered at once, or its order is sent, and never both; nothing is
  -- done for one that cannot.
  pub send_order_once :
      (h : Bool) → length (send_order hmac g r client_order_id h now) ≡ (if h then 1 else 0)
  unfolding send_order
  send_order_once true = ground arith
  send_order_once false = refl
