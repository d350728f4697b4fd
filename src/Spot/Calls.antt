-- ===== src/Spot/Calls.antt =====
-- The calls of the client, and the parameters that their requests carry.
use exchange_connectivity.Base.{
  ℕ, ◌++◌, append-nil, append_assoc, ◌≡◌, refl, sym, ap, ◌∙◌, List, [], ◌∷◌, Option,
}
use exchange_connectivity.Base.Text.{Bytes, codes}
use exchange_connectivity.Rest
use exchange_connectivity.Rest.{Verb, HttpRequest, HttpResponse}
use exchange_connectivity.Orders.{OrderType, market, limit, OrderRequest}
use exchange_connectivity.Decimal.Print.{format_unsigned}
use exchange_connectivity.Orders.Text.{url_encode}
use exchange_connectivity.Orders.{side_text, type_text}
use exchange_connectivity.Orders.Gateway.{order_text, price_text, decimal_text}
use exchange_connectivity.Orders.Gateway.Signed.{
  Parameter, query_text, query_text-append, symbol_parameter, order_details, order_parameters,
  time_parameters,
}
use exchange_connectivity.Spot.{
  SpotClient, order_endpoint, account_endpoint, create_order_query, cancel_query, payload,
}

-- A call of the client, with a handler that can be called.
pub data Operation : Type 0 where
  sends : OrderRequest → ℕ → Operation
  cancels : ℕ → Operation
  asks_balances : Operation

abbrev pub method_of : Operation → Verb
method_of (sends r id) = Rest.post
method_of (cancels id) = Rest.delete
method_of asks_balances = Rest.get

abbrev pub endpoint_of : Operation → Bytes
endpoint_of (sends r id) = order_endpoint
endpoint_of (cancels id) = order_endpoint
endpoint_of asks_balances = account_endpoint

abbrev pub query_of : SpotClient → Operation → Bytes
query_of c (sends r id) = create_order_query r id c.symbol
query_of c (cancels id) = cancel_query id c.symbol
query_of c asks_balances = []

-- The parameters that a call's request carries.
abbrev pub parameters_of : SpotClient → ℕ → Operation → List Parameter
parameters_of c now (sends r id) =
    order_parameters r id c.symbol (time_parameters c.recv_window now)
parameters_of c now (cancels id) =
    symbol_parameter c.symbol
    ∷ (codes "orderId", format_unsigned id)
    ∷ time_parameters c.recv_window now
parameters_of c now asks_balances = time_parameters c.recv_window now

order_query-text :
    (r : OrderRequest) (id : ℕ) (symbol : Bytes) (t : OrderType)
    → order_text r id symbol (price_text t r.price [])
      ≡ query_text (symbol_parameter symbol ∷ order_details r t id [])
order_query-text r id symbol market =
    ap
      (λ last.
        codes "symbol="
        ++ (url_encode symbol
            ++ (codes "&side="
                ++ (side_text r.side
                    ++ (codes "&type="
                        ++ (type_text r.order_type
                            ++ (codes "&quantity="
                                ++ (decimal_text r.quantity
                                    ++ (codes "&newClientOrderId=" ++ last)))))))))
      (append-nil (format_unsigned id))
order_query-text r id symbol limit = refl

module _ (hmac : Bytes → Bytes → Option Bytes) (c : SpotClient) (now : ℕ) where
  abbrev pub times : List Parameter
  times = time_parameters c.recv_window now

  -- A query that is not empty, with the window and the time behind it.
  timed :
      (text : Bytes) (p : Parameter) (ps : List Parameter)
      → text ≡ query_text (p ∷ ps)
      → (text ++ codes "&") ++ query_text times ≡ query_text ((p ∷ ps) ++ times)
  timed text p ps e =
      append_assoc text (codes "&") (query_text times)
      ∙ ap (λ t. t ++ b'&' ∷ query_text times) e
      ∙ sym (
          query_text-append p ps (codes "recvWindow", format_unsigned c.recv_window)
            ((codes "timestamp", format_unsigned now) ∷ []))

  order_payload :
      (r : OrderRequest) (id : ℕ) (t : OrderType)
      → payload hmac c now (order_text r id c.symbol (price_text t r.price []))
        ≡ query_text (symbol_parameter c.symbol ∷ order_details r t id times)
  order_payload r id market =
      timed _ (symbol_parameter c.symbol) (order_details r market id [])
        (order_query-text r id c.symbol market)
  order_payload r id limit =
      timed _ (symbol_parameter c.symbol) (order_details r limit id [])
        (order_query-text r id c.symbol limit)

  pub payload-parameters :
      (op : Operation) → payload hmac c now (query_of c op) ≡ query_text (parameters_of c now op)
  unfolding create_order_query cancel_query
  payload-parameters (sends r id) = order_payload r id r.order_type
  payload-parameters (cancels id) =
      timed (cancel_query id c.symbol) (symbol_parameter c.symbol)
        ((codes "orderId", format_unsigned id) ∷ []) refl
  payload-parameters asks_balances = refl
