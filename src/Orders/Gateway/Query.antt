-- ===== src/Orders/Gateway/Query.antt =====
-- The parameters that an order's query carries.
use exchange_connectivity.Base.{ℕ, ◌<◌, ◌≡◌, ap, ◌∙◌, List, [], ◌∷◌, ◌++◌, arith, All, All-append}
use exchange_connectivity.Base.Int.{ℤ, Fits64}
use exchange_connectivity.Base.Text.{Bytes, codes}
use exchange_connectivity.Decimal.Print.{format_unsigned}
use exchange_connectivity.Orders.{
  Side, buy, sell, OrderType, market, limit, OrderRequest, side_text, type_text,
}
use exchange_connectivity.Orders.Text.{url_encode}
use exchange_connectivity.Orders.Fields.{
  fields_of, Lacks, fields_of-last, fields_of-field, format-Lacks, url_encode-Lacks, decimal-Lacks,
}
use exchange_connectivity.Orders.Gateway.{
  decimal_text, recv_window, price_text, time_text, create_query,
}

abbrev pub price_fields : OrderType → ℤ → List Bytes
price_fields market price = []
price_fields limit price = (codes "price=" ++ decimal_text price) ∷ codes "timeInForce=GTC" ∷ []

-- The parameters, name and value.
abbrev pub order_fields : OrderRequest → ℕ → Bytes → ℕ → List Bytes
order_fields r client_order_id symbol now =
    (codes "symbol=" ++ url_encode symbol)
    ∷ (codes "side=" ++ side_text r.side)
    ∷ (codes "type=" ++ type_text r.order_type)
    ∷ (codes "quantity=" ++ decimal_text r.quantity)
    ∷ (codes "newClientOrderId=" ++ format_unsigned client_order_id)
    ∷ (price_fields r.order_type r.price
        ++ (codes "recvWindow=" ++ format_unsigned recv_window)
          ∷ (codes "timestamp=" ++ format_unsigned now)
          ∷ [])

side-Lacks : (s : Side) → Lacks (side_text s)
side-Lacks buy = omega arith
side-Lacks sell = omega arith

type-Lacks : (t : OrderType) → Lacks (type_text t)
type-Lacks market = omega arith
type-Lacks limit = omega arith

-- A text that begins with the delimiter, behind a field.
time_fields :
    (name value : Bytes) (now : ℕ)
    → Lacks name
    → Lacks value
    → fields_of (name ++ (value ++ time_text recv_window now))
      ≡ (name ++ value)
        ∷ (codes "recvWindow=" ++ format_unsigned recv_window)
        ∷ (codes "timestamp=" ++ format_unsigned now)
        ∷ []
time_fields name value now h k =
    fields_of-field name value
      (codes "recvWindow="
        ++ (format_unsigned recv_window ++ (codes "&timestamp=" ++ format_unsigned now)))
      h k
    ∙ ap (λ fs. (name ++ value) ∷ fs)
        (fields_of-field (codes "recvWindow=") (format_unsigned recv_window)
            (codes "timestamp=" ++ format_unsigned now) (omega arith) (format-Lacks recv_window)
          ∙ ap (λ fs. (codes "recvWindow=" ++ format_unsigned recv_window) ∷ fs)
              (fields_of-last (codes "timestamp=" ++ format_unsigned now) (
                All-append _ (codes "timestamp=") (format_unsigned now) (omega arith)
                  (format-Lacks now))))

price_text-fields :
    (t : OrderType) (price : ℤ) (name value : Bytes) (now : ℕ)
    → Fits64 price
    → Lacks name
    → Lacks value
    → fields_of (name ++ (value ++ price_text t price (time_text recv_window now)))
      ≡ (name ++ value)
        ∷ (price_fields t price
            ++ (codes "recvWindow=" ++ format_unsigned recv_window)
              ∷ (codes "timestamp=" ++ format_unsigned now)
              ∷ [])
price_text-fields market price name value now fits h k = time_fields name value now h k
price_text-fields limit price name value now fits h k =
    fields_of-field name value
      (codes "price="
        ++ (decimal_text price ++ (codes "&timeInForce=GTC" ++ time_text recv_window now)))
      h k
    ∙ ap (λ fs. (name ++ value) ∷ fs)
        (fields_of-field (codes "price=") (decimal_text price)
            (codes "timeInForce=" ++ (codes "GTC" ++ time_text recv_window now)) (omega arith)
            (decimal-Lacks price fits)
          ∙ ap (λ fs. (codes "price=" ++ decimal_text price) ∷ fs)
              (time_fields (codes "timeInForce=") (codes "GTC") now (omega arith) (omega arith)))

-- Whatever bytes the symbol holds, the query of an order with a 64-bit price and quantity splits at its delimiters into exactly the
-- parameters of the order, in their order: the encoded symbol, side, type, quantity and client id,
-- the price and time in force of a limit order only, the receive window and the time.
pub create_query-fields :
    (r : OrderRequest) (client_order_id : ℕ) (symbol : Bytes) (now : ℕ)
    → All (λ c. c < 256) symbol
    → Fits64 r.quantity
    → Fits64 r.price
    → fields_of (create_query r client_order_id symbol now)
      ≡ order_fields r client_order_id symbol now
unfolding create_query
create_query-fields r id symbol now bytes quantity price =
    let tail = price_text r.order_type r.price (time_text recv_window now) in
    let id_text = codes "newClientOrderId=" ++ (format_unsigned id ++ tail) in
    let quantity_text = codes "quantity=" ++ (decimal_text r.quantity ++ b'&' ∷ id_text) in
    let kind_text = codes "type=" ++ (type_text r.order_type ++ b'&' ∷ quantity_text) in
    let rest = codes "side=" ++ (side_text r.side ++ b'&' ∷ kind_text) in
    fields_of-field (codes "symbol=") (url_encode symbol) rest (omega arith)
      (url_encode-Lacks symbol bytes)
    ∙ ap (λ fs. (codes "symbol=" ++ url_encode symbol) ∷ fs)
        (fields_of-field (codes "side=") (side_text r.side) kind_text (omega arith)
            (side-Lacks r.side)
          ∙ ap (λ fs. (codes "side=" ++ side_text r.side) ∷ fs)
              (fields_of-field (codes "type=") (type_text r.order_type) quantity_text (omega arith)
                  (type-Lacks r.order_type)
                ∙ ap (λ fs. (codes "type=" ++ type_text r.order_type) ∷ fs)
                    (fields_of-field (codes "quantity=") (decimal_text r.quantity) id_text
                        (omega arith) (decimal-Lacks r.quantity quantity)
                      ∙ ap (λ fs. (codes "quantity=" ++ decimal_text r.quantity) ∷ fs)
                          (price_text-fields r.order_type r.price (codes "newClientOrderId=")
                            (format_unsigned id) now price (omega arith) (format-Lacks id)))))
