-- ===== src/Spot/Signing.antt =====
-- Which calls send a request, and what it carries.
use exchange_connectivity.Base.{
  ℕ, ◌≡◌, ◌≢◌, ◌↔◌, refl, sym, ap, ◌∙◌, Bool, true, false, List, [], ◌∷◌, Option, arith, ◌==◌,
  if◌then◌else◌,
}
use exchange_connectivity.Base.Text.{Bytes, codes, is_empty}
use exchange_connectivity.Json.{Json}
use exchange_connectivity.Rest.{HttpRequest, HttpResponse}
use exchange_connectivity.Orders.{Side, buy, sell, OrderType, market, limit, OrderRequest}
use exchange_connectivity.Orders.Gateway.{create_signature, is_invalid}
use exchange_connectivity.Orders.Gateway.Sending.{
  IsAcceptable, is_invalid-IsAcceptable, is_empty_iff,
}
use exchange_connectivity.Decimal.Print.{format_unsigned}
use exchange_connectivity.Orders.Gateway.Signed.{
  Parameter, query_text, symbol_parameter, order_details, request_with, IsRequest, signed_target,
  signed_iff,
}
use exchange_connectivity.Spot.Calls.{
  Operation, sends, cancels, asks_balances, method_of, endpoint_of, query_of, parameters_of, times,
  payload-parameters,
}
use exchange_connectivity.Spot.{
  SpotClient, Reply, Action, reply, submit, ApiResponse, payload, http_request,
  async_signed_request, deliver, is_refused, send_order, cancel_order, get_balances,
  on_order_response, on_cancel_response, on_balances_response,
}

-- What the parameters of a call must be.
abbrev pub IsAllowed : SpotClient → Operation → Type 0
IsAllowed c (sends r id) = IsAcceptable r id × (c.symbol ≢ [])
IsAllowed c (cancels id) = id ≢ 0
IsAllowed c asks_balances = Unit

abbrev pub submitted : {A : Type 0} → List (Action A) → List HttpRequest
submitted [] = []
submitted (reply r ∷ actions) = submitted actions
submitted (submit q ∷ actions) = q ∷ submitted actions

is_refused-is_invalid :
    (hmac : Bytes → Bytes → Option Bytes) (c : SpotClient) (now : ℕ) (r : OrderRequest) (id : ℕ)
    (s : Side) (t : OrderType)
    → r.side ≡ s
    → r.order_type ≡ t
    → is_refused hmac c now r id ≡ is_invalid r id
is_refused-is_invalid hmac c now r id buy market e f = rw (e, f) (ground arith)
is_refused-is_invalid hmac c now r id buy limit e f = rw (e, f) (ground arith)
is_refused-is_invalid hmac c now r id sell market e f = rw (e, f) (ground arith)
is_refused-is_invalid hmac c now r id sell limit e f = rw (e, f) (ground arith)

nonzero_iff : (n : ℕ) → ((n == 0) ≡ false) ↔ (n ≢ 0)
nonzero_iff n = ground arith

module _ (hmac : Bytes → Bytes → Option Bytes) (c : SpotClient) (now : ℕ) (J : Json) where
  -- The requests that a call hands to the REST client.
  unfoldable pub requests : Operation → List HttpRequest
  unfolding send_order cancel_order get_balances
  requests (sends r id) = submitted (send_order hmac c now J r id true)
  requests (cancels id) = submitted (cancel_order hmac c now J id true)
  requests asks_balances = submitted (get_balances hmac c now J true)

  abbrev signature : Operation → Bytes
  signature op = create_signature hmac (payload hmac c now (query_of c op)) c.credentials.secret_key

  abbrev signed_request : Operation → HttpRequest
  signed_request op =
      http_request hmac c now (method_of op) (endpoint_of op) (payload hmac c now (query_of c op))
        (signature op)

  abbrev Ready : Operation → Type 0
  Ready op = (c.credentials.api_key ≢ []) × (c.credentials.secret_key ≢ []) × (signature op ≢ [])

  abbrev asked : Operation → Action HttpResponse
  asked op = async_signed_request hmac c now (method_of op) (endpoint_of op) (query_of c op)

  passed :
      {A : Type 0} (op : Operation) (read : ApiResponse → Reply A) (q : HttpRequest)
      → submitted (deliver hmac c now read (asked op) ∷ []) ≡ q ∷ []
      → (is_empty c.credentials.api_key ≡ false)
        × (is_empty c.credentials.secret_key ≡ false)
        × (is_empty (signature op) ≡ false)
        × (q ≡ signed_request op)
  unfolding async_signed_request
  passed op read q e = ground arith

  sends_signed :
      {A : Type 0} (op : Operation) (read : ApiResponse → Reply A)
      → is_empty c.credentials.api_key ≡ false
      → is_empty c.credentials.secret_key ≡ false
      → is_empty (signature op) ≡ false
      → submitted (deliver hmac c now read (asked op) ∷ []) ≡ signed_request op ∷ []
  unfolding async_signed_request
  sends_signed op read a b d = rw (a, b, d)

  asked_iff :
      {A : Type 0} (op : Operation) (read : ApiResponse → Reply A) (q : HttpRequest)
      → (submitted (deliver hmac c now read (asked op) ∷ []) ≡ q ∷ [])
        ↔ (Ready op × (q ≡ signed_request op))
  asked_iff op read q = (
    λ e.
        let (a, b, d, same) = passed op read q e in
        (
          (
            (is_empty_iff c.credentials.api_key).0 a,
            (is_empty_iff c.credentials.secret_key).0 b,
            (is_empty_iff (signature op)).0 d,
          ),
          same,
        ),
    λ ((a, b, d), same).
        sends_signed op read ((is_empty_iff c.credentials.api_key).1 a)
          ((is_empty_iff c.credentials.secret_key).1 b) ((is_empty_iff (signature op)).1 d)
        ∙ ap (λ q'. q' ∷ []) (sym same),
  )

  -- A request of a call: its method, its endpoint and its parameters, with a signature of these.
  abbrev pub IsRequestOf : Operation → HttpRequest → Type 0
  IsRequestOf op = IsRequest hmac c.credentials.secret_key (parameters_of c now op) (
      request_with c.host c.port c.credentials.api_key (method_of op) (endpoint_of op)
        (parameters_of c now op))

  built_from :
      (op : Operation) (p : Parameter) (ps : List Parameter) (q : HttpRequest)
      → payload hmac c now (query_of c op) ≡ query_text (p ∷ ps)
      → ((signature op ≢ []) × (q ≡ signed_request op))
        ↔ IsRequest hmac c.credentials.secret_key
            (p ∷ ps)
            (request_with c.host c.port c.credentials.api_key
              (method_of op)
              (endpoint_of op)
              (p ∷ ps))
            q
  built_from op p ps q same =
      let text = payload hmac c now (query_of c op) in
      let with_signature =
        request_with c.host c.port c.credentials.api_key (method_of op) (endpoint_of op) (p ∷ ps) in
      signed_iff hmac c.credentials.secret_key text p ps same
        (λ s. http_request hmac c now (method_of op) (endpoint_of op) text s) with_signature q
        (λ s.
          ap (λ t. record (with_signature s) { target = t })
            (signed_target hmac c.credentials.secret_key text p ps same (endpoint_of op) s))

  built_iff :
      (op : Operation) (q : HttpRequest)
      → ((signature op ≢ []) × (q ≡ signed_request op)) ↔ IsRequestOf op q
  built_iff (sends r id) q =
      built_from (sends r id) (symbol_parameter c.symbol)
        (order_details r r.order_type id (times hmac c now)) q
        (payload-parameters hmac c now (sends r id))
  built_iff (cancels id) q =
      built_from (cancels id) (symbol_parameter c.symbol)
        ((codes "orderId", format_unsigned id) ∷ times hmac c now) q
        (payload-parameters hmac c now (cancels id))
  built_iff asks_balances q =
      built_from asks_balances (codes "recvWindow", format_unsigned c.recv_window)
        ((codes "timestamp", format_unsigned now) ∷ []) q
        (payload-parameters hmac c now asks_balances)

  -- What a call sends, but for its own guards.
  abbrev pub Sends : Operation → HttpRequest → Type 0
  Sends op q = (c.credentials.api_key ≢ []) × (c.credentials.secret_key ≢ []) × IsRequestOf op q

  asked-Sends :
      {A : Type 0} (op : Operation) (read : ApiResponse → Reply A) (q : HttpRequest)
      → (submitted (deliver hmac c now read (asked op) ∷ []) ≡ q ∷ []) ↔ Sends op q
  asked-Sends op read q =
      let (there, back) = asked_iff op read q in
      let (described, built) = built_iff op q in
      (
        λ e. let ((key, secret, signed), same) = there e in (key, secret, described (signed, same)),
        λ (key, secret, d). let (signed, same) = built d in back ((key, secret, signed), same),
      )

  -- A guard before the request.
  guarded_iff :
      {A : Type 0} {P : Type 0} (refused : Bool) (r : Reply A) (a : Action A) (Q : Type 0)
      (q : HttpRequest)
      → ((refused ≡ false) ↔ P)
      → ((submitted (a ∷ []) ≡ q ∷ []) ↔ Q)
      → (submitted ((if refused then reply r else a) ∷ []) ≡ q ∷ []) ↔ (P × Q)
  guarded_iff true r a Q q p e = (λ h. absurd (cc), λ (h, k). absurd (cc (p.1 h)))
  guarded_iff false r a Q q p e = (λ h. (p.0 refl, e.0 h), λ (h, k). e.1 k)

  -- A call sends a request exactly where its parameters are allowed, both keys are there and the
  -- digest of its query under the secret can be had and is not empty; allowed is for an order a positive id and quantity,
  -- a positive price if it is a limit order, and a symbol, and for a cancellation a non-zero id. It is then
  -- one request, to the client's host and port and the call's endpoint, with the call's method, the key as its only
  -- header and no body; its query carries the call's own parameters (an order's as in its description, a
  -- cancellation's symbol and id, none for the balances), then the window and the time, and last the digest of
  -- all that stands before it in hexadecimal.
  pub requests_signed :
      (op : Operation) (q : HttpRequest) → (requests op ≡ q ∷ []) ↔ (IsAllowed c op × Sends op q)
  unfolding requests
  requests_signed (sends r id) q =
      let refused = is_refused-is_invalid hmac c now r id r.side r.order_type refl refl in
      let allowed = is_invalid-IsAcceptable r id in
      let inner =
        guarded_iff (is_empty c.symbol) _ _ _ q (is_empty_iff c.symbol)
          (asked-Sends (sends r id) (on_order_response J id) q) in
      let (there, back) =
        guarded_iff (is_refused hmac c now r id) _ _ _ q
          (λ e. allowed.0 (sym refused ∙ e), λ v. refused ∙ allowed.1 v) inner in
      (λ e. let (v, (t, x)) = there e in ((v, t), x), λ ((v, t), x). back (v, (t, x)))
  requests_signed (cancels id) q =
      guarded_iff (id == 0) _ _ _ q (nonzero_iff id)
        (asked-Sends (cancels id) (on_cancel_response J) q)
  requests_signed asks_balances q =
      let (there, back) = asked-Sends asks_balances (on_balances_response J) q in
      (λ e. (tt, there e), λ (v, x). back x)
