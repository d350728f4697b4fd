-- ===== src/Spot/Replies.antt =====
-- What the exchange's answers become.
use exchange_connectivity.Base.{
  ℕ, ◌≤◌, ◌<◌, ◌≡◌, ◌≢◌, ◌↔◌, refl, sym, ap, subst, ◌∙◌, true, List, [], ◌∷◌, Option, none, some,
  Fallible, ok, err, >>=-eq-ok, ok-injective, or_fail, arith,
}
use exchange_connectivity.Base.Text.{Bytes, codes}
use exchange_connectivity.Json.{Json}
use exchange_connectivity.Rest.{HttpResponse}
use exchange_connectivity.Orders.{to_order_status}
use exchange_connectivity.Spot.{
  OrderCancellation, AssetBalance, json_string, json_uint64, at_member, open_response,
  order_and_status, parse_cancel_response, parse_balance, parse_balances, parse_balances_response,
}

or_fail-some : {E A : Type 0} (o : Option A) (e : E) (a : A) → or_fail o e ≡ ok a → o ≡ some a
or_fail-some none e a h = absurd (cc)
or_fail-some (some b) e a h = ap some (ok-injective h)

module _ (J : Json) where
  open J use {Value, parse, is_object, member, as_array}

  -- The body is an object, and the status a success.
  abbrev pub Opens : HttpResponse → Value → Type 0
  Opens response json =
      (parse response.body ≡ ok json)
      × (is_object json ≡ true)
      × ((200 ≤ response.status) × (response.status < 300))

  opened :
      (a b : Bytes) (response : HttpResponse) (json : Value) (d : Fallible Bytes Value)
      → parse response.body ≡ d
      → open_response J a b response ≡ ok json
      → Opens response json
  unfolding open_response
  opened a b response json (err text) p e = absurd (cc (rw (p, open_response) at e))
  opened a b response json (ok v) p e =
      let read = rw (p, open_response) at e in
      let same : v ≡ json = ground arith in
      (p ∙ ap ok same, rw (← same) (ground arith), ground arith)

  opens :
      (a b : Bytes) (response : HttpResponse) (json : Value)
      → Opens response json
      → open_response J a b response ≡ ok json
  unfolding open_response
  opens a b response json (p, o, s) = rw (p, open_response) (ground arith)

  -- The members of an order that was answered for.
  abbrev pub Names : Value → ℕ → Bytes → Type 0
  Names json order_id status =
      (json_uint64 J json (codes "orderId") ≡ some order_id)
      × (order_id ≢ 0)
      × (json_string J json (codes "status") ≡ some status)

  named :
      (text : Bytes) (json : Value) (order_id : ℕ) (status : Bytes)
      → order_and_status J text json ≡ ok (order_id, status)
      → Names json order_id status
  unfolding order_and_status
  named text json order_id status e =
      let (n, found, rest) = >>=-eq-ok (or_fail (json_uint64 J json (codes "orderId")) _) _ e in
      let (s, written, last) = >>=-eq-ok (or_fail (json_string J json (codes "status")) _) _ rest in
      let same : (n ≡ order_id) × (n ≢ 0) × (s ≡ status) = ground arith in
      (
        or_fail-some _ _ n found ∙ ap some same.0,
        rw (← same.0) same.1,
        or_fail-some _ _ s written ∙ ap some same.2,
      )

  names :
      (text : Bytes) (json : Value) (order_id : ℕ) (status : Bytes)
      → Names json order_id status
      → order_and_status J text json ≡ ok (order_id, status)
  unfolding order_and_status
  names text json order_id status (found, nonzero, written) =
      rw (found, written, order_and_status) (ground arith)

  -- A cancellation that the exchange has carried out.
  pub record IsCancelled (response : HttpResponse) (result : OrderCancellation) : Type 0 where
    pub json : Value
    pub status_text : Bytes
    pub success : Opens response json
    pub members : Names json result.exchange_order_id status_text
    pub status_read : result.status ≡ to_order_status status_text

  cancelled :
      (response : HttpResponse) (result : OrderCancellation)
      → parse_cancel_response J response ≡ ok result
      → IsCancelled response result
  unfolding parse_cancel_response
  cancelled response result e =
      let (json, success, rest) = >>=-eq-ok (open_response J _ _ response) _ e in
      let (pair, members, last) = >>=-eq-ok (order_and_status J _ json) _ rest in
      let same = ok-injective last in
      record {
        json = json;
        status_text = pair.1;
        success = opened _ _ response json (parse response.body) refl success;
        members =
            subst (λ r. Names json r.exchange_order_id pair.1) same
              (named _ json pair.0 pair.1 members);
        status_read = sym (ap (λ r. r.status) same);
      }

  cancels :
      (response : HttpResponse) (result : OrderCancellation)
      → IsCancelled response result
      → parse_cancel_response J response ≡ ok result
  unfolding parse_cancel_response
  cancels response result v =
      rw
        (opens (codes "Invalid Binance cancel response") (codes "Binance rejected cancellation")
          response v.json v.success)
        (rw
          (names (codes "Binance cancel response does not contain orderId or status") v.json
            result.exchange_order_id v.status_text v.members)
          (ap
            (λ status.
              ok (record { exchange_order_id = result.exchange_order_id; status = status }))
            (sym v.status_read)))

  -- The answer to a cancellation counts as one exactly where its body is a JSON object, its status is
  -- from 200 to 299, and it has a non-zero orderId and a status text; it then carries that id and the
  -- order status of that text, whatever the text says.
  pub parse_cancel_response_accepts :
      (response : HttpResponse) (result : OrderCancellation)
      → (parse_cancel_response J response ≡ ok result) ↔ IsCancelled response result
  parse_cancel_response_accepts response result =
      (cancelled response result, cancels response result)

  -- A balance with its three texts.
  abbrev pub IsBalance : Value → AssetBalance → Type 0
  IsBalance v b =
      (json_string J v (codes "asset") ≡ some b.asset)
      × (json_string J v (codes "free") ≡ some b.free)
      × (json_string J v (codes "locked") ≡ some b.locked)

  -- One balance for each value, in order.
  abbrev pub Each : List Value → List AssetBalance → Type 0
  Each [] [] = Unit
  Each [] (b ∷ bs) = ⊥
  Each (v ∷ vs) [] = ⊥
  Each (v ∷ vs) (b ∷ bs) = IsBalance v b × Each vs bs

  parse_balance-IsBalance :
      (v : Value) (b : AssetBalance) → parse_balance J v ≡ ok b → IsBalance v b
  unfolding parse_balance
  parse_balance-IsBalance v b e =
      let (asset, e1, r1) = >>=-eq-ok (or_fail (json_string J v (codes "asset")) _) _ e in
      let (free, e2, r2) = >>=-eq-ok (or_fail (json_string J v (codes "free")) _) _ r1 in
      let (locked, e3, r3) = >>=-eq-ok (or_fail (json_string J v (codes "locked")) _) _ r2 in
      let same = ok-injective r3 in
      (
        or_fail-some _ _ asset e1 ∙ ap (λ r. some r.asset) same,
        or_fail-some _ _ free e2 ∙ ap (λ r. some r.free) same,
        or_fail-some _ _ locked e3 ∙ ap (λ r. some r.locked) same,
      )

  balance_given : (v : Value) (b : AssetBalance) → IsBalance v b → parse_balance J v ≡ ok b
  unfolding parse_balance
  balance_given v b (asset, free, locked) = rw (asset, free, locked, parse_balance)

  parse_balances-Each :
      (vs : List Value) (bs : List AssetBalance) → parse_balances J vs ≡ ok bs → Each vs bs
  unfolding parse_balances
  parse_balances-Each [] [] e = tt
  parse_balances-Each [] (b ∷ bs) e = cc
  parse_balances-Each (v ∷ vs) bs e =
      let (b, e1, r1) = >>=-eq-ok (parse_balance J v) _ e in
      let (rest, e2, r2) = >>=-eq-ok (parse_balances J vs) _ r1 in
      subst (Each (v ∷ vs)) (ok-injective r2)
        (parse_balance-IsBalance v b e1, parse_balances-Each vs rest e2)

  Each-parse_balances :
      (vs : List Value) (bs : List AssetBalance) → Each vs bs → parse_balances J vs ≡ ok bs
  unfolding parse_balances
  Each-parse_balances [] [] h = refl
  Each-parse_balances [] (b ∷ bs) h = absurd h
  Each-parse_balances (v ∷ vs) [] h = absurd h
  Each-parse_balances (v ∷ vs) (b ∷ bs) (one, others) =
      rw (balance_given v b one) (rw (Each-parse_balances vs bs others) refl)

  pub record AreBalances (response : HttpResponse) (balances : List AssetBalance) : Type 0 where
    pub json : Value
    pub values : List Value
    pub success : Opens response json
    pub listed : at_member J as_array (member json (codes "balances")) ≡ some values
    pub entries : Each values balances

  balanced :
      (response : HttpResponse) (bs : List AssetBalance)
      → parse_balances_response J response ≡ ok bs
      → AreBalances response bs
  unfolding parse_balances_response
  balanced response bs e =
      let (json, success, rest) = >>=-eq-ok (open_response J _ _ response) _ e in
      let (values, listed, last) =
        >>=-eq-ok (or_fail (at_member J as_array (member json (codes "balances"))) _) _ rest in
      record {
        json = json;
        values = values;
        success = opened _ _ response json (parse response.body) refl success;
        listed = or_fail-some _ _ values listed;
        entries = parse_balances-Each values bs last;
      }

  balances :
      (response : HttpResponse) (bs : List AssetBalance)
      → AreBalances response bs
      → parse_balances_response J response ≡ ok bs
  unfolding parse_balances_response
  balances response bs v =
      rw
        (opens (codes "Invalid Binance account response") (codes "Binance rejected account request")
          response v.json v.success)
        (rw v.listed (Each-parse_balances v.values bs v.entries))

  -- The balances of an answer are accepted exactly where its body is a JSON object, its status is from
  -- 200 to 299, and it has an array of balances, each with an asset, a free and a locked text; the
  -- result has one balance for each, in order, with exactly those texts.
  pub parse_balances_response_accepts :
      (response : HttpResponse) (bs : List AssetBalance)
      → (parse_balances_response J response ≡ ok bs) ↔ AreBalances response bs
  parse_balances_response_accepts response bs = (balanced response bs, balances response bs)
