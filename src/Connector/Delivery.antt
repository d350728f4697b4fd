-- ===== src/Connector/Delivery.antt =====
-- Which handlers a message or a response reaches.
use exchange_connectivity.Base.{
  ◌≡◌, refl, ◌↔◌, List, [], ◌∷◌, Option, none, some, Fallible, ok, err, ◌>>=◌, map_err, false,
  arith,
}
use exchange_connectivity.Base.Text.{Bytes}
use exchange_connectivity.Failure.{Exception, what}
use exchange_connectivity.Json.{Json}
use exchange_connectivity.Market.{Snapshot, DepthUpdate, Trade}
use exchange_connectivity.Market.Parser.{
  is_subscription_response, parse_depth_update, parse_trade, parse_snapshot,
}
use exchange_connectivity.Connector.{
  invalid_response, Response, DepthHandler, TradeHandler, SnapshotHandler, Effect, call_depth,
  call_trade, call_snapshot, Connector, caught, message_of, depth_effects, trade_effects,
  snapshot_effects, on_depth_message, on_trade_message, on_snapshot_response,
}

-- The calls of the users' handlers among the effects.
abbrev pub depth_calls : List Effect → List (DepthHandler × DepthUpdate)
depth_calls [] = []
depth_calls (call_depth h u ∷ es) = (h, u) ∷ depth_calls es
depth_calls (e ∷ es) = depth_calls es

abbrev pub trade_calls : List Effect → List (TradeHandler × Trade)
trade_calls [] = []
trade_calls (call_trade h u ∷ es) = (h, u) ∷ trade_calls es
trade_calls (e ∷ es) = trade_calls es

module _ (J : Json) where
  message_of-some :
      {A : Type 0} (parse : Bytes → Fallible Exception A) (m : Bytes) (a : A)
      → (message_of J parse m ≡ ok (some a))
        ↔ ((is_subscription_response J m ≡ ok false) × (parse m ≡ ok a))
  message_of-some parse m a = ground arith

  depth_effects-calls :
      (o : Option DepthHandler) (r : Fallible Exception (Option DepthUpdate)) (h : DepthHandler)
      (u : DepthUpdate)
      → (depth_calls (depth_effects J o r) ≡ (h, u) ∷ []) ↔ ((o ≡ some h) × (r ≡ ok (some u)))
  unfolding caught
  depth_effects-calls o r h u = ground arith

  -- A depth message reaches a handler, once, exactly where that is the handler in force, the message
  -- is no answer to a subscription, and it parses; the handler gets what was parsed.
  pub on_depth_message_calls :
      (c : Connector) (m : Bytes) (h : DepthHandler) (u : DepthUpdate)
      → (depth_calls (on_depth_message J c m) ≡ (h, u) ∷ []) ↔ (
          (c.depth_handler ≡ some h)
          × ((is_subscription_response J m ≡ ok false) × (parse_depth_update J m ≡ ok u)))
  unfolding on_depth_message
  on_depth_message_calls c m h u =
      let calls = depth_effects-calls c.depth_handler (message_of J (parse_depth_update J) m) h u in
      let parsed = message_of-some (parse_depth_update J) m u in
      (λ e. ((calls.0 e).0, parsed.0 (calls.0 e).1), λ (e, f). calls.1 (e, parsed.1 f))

  trade_effects-calls :
      (o : Option TradeHandler) (r : Fallible Exception (Option Trade)) (h : TradeHandler)
      (t : Trade)
      → (trade_calls (trade_effects J o r) ≡ (h, t) ∷ []) ↔ ((o ≡ some h) × (r ≡ ok (some t)))
  unfolding caught
  trade_effects-calls o r h t = ground arith

  -- A trade message reaches a handler, once, exactly where that is the handler in force, the message
  -- is no answer to a subscription, and it parses; the handler gets what was parsed.
  pub on_trade_message_calls :
      (c : Connector) (m : Bytes) (h : TradeHandler) (t : Trade)
      → (trade_calls (on_trade_message J c m) ≡ (h, t) ∷ []) ↔ (
          (c.trade_handler ≡ some h)
          × ((is_subscription_response J m ≡ ok false) × (parse_trade J m ≡ ok t)))
  unfolding on_trade_message
  on_trade_message_calls c m h t =
      let calls = trade_effects-calls c.trade_handler (message_of J (parse_trade J) m) h t in
      let parsed = message_of-some (parse_trade J) m t in
      (λ e. ((calls.0 e).0, parsed.0 (calls.0 e).1), λ (e, f). calls.1 (e, parsed.1 f))

  snapshot_once :
      (r : Fallible Exception Snapshot) (h : SnapshotHandler)
      → ((s : Snapshot) → h (ok s) ≡ none)
      → snapshot_effects J h r
        ≡ call_snapshot h (map_err (λ e. record { error = invalid_response; message = what e }) r)
          ∷ []
  snapshot_once (err e) h returns = refl
  snapshot_once (ok s) h returns = rw (returns s, snapshot_effects)

  -- A snapshot handler that returns from every snapshot is called exactly once, with the snapshot
  -- that the body parses to, with the failure of the request, or with `InvalidResponse` and the
  -- text of the parser's exception.
  pub on_snapshot_response_once :
      (response : Response) (h : SnapshotHandler)
      → ((s : Snapshot) → h (ok s) ≡ none)
      → on_snapshot_response J response h
        ≡ call_snapshot h (
            response >>= λ body.
            map_err
              (λ e. record { error = invalid_response; message = what e })
              (parse_snapshot J body))
          ∷ []
  unfolding on_snapshot_response
  on_snapshot_response_once (err failure) h returns = refl
  on_snapshot_response_once (ok body) h returns = snapshot_once (parse_snapshot J body) h returns

  -- A snapshot handler that throws on the snapshot that the body parses to is called a second time, with
  -- the text of its own exception as an `InvalidResponse`.
  pub on_snapshot_response_twice :
      (body thrown : Bytes) (s : Snapshot) (h : SnapshotHandler)
      → parse_snapshot J body ≡ ok s
      → h (ok s) ≡ some thrown
      → on_snapshot_response J (ok body) h
        ≡ call_snapshot h (ok s)
          ∷ call_snapshot h (err (record { error = invalid_response; message = thrown }))
          ∷ []
  unfolding on_snapshot_response
  on_snapshot_response_twice body thrown s h parsed throws = rw (parsed, snapshot_effects, throws)
