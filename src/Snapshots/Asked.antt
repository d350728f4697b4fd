-- ===== src/Snapshots/Asked.antt =====
-- The snapshot that a connector asks for, from its method to the user's handler.
use exchange_connectivity.Base.{
  ℕ, ◌≤◌, ◌≡◌, refl, ap, subst, length, All, ◌∙◌, true, List, [], ◌∷◌, ◌++◌, append-nil, none, ok,
  ◌>>=◌, map_err, arith,
}
use exchange_connectivity.Base.Text.{Bytes, lower, to_lower}
use exchange_connectivity.Failure.{what}
use exchange_connectivity.Json.{Json}
use exchange_connectivity.Market.{Snapshot}
use exchange_connectivity.Market.Parser.{parse_snapshot}
use exchange_connectivity.Connector.{
  invalid_response, Response, SnapshotHandler, Effect, request_snapshot, call_snapshot, Connector,
  create, async_snapshot, on_snapshot_response,
}
use exchange_connectivity.Connector.Delivery.{on_snapshot_response_once}
use exchange_connectivity.Snapshots.{upper, to_upper, async_get_depth_snapshot, request_for}
use exchange_connectivity.Snapshots.Runs.{
  Event, Ends, events_of, answer, run, outcomes, request_answers,
}
use exchange_connectivity.Snapshots.Once.{requests, asked_once}

upper-lower : (c : ℕ) → upper (lower c) ≡ upper c
unfolding upper lower
upper-lower c = ground arith

-- A connector spells its symbol in small letters, and the request in capitals again: it asks for the symbol that
-- the connector was made with.
pub to_upper-to_lower : (s : Bytes) → to_upper (to_lower s) ≡ to_upper s
unfolding to_upper to_lower
to_upper-to_lower [] = refl
to_upper-to_lower (c ∷ s) = cc (upper-lower c, to_upper-to_lower s)

-- Over any ends of its operations, the request that a connector makes is written once at most, and it asks for a
-- thousand levels of the symbol, in capitals, that the connector was made with.
pub connector_asks :
    (symbol : Bytes) (es : List Event)
    → let effects = (run es (async_get_depth_snapshot (create symbol).symbol true).0).1 in
      (length (requests effects) ≤ 1)
      × All (λ r. r ≡ request_for (to_upper symbol)) (requests effects)
unfolding create
connector_asks symbol es =
    let (once, right) = asked_once (to_lower symbol) es in
    let effects = (run es (async_get_depth_snapshot (to_lower symbol) true).0).1 in
    (
      once,
      subst (λ name. All (λ r. r ≡ request_for name) (requests effects)) (to_upper-to_lower symbol)
          right,
    )

module _ (J : Json) where
  -- What a connector's snapshot handler does with each outcome of the request, in turn.
  abbrev pub reports : SnapshotHandler → List Response → List Effect
  reports h [] = []
  reports h (r ∷ rs) = on_snapshot_response J r h ++ reports h rs

  -- The effects of a connector, its request for a snapshot carried out by the client.
  abbrev pub served : Ends → List Effect → List Effect
  served w [] = []
  served w (request_snapshot symbol h ∷ es) =
      reports h (outcomes (run (events_of w) (async_get_depth_snapshot symbol true).0).1)
      ++ served w es
  served w (e ∷ es) = e ∷ served w es

  -- A snapshot that is asked for is answered: whatever way the operations of the request end, a user's handler that
  -- returns from every snapshot is called exactly once, with the first failure, with the snapshot that the body of
  -- a response of status 200 parses to, or with `InvalidResponse` and the parser's text.
  pub snapshot_answered :
      (c : Connector) (h : SnapshotHandler) (w : Ends)
      → ((s : Snapshot) → h (ok s) ≡ none)
      → served w (async_snapshot h c).1
        ≡ call_snapshot h (
            answer w >>= λ body.
            map_err
              (λ e. record { error = invalid_response; message = what e })
              (parse_snapshot J body))
          ∷ []
  unfolding async_snapshot
  snapshot_answered c h w returns =
      append-nil
        (reports h (outcomes (run (events_of w) (async_get_depth_snapshot c.symbol true).0).1))
      ∙ ap (reports h) (request_answers c.symbol w)
      ∙ append-nil (on_snapshot_response J (answer w) h)
      ∙ on_snapshot_response_once J (answer w) h returns
