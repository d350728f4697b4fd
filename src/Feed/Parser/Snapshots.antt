-- ===== src/Feed/Parser/Snapshots.antt =====
-- The levels of a snapshot: what `parseDepthSnapshot` keeps of those that the message lists.
use exchange_connectivity.Base.{
  ◌≡◌, refl, sym, subst, List, [], ◌∷◌, ◌++◌, ok, >>=-eq-ok, ok-injective, append_assoc, append-nil,
}
use exchange_connectivity.Base.Int.{ℤ}
use exchange_connectivity.Base.Text.{Bytes, codes}
use exchange_connectivity.Json.{Json}
use exchange_connectivity.Feed.{PriceLevel, DepthSnapshot}
use exchange_connectivity.Feed.Book.{
  emplace, quantity_at, IsAscending, emplace-IsAscending, quantity_at-end,
}
use exchange_connectivity.Feed.Parser.{
  parse_document, uint64_field, array_field, price_level, emplace_back_levels, emplace_levels,
  parse_depth_snapshot,
}

-- A book holds what was listed: in the order of the prices, and at every price the first quantity listed for it.
pub record Holds (book listed : List PriceLevel) : Type 0 where
  pub ascending : IsAscending book
  pub quantities : (price : ℤ) → quantity_at price book ≡ quantity_at price listed

emplace-Holds :
    (book listed : List PriceLevel) (level : PriceLevel)
    → Holds book listed
    → Holds (emplace level.price level.quantity book) (listed ++ level ∷ [])
emplace-Holds book listed level h = record {
  ascending = emplace-IsAscending level.price level.quantity book h.ascending;
  quantities = λ price. quantity_at-end price level book listed h.ascending (h.quantities price);
}

module _ (J : Json) where
  open J use {Value}

  emplace_levels-Holds :
      (values : List Value) (book listed result : List PriceLevel)
      → Holds book listed
      → emplace_levels J book values ≡ ok result
      → (levels : List PriceLevel) × (emplace_back_levels J values ≡ ok levels)
        × Holds result (listed ++ levels)
  unfolding emplace_levels emplace_back_levels
  emplace_levels-Holds [] book listed result h e =
      let same : book ≡ result = cc in
      (
        [],
        refl,
        subst (λ levels. Holds result levels) (sym (append-nil listed))
            (subst (λ b. Holds b listed) same h),
      )
  emplace_levels-Holds (v ∷ values) book listed result h e =
      let (level, read, later) =
        >>=-eq-ok (price_level J v)
          (λ level. emplace_levels J (emplace level.price level.quantity book) values) e in
      let (levels, listed_later, holds) =
        emplace_levels-Holds values (emplace level.price level.quantity book) (listed ++ level ∷ [])
          result (emplace-Holds book listed level h) later in
      (
        level ∷ levels,
        rw (read, listed_later) refl,
        subst (λ all. Holds result all) (append_assoc listed (level ∷ []) levels) holds,
      )

  empty-Holds : Holds [] []
  empty-Holds = record { ascending = tt; quantities = λ price. refl }

  -- The levels of an array of the message, in the book that was made of them.
  pub KeptFrom : List Value → List PriceLevel → Type 0
  KeptFrom values book =
      (levels : List PriceLevel) × (emplace_back_levels J values ≡ ok levels) × Holds book levels

  -- Where a snapshot is read from a message, each of its two books is made of the levels that the message lists
  -- on that side: its prices ascend, so that none stands twice, and the quantity at a price is the first that the
  -- message lists for it; a price that is not listed has none.
  pub parse_depth_snapshot-holds :
      (message : Bytes) (snapshot : DepthSnapshot)
      → parse_depth_snapshot J message ≡ ok snapshot
      → (document : Value) × (bids asks : List Value) × (parse_document J message ≡ ok document)
        × (array_field J document (codes "bids") ≡ ok bids)
        × (array_field J document (codes "asks") ≡ ok asks)
        × KeptFrom bids snapshot.bids
        × KeptFrom asks snapshot.asks
  unfolding parse_depth_snapshot KeptFrom
  parse_depth_snapshot-holds message snapshot e =
      let (document, parsed, e1) = >>=-eq-ok (parse_document J message) _ e in
      let (last, found, e2) = >>=-eq-ok (uint64_field J document (codes "lastUpdateId")) _ e1 in
      let (bid_values, bids_found, e3) = >>=-eq-ok (array_field J document (codes "bids")) _ e2 in
      let (bids, bids_read, e4) = >>=-eq-ok (emplace_levels J [] bid_values) _ e3 in
      let (ask_values, asks_found, e5) = >>=-eq-ok (array_field J document (codes "asks")) _ e4 in
      let (asks, asks_read, e6) = >>=-eq-ok (emplace_levels J [] ask_values) _ e5 in
      let same = ok-injective e6 in
      (
        document,
        bid_values,
        ask_values,
        parsed,
        bids_found,
        asks_found,
        subst (λ (s : DepthSnapshot). KeptFrom bid_values s.bids) same
            (emplace_levels-Holds bid_values [] [] bids empty-Holds bids_read),
        subst (λ (s : DepthSnapshot). KeptFrom ask_values s.asks) same
            (emplace_levels-Holds ask_values [] [] asks empty-Holds asks_read),
      )
