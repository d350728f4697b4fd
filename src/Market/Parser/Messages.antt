-- ===== src/Market/Parser/Messages.antt =====
-- Whole messages: what an accepted depth update, trade or snapshot says of the document.
use exchange_connectivity.Base.{
  ℕ, ◌≡◌, refl, ap, ◌∙◌, ◌⊎◌, inl, inr, List, Option, some, none, ok, ◌>>=◌, >>=-eq-ok,
  ok-injective, guard-eq-ok, map_err-eq-ok, or_fail, map_err, subst, Bool, true, if◌then◌else◌,
  Fallible, Option-cases,
}
use exchange_connectivity.Base.Int.{ℤ, pos, negsuc}
use exchange_connectivity.Base.Text.{Bytes, codes}
use exchange_connectivity.Failure.{Exception, malformed_json, not_object, not_bool}
use exchange_connectivity.Json.{Json}
use exchange_connectivity.Market.{buy, sell, BookLevel, Snapshot, DepthUpdate, Trade}
use exchange_connectivity.Market.Parser.{
  get_required, unsigned_of, parse_unsigned, decimal_value, parse_levels, parse_json, parse_object,
  required_unsigned, required_levels, required_decimal, parse_depth_update, parse_trade,
  parse_snapshot,
}
use exchange_connectivity.Market.Parser.Levels.{
  IsDecimal, IsBook, or_fail-eq-ok, decimal_value-IsDecimal, parse_levels_sound,
}

module _ (J : Json) where
  open J use {Value, parse, is_object, member, as_uint64, as_int64, as_bool}

  -- The value is the number, as an unsigned integer or as a signed one that is not negative.
  abbrev pub IsUnsigned : Value → ℕ → Type 0
  IsUnsigned x n = (as_uint64 x ≡ some n) ⊎ ((as_uint64 x ≡ none) × (as_int64 x ≡ some (pos n)))

  -- The member of that name, with a property.
  pub record Has (object : Value) (key : Bytes) (P : Value → Type 0) : Type 0 where
    pub value : Value
    pub present : member object key ≡ some value
    pub holds : P value

  pub record IsObject (message : Bytes) (object : Value) : Type 0 where
    pub parsed : parse message ≡ ok object
    pub object_kind : is_object object ≡ true

  pub record IsDepthMessage (message : Bytes) (u : DepthUpdate) : Type 0 where
    pub object : Value
    pub document : IsObject message object
    pub first : Has object (codes "U") (λ x. IsUnsigned x u.first_update_id)
    pub last : Has object (codes "u") (λ x. IsUnsigned x u.last_update_id)
    pub time : Has object (codes "E") (λ x. IsUnsigned x u.exchange_timestamp)
    pub bids : Has object (codes "b") (λ x. IsBook J x u.bids)
    pub asks : Has object (codes "a") (λ x. IsBook J x u.asks)

  pub record IsSnapshotMessage (message : Bytes) (u : Snapshot) : Type 0 where
    pub object : Value
    pub document : IsObject message object
    pub last : Has object (codes "lastUpdateId") (λ x. IsUnsigned x u.last_update_id)
    pub bids : Has object (codes "bids") (λ x. IsBook J x u.bids)
    pub asks : Has object (codes "asks") (λ x. IsBook J x u.asks)

  -- The side of a trade is the taker's: a sale where the buyer was the maker.
  pub record IsTradeMessage (message : Bytes) (t : Trade) : Type 0 where
    pub object : Value
    pub buyer_is_maker : Bool
    pub document : IsObject message object
    pub maker : Has object (codes "m") (λ x. as_bool x ≡ some buyer_is_maker)
    pub sequence : Has object (codes "t") (λ x. IsUnsigned x t.sequence)
    pub time : Has object (codes "T") (λ x. IsUnsigned x t.exchange_timestamp)
    pub price : Has object (codes "p") (λ x. IsDecimal J x t.price)
    pub quantity : Has object (codes "q") (λ x. IsDecimal J x t.quantity)
    pub side : t.side ≡ (if buyer_is_maker then sell else buy)

  get_required_sound :
      (object x : Value) (key : Bytes)
      → get_required J object key ≡ ok x
      → member object key ≡ some x
  unfolding get_required
  get_required_sound object x key e = or_fail-eq-ok (member object key) _ e

  signed_sound : (o : Option ℤ) (n : ℕ) → unsigned_of J o ≡ ok n → o ≡ some (pos n)
  unfolding unsigned_of
  signed_sound none n e = cc
  signed_sound (some (pos m)) n e = cc
  signed_sound (some (negsuc m)) n e = cc

  parse_unsigned-IsUnsigned : (x : Value) (n : ℕ) → parse_unsigned J x ≡ ok n → IsUnsigned x n
  unfolding parse_unsigned
  parse_unsigned-IsUnsigned x n e = elim (Option-cases (as_uint64 x)) [
    | inl absent ↦ inr (absent, signed_sound (as_int64 x) n (rw (absent, parse_unsigned) at e))
    | inr (m, present) ↦ inl (present ∙ ap some (ok-injective (rw (present, parse_unsigned) at e)))
  ]

  object_sound :
      (message : Bytes) (object : Value)
      → parse_object J message ≡ ok object
      → IsObject message object
  unfolding parse_object parse_json
  object_sound message object e =
      let (x, found, checked) = >>=-eq-ok (map_err malformed_json (parse message)) _ e in
      let (kind, same) = guard-eq-ok (is_object x) not_object (ok x) checked in
      subst (IsObject message) (ok-injective same)
        (record { parsed = map_err-eq-ok malformed_json (parse message) found; object_kind = kind })

  required_sound :
      (object : Value) (key : Bytes) {A : Type 0} (f : Value → Fallible Exception A) (a : A)
      (P : Value → Type 0)
      → ((x : Value) → f x ≡ ok a → P x)
      → (get_required J object key >>= f) ≡ ok a
      → Has object key P
  required_sound object key f a P sound e =
      let (x, found, read) = >>=-eq-ok (get_required J object key) f e in
      record { value = x; present = get_required_sound object x key found; holds = sound x read }

  number_sound :
      (object : Value) (key : Bytes) (n : ℕ)
      → required_unsigned J object key ≡ ok n
      → Has object key (λ x. IsUnsigned x n)
  unfolding required_unsigned
  number_sound object key n =
      required_sound object key (parse_unsigned J) n _ (λ x. parse_unsigned-IsUnsigned x n)

  required_levels-IsBook :
      (object : Value) (key : Bytes) (ls : List BookLevel)
      → required_levels J object key ≡ ok ls
      → Has object key (λ x. IsBook J x ls)
  unfolding required_levels
  required_levels-IsBook object key ls =
      required_sound object key (parse_levels J) ls _ (λ x. parse_levels_sound J x ls)

  amount_sound :
      (object : Value) (key : Bytes) (v : ℤ)
      → required_decimal J object key ≡ ok v
      → Has object key (λ x. IsDecimal J x v)
  unfolding required_decimal
  amount_sound object key v =
      required_sound object key (decimal_value J) v _ (λ x. decimal_value-IsDecimal J x v v refl)

  -- A depth update that is accepted was a JSON object with the members U, u and E, unsigned numbers,
  -- and b and a, arrays of levels; the update holds those numbers, and one level for each element,
  -- in order, at exactly the price and quantity that the texts denote.
  pub parse_depth_update_sound :
      (message : Bytes) (u : DepthUpdate)
      → parse_depth_update J message ≡ ok u
      → IsDepthMessage message u
  unfolding parse_depth_update
  parse_depth_update_sound message u e =
      let (object, document, e0) = >>=-eq-ok (parse_object J message) _ e in
      let (first, first_read, e1) = >>=-eq-ok (required_unsigned J object (codes "U")) _ e0 in
      let (last, last_read, e2) = >>=-eq-ok (required_unsigned J object (codes "u")) _ e1 in
      let (time, time_read, e3) = >>=-eq-ok (required_unsigned J object (codes "E")) _ e2 in
      let (bids, bids_read, e4) = >>=-eq-ok (required_levels J object (codes "b")) _ e3 in
      let (asks, asks_read, e5) = >>=-eq-ok (required_levels J object (codes "a")) _ e4 in
      subst (IsDepthMessage message) (ok-injective e5) (record {
        object = object;
        document = object_sound message object document;
        first = number_sound object (codes "U") first first_read;
        last = number_sound object (codes "u") last last_read;
        time = number_sound object (codes "E") time time_read;
        bids = required_levels-IsBook object (codes "b") bids bids_read;
        asks = required_levels-IsBook object (codes "a") asks asks_read;
      })

  -- A snapshot that is accepted was a JSON object with the members lastUpdateId, bids and asks, and
  -- holds that number and exactly those levels.
  pub parse_snapshot_sound :
      (message : Bytes) (u : Snapshot)
      → parse_snapshot J message ≡ ok u
      → IsSnapshotMessage message u
  unfolding parse_snapshot
  parse_snapshot_sound message u e =
      let (object, document, e0) = >>=-eq-ok (parse_object J message) _ e in
      let (last, last_read, e1) =
        >>=-eq-ok (required_unsigned J object (codes "lastUpdateId")) _ e0 in
      let (bids, bids_read, e2) = >>=-eq-ok (required_levels J object (codes "bids")) _ e1 in
      let (asks, asks_read, e3) = >>=-eq-ok (required_levels J object (codes "asks")) _ e2 in
      subst (IsSnapshotMessage message) (ok-injective e3) (record {
        object = object;
        document = object_sound message object document;
        last = number_sound object (codes "lastUpdateId") last last_read;
        bids = required_levels-IsBook object (codes "bids") bids bids_read;
        asks = required_levels-IsBook object (codes "asks") asks asks_read;
      })

  -- A trade that is accepted was a JSON object with the members m, a truth value, t and T, unsigned
  -- numbers, and p and q, decimal texts; the trade holds exactly those, and its side is a sale where
  -- the buyer was the maker and a purchase otherwise.
  pub parse_trade_sound :
      (message : Bytes) (t : Trade) → parse_trade J message ≡ ok t → IsTradeMessage message t
  unfolding parse_trade
  parse_trade_sound message t e =
      let (object, document, e0) = >>=-eq-ok (parse_object J message) _ e in
      let (m, m_read, e1) = >>=-eq-ok (get_required J object (codes "m")) _ e0 in
      let (maker, maker_read, e2) = >>=-eq-ok (or_fail (as_bool m) not_bool) _ e1 in
      let (sequence, sequence_read, e3) = >>=-eq-ok (required_unsigned J object (codes "t")) _ e2 in
      let (time, time_read, e4) = >>=-eq-ok (required_unsigned J object (codes "T")) _ e3 in
      let (price, price_read, e5) = >>=-eq-ok (required_decimal J object (codes "p")) _ e4 in
      let (quantity, quantity_read, e6) = >>=-eq-ok (required_decimal J object (codes "q")) _ e5 in
      subst (IsTradeMessage message) (ok-injective e6) (record {
        object = object;
        buyer_is_maker = maker;
        document = object_sound message object document;
        maker = record {
          value = m;
          present = get_required_sound object m (codes "m") m_read;
          holds = or_fail-eq-ok (as_bool m) not_bool maker_read;
        };
        sequence = number_sound object (codes "t") sequence sequence_read;
        time = number_sound object (codes "T") time time_read;
        price = amount_sound object (codes "p") price price_read;
        quantity = amount_sound object (codes "q") quantity quantity_read;
        side = refl;
      })
