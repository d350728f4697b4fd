-- ===== src/Feed/Tests.antt =====
-- The parser of binance_data_parser at single inputs.
use exchange_connectivity.Base.{
  ℕ, ◌≡◌, ◌≢◌, refl, ap, arith, get_or, ◌^◌, List, [], ◌∷◌, some, none, ok, err, if◌then◌else◌,
  ◌==◌,
}
use exchange_connectivity.Base.Int.{pos, negsuc, neg_part}
use exchange_connectivity.Base.Text.{Bytes, codes}
use exchange_connectivity.Json.{Json}
use exchange_connectivity.Market.Parser.Tests.{document}
use exchange_connectivity.Decimal.{parse_decimal, max_value}
use exchange_connectivity.Feed.{overflow, DepthSnapshot}
use exchange_connectivity.Feed.Decimal.{parse_feed_decimal}
use exchange_connectivity.Feed.Decimal.Agreement.{parse_feed_decimal_agrees}
use exchange_connectivity.Feed.Parser.{parse_document, array_field, parse_depth_snapshot}
use exchange_connectivity.Feed.Parser.Snapshots.{KeptFrom, parse_depth_snapshot-holds}

sign_unread : parse_feed_decimal (codes "+1") ≡ ok (negsuc 4_899_999_999)
unfolding parse_feed_decimal
sign_unread = refl

smallest_overflows : parse_feed_decimal (codes "-92233720368.54775808") ≡ err overflow
unfolding parse_feed_decimal
smallest_overflows = refl

abbrev text : Bytes
text = codes "-12.5"

text-NoPlus : (t : Bytes) → text ≢ b'+' ∷ t
text-NoPlus t e = let first : ◌≡◌ {A = ℕ} 45 43 = ap (λ (s : Bytes). get_or s 0 0) e in omega arith

text-parsed : parse_decimal text ≡ ok (negsuc 1_249_999_999)
unfolding parse_decimal
text-parsed = refl

text-above_smallest : negsuc 1_249_999_999 ≢ negsuc max_value
text-above_smallest e = let part : ◌≡◌ {A = ℕ} 1_250_000_000 (2 ^ 63) = ap neg_part e in omega arith

parse_feed_decimal_agrees_example : parse_feed_decimal text ≡ ok (negsuc 1_249_999_999)
parse_feed_decimal_agrees_example =
    parse_feed_decimal_agrees text (negsuc 1_249_999_999) text-NoPlus text-above_smallest
      text-parsed

-- The document of the other parser's tests, with numbers that are unsigned.
abbrev depth : Json
depth = record document { as_uint64 = λ n. if n == 1 then some 7 else none }

abbrev snapshot : DepthSnapshot
snapshot = record {
  last_update_id = 7;
  bids = record { price = pos 150_000_000; quantity = pos 150_000_000 } ∷ [];
  asks = record { price = pos 150_000_000; quantity = pos 150_000_000 } ∷ [];
}

snapshot-parsed : parse_depth_snapshot depth (codes "{}") ≡ ok snapshot
unfolding parse_depth_snapshot
snapshot-parsed = refl

parse_depth_snapshot-holds_example :
    (value : Json.Value depth) × (bids asks : List (Json.Value depth)) × (parse_document depth
        (codes "{}")
      ≡ ok value)
    × (array_field depth value (codes "bids") ≡ ok bids)
    × (array_field depth value (codes "asks") ≡ ok asks)
    × KeptFrom depth bids snapshot.bids
    × KeptFrom depth asks snapshot.asks
parse_depth_snapshot-holds_example =
    parse_depth_snapshot-holds depth (codes "{}") snapshot snapshot-parsed
