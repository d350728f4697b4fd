-- ===== src/Market/Parser/Tests.antt =====
-- A small JSON library, and the parser's theorems at a message that it reads.
use exchange_connectivity.Base.{
  ℕ, ◌≡◌, refl, List, [], ◌∷◌, Option, some, none, ok, err, Bool, true, false, ◌||◌, Fallible,
  if◌then◌else◌, ◌==◌,
}
use exchange_connectivity.Base.Int.{pos}
use exchange_connectivity.Base.Text.{Bytes, codes, beq}
use exchange_connectivity.Json.{Json}
use exchange_connectivity.Market.{sell, BookLevel, DepthUpdate, Trade, Snapshot}
use exchange_connectivity.Market.Parser.{parse_depth_update, parse_trade, parse_snapshot}
use exchange_connectivity.Market.Parser.Messages.{
  IsDepthMessage, IsTradeMessage, parse_depth_update_sound, parse_trade_sound,
}
use exchange_connectivity.Decimal.{parse_decimal}

abbrev one_of : Bytes → List Bytes → Bool
one_of key [] = false
one_of key (k ∷ ks) = beq key k || one_of key ks

-- The document has five values: 0 the object, 1 a number, 2 a text, 3 a level, 4 a list of levels,
-- and 5 a truth value.
abbrev document_member : Bytes → Option ℕ
document_member key =
    if one_of key (codes "b" ∷ codes "a" ∷ codes "bids" ∷ codes "asks" ∷ [])
    then some 4
    else if one_of key
        (codes "U" ∷ codes "u" ∷ codes "E" ∷ codes "t" ∷ codes "T" ∷ codes "lastUpdateId" ∷ [])
    then some 1
    else if one_of key (codes "p" ∷ codes "q" ∷ [])
    then some 2
    else if beq key (codes "m")
    then some 5
    else none

abbrev document_parse : Bytes → Fallible Bytes ℕ
document_parse [] = err (codes "incomplete JSON")
document_parse (c ∷ s) = ok 0

abbrev document_array : ℕ → Option (List ℕ)
document_array n = if n == 3 then some (2 ∷ 2 ∷ []) else if n == 4 then some (3 ∷ []) else none

abbrev pub document : Json
document = record {
  Value = ℕ;
  parse = document_parse;
  is_object = λ n. n == 0;
  member = λ n key. if n == 0 then document_member key else none;
  as_uint64 = λ n. none;
  as_int64 = λ n. if n == 1 then some (pos 7) else none;
  as_string = λ n. if n == 2 then some (codes "1.5") else none;
  as_bool = λ n. if n == 5 then some true else none;
  as_array = document_array;
}

abbrev pub level : BookLevel
level = record { price = pos 150_000_000; quantity = pos 150_000_000 }

abbrev pub update : DepthUpdate
update = record {
  first_update_id = 7;
  last_update_id = 7;
  exchange_timestamp = 7;
  bids = level ∷ [];
  asks = level ∷ [];
}

abbrev pub trade : Trade
trade = record {
  sequence = 7;
  exchange_timestamp = 7;
  price = level.price;
  quantity = level.quantity;
  side = sell;
}

abbrev pub snapshot : Snapshot
snapshot = record { last_update_id = 7; bids = level ∷ []; asks = level ∷ [] }

pub update_parsed : parse_depth_update document (codes "{}") ≡ ok update
unfolding parse_depth_update parse_decimal
update_parsed = refl

pub trade_parsed : parse_trade document (codes "{}") ≡ ok trade
unfolding parse_trade parse_decimal
trade_parsed = refl

pub snapshot_parsed : parse_snapshot document (codes "{}") ≡ ok snapshot
unfolding parse_snapshot parse_decimal
snapshot_parsed = refl

parse_depth_update_sound_example : IsDepthMessage document (codes "{}") update
parse_depth_update_sound_example =
    parse_depth_update_sound document (codes "{}") update update_parsed

parse_trade_sound_example : IsTradeMessage document (codes "{}") trade
parse_trade_sound_example = parse_trade_sound document (codes "{}") trade trade_parsed
