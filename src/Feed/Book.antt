-- ===== src/Feed/Book.antt =====
-- `OrderBookLevels` of binance_data_parser/MarketData.hpp, a `std::map` from prices to quantities: its entries
-- in the order of their prices, and what stands in it after the levels of a message were put in.
use exchange_connectivity.Base.{
  ◌≡◌, refl, sym, ap, ◌∙◌, true, false, Bool-cases, inl, inr, List, [], ◌∷◌, ◌++◌, Option, none,
  some, if◌then◌else◌, arith,
}
use exchange_connectivity.Base.Int.{ℤ, ltb_ℤ, eqb_ℤ}
use exchange_connectivity.Feed.{PriceLevel}

-- `std::map::emplace`: an entry of that price stays as it is.
unfoldable pub emplace : ℤ → ℤ → List PriceLevel → List PriceLevel
emplace price quantity [] = record { price = price; quantity = quantity } ∷ []
emplace price quantity (level ∷ levels) =
    let behind = emplace price quantity levels in
    if ltb_ℤ price level.price
    then record { price = price; quantity = quantity } ∷ level ∷ levels
    else if eqb_ℤ price level.price
    then level ∷ levels
    else level ∷ behind

-- The quantity at a price: that of the first level of this price.
pub quantity_at : ℤ → List PriceLevel → Option ℤ
quantity_at price [] = none
quantity_at price (level ∷ levels) =
    let behind = quantity_at price levels in
    if eqb_ℤ price level.price then some level.quantity else behind

abbrev pub Above : ℤ → List PriceLevel → Type 0
Above price [] = Unit
Above price (level ∷ levels) = (ltb_ℤ price level.price ≡ true) × Above price levels

-- Every price is below all that follow it, so no price stands twice.
abbrev pub IsAscending : List PriceLevel → Type 0
IsAscending [] = Unit
IsAscending (level ∷ levels) = Above level.price levels × IsAscending levels

ltb_ℤ-trans : (a b c : ℤ) → ltb_ℤ a b ≡ true → ltb_ℤ b c ≡ true → ltb_ℤ a c ≡ true
ltb_ℤ-trans a b c h k = ground (arith, h, k)

ltb_ℤ-other : (a b : ℤ) → ltb_ℤ a b ≡ false → eqb_ℤ a b ≡ false → ltb_ℤ b a ≡ true
ltb_ℤ-other a b h k = ground (arith, h, k)

Above-less :
    (a b : ℤ) (levels : List PriceLevel) → ltb_ℤ a b ≡ true → Above b levels → Above a levels
Above-less a b [] h above = tt
Above-less a b (level ∷ levels) h (first, above) =
    (ltb_ℤ-trans a b level.price h first, Above-less a b levels h above)

emplace-Above :
    (bound price quantity : ℤ) (levels : List PriceLevel)
    → ltb_ℤ bound price ≡ true
    → Above bound levels
    → Above bound (emplace price quantity levels)
unfolding emplace
emplace-Above bound price quantity [] h above = (h, tt)
emplace-Above bound price quantity (level ∷ levels) h (first, above) =
    let ih = emplace-Above bound price quantity levels h above in
    elim (Bool-cases (ltb_ℤ price level.price)) [
      | inl below ↦ rw below (h, (first, above))
      | inr not_below ↦ elim (Bool-cases (eqb_ℤ price level.price)) [
        | inl same ↦ rw (not_below, same) (first, above)
        | inr other ↦ rw (not_below, other) (first, ih)
      ]
    ]

pub emplace-IsAscending :
    (price quantity : ℤ) (levels : List PriceLevel)
    → IsAscending levels
    → IsAscending (emplace price quantity levels)
unfolding emplace
emplace-IsAscending price quantity [] h = (tt, tt)
emplace-IsAscending price quantity (level ∷ levels) (above, h) =
    let ih = emplace-IsAscending price quantity levels h in
    elim (Bool-cases (ltb_ℤ price level.price)) [
      | inl below ↦ rw below ((below, Above-less price level.price levels below above), (above, h))
      | inr not_below ↦ elim (Bool-cases (eqb_ℤ price level.price)) [
        | inl same ↦ rw (not_below, same) (above, h)
        | inr other ↦
            let greater = ltb_ℤ-other price level.price not_below other in
            rw (not_below, other)
              (emplace-Above level.price price quantity levels greater above, ih)
      ]
    ]

-- What a first search finds, or else a second one.
abbrev or_else : Option ℤ → Option ℤ → Option ℤ
or_else none other = other
or_else (some x) other = some x

pub quantity_at-append :
    (price : ℤ) (xs ys : List PriceLevel)
    → quantity_at price (xs ++ ys) ≡ or_else (quantity_at price xs) (quantity_at price ys)
unfolding quantity_at
quantity_at-append price [] ys = refl
quantity_at-append price (x ∷ xs) ys = ground (arith, quantity_at-append price xs ys)

eqb_ℤ-Above :
    (price bound : ℤ) (levels : List PriceLevel)
    → eqb_ℤ price bound ≡ true
    → Above bound levels
    → quantity_at price levels ≡ none
unfolding quantity_at
eqb_ℤ-Above price bound [] same above = refl
eqb_ℤ-Above price bound (level ∷ levels) same (first, above) =
    let apart : eqb_ℤ price level.price ≡ false = ground (arith, same, first) in
    rw (apart, eqb_ℤ-Above price bound levels same above)

or_else-none : (x : Option ℤ) → or_else x none ≡ x
or_else-none none = refl
or_else-none (some x) = refl

-- A level in front of those above it.
front_quantity_at :
    (q price quantity : ℤ) (levels : List PriceLevel)
    → Above price levels
    → (if eqb_ℤ q price then some quantity else quantity_at q levels)
      ≡ or_else (quantity_at q levels) (if eqb_ℤ q price then some quantity else none)
front_quantity_at q price quantity levels above = elim (Bool-cases (eqb_ℤ q price)) [
  | inl same ↦ rw (same, eqb_ℤ-Above q price levels same above) refl
  | inr other ↦ rw other (sym (or_else-none (quantity_at q levels)))
]

-- The level that is there already.
found_quantity_at :
    (q price quantity : ℤ) (level : PriceLevel) (levels : List PriceLevel)
    → eqb_ℤ price level.price ≡ true
    → quantity_at q (level ∷ levels)
      ≡ or_else (quantity_at q (level ∷ levels)) (if eqb_ℤ q price then some quantity else none)
unfolding quantity_at
found_quantity_at q price quantity level levels same = elim (Bool-cases (eqb_ℤ q level.price)) [
  | inl here ↦ rw here refl
  | inr elsewhere ↦
      let apart : eqb_ℤ q price ≡ false = ground (arith, same, elsewhere) in
      rw (elsewhere, apart) (sym (or_else-none (quantity_at q levels)))
]

behind_quantity_at :
    (q price quantity : ℤ) (level : PriceLevel) (levels : List PriceLevel)
    → quantity_at q (emplace price quantity levels)
      ≡ or_else (quantity_at q levels) (if eqb_ℤ q price then some quantity else none)
    → quantity_at q (level ∷ emplace price quantity levels)
      ≡ or_else (quantity_at q (level ∷ levels)) (if eqb_ℤ q price then some quantity else none)
unfolding quantity_at
behind_quantity_at q price quantity level levels ih = elim (Bool-cases (eqb_ℤ q level.price)) [
  | inl here ↦ rw here refl
  | inr elsewhere ↦ rw elsewhere ih
]

-- A level that is put in counts only where its price was not there before.
pub emplace-quantity_at :
    (q price quantity : ℤ) (levels : List PriceLevel)
    → IsAscending levels
    → quantity_at q (emplace price quantity levels)
      ≡ or_else (quantity_at q levels) (if eqb_ℤ q price then some quantity else none)
unfolding emplace quantity_at
emplace-quantity_at q price quantity [] h = refl
emplace-quantity_at q price quantity (level ∷ levels) (above, h) =
    let ih = emplace-quantity_at q price quantity levels h in
    elim (Bool-cases (ltb_ℤ price level.price)) [
      | inl below ↦ rw below (
          front_quantity_at q price quantity (level ∷ levels)
            (below, Above-less price level.price levels below above))
      | inr not_below ↦ elim (Bool-cases (eqb_ℤ price level.price)) [
        | inl same ↦ rw (not_below, same) (found_quantity_at q price quantity level levels same)
        | inr other ↦ rw (not_below, other) (behind_quantity_at q price quantity level levels ih)
      ]
    ]

-- A level that is put in, and one that is listed last.
pub quantity_at-end :
    (q : ℤ) (level : PriceLevel) (book listed : List PriceLevel)
    → IsAscending book
    → quantity_at q book ≡ quantity_at q listed
    → quantity_at q (emplace level.price level.quantity book) ≡ quantity_at q (listed ++ level ∷ [])
unfolding quantity_at
quantity_at-end q level book listed h same =
    emplace-quantity_at q level.price level.quantity book h
    ∙ (ap (λ found. or_else found (if eqb_ℤ q level.price then some level.quantity else none)) same
        ∙ sym (quantity_at-append q listed (level ∷ [])))
