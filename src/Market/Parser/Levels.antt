-- ===== src/Market/Parser/Levels.antt =====
-- The levels of an order book, against the array that they are read from.
use exchange_connectivity.Base.{
  ◌≡◌, refl, ap, ◌∙◌, List, [], ◌∷◌, Option, some, none, ok, >>=-eq-ok, or_fail, subst,
  ok-injective,
}
use exchange_connectivity.Base.Int.{ℤ}
use exchange_connectivity.Base.Text.{Bytes}
use exchange_connectivity.Decimal.{parse_decimal}
use exchange_connectivity.Decimal.Sound.{Denotes, parse_decimal_sound}
use exchange_connectivity.Json.{Json}
use exchange_connectivity.Market.{BookLevel}
use exchange_connectivity.Market.Parser.{
  decimal_value, parse_string, level_of, parse_book_level, parse_each, parse_levels,
}

pub or_fail-eq-ok {ℓ} :
    {A E : Type ℓ} (o : Option A) (e : E) {a : A} → or_fail o e ≡ ok a → o ≡ some a
or_fail-eq-ok none e h = cc
or_fail-eq-ok (some b) e h = cc

module _ (J : Json) where
  open J use {Value, as_string, as_array}

  -- The value is a string that denotes the number exactly.
  pub record IsDecimal (x : Value) (v : ℤ) : Type 0 where
    pub text : Bytes
    pub is_string : as_string x ≡ some text
    pub denotes : Denotes text v

  -- The value is an array of two decimal strings at least, the price and the quantity of the level.
  pub record IsLevel (x : Value) (l : BookLevel) : Type 0 where
    pub price_value : Value
    pub quantity_value : Value
    pub rest : List Value
    pub elements : as_array x ≡ some (price_value ∷ quantity_value ∷ rest)
    pub price_denotes : IsDecimal price_value l.price
    pub quantity_denotes : IsDecimal quantity_value l.quantity

  -- One level for each element, in order.
  abbrev pub AreLevels : List Value → List BookLevel → Type 0
  AreLevels [] [] = Unit
  AreLevels [] (l ∷ ls) = ⊥
  AreLevels (x ∷ xs) [] = ⊥
  AreLevels (x ∷ xs) (l ∷ ls) = IsLevel x l × AreLevels xs ls

  pub record IsBook (x : Value) (ls : List BookLevel) : Type 0 where
    pub elements : List Value
    pub is_array : as_array x ≡ some elements
    pub levels : AreLevels elements ls

  pub decimal_value-IsDecimal :
      (x : Value) (v w : ℤ) → v ≡ w → decimal_value J x ≡ ok v → IsDecimal x w
  unfolding decimal_value parse_string
  decimal_value-IsDecimal x v w same e =
      let (t, read, parsed) = >>=-eq-ok (parse_string J x) parse_decimal e in
      record {
        text = t;
        is_string = or_fail-eq-ok (as_string x) _ read;
        denotes = parse_decimal_sound t w (parsed ∙ ap ok same);
      }

  level_of_sound :
      (x : Value) (a : Option (List Value)) (l : BookLevel)
      → as_array x ≡ a
      → level_of J a ≡ ok l
      → IsLevel x l
  unfolding level_of
  level_of_sound x none l h e = cc
  level_of_sound x (some []) l h e = cc
  level_of_sound x (some (p ∷ [])) l h e = cc
  level_of_sound x (some (p ∷ q ∷ rest)) l h e =
      let (price, e1, f) = >>=-eq-ok (decimal_value J p) _ e in
      let (quantity, e2, done) = >>=-eq-ok (decimal_value J q) _ f in
      record {
        price_value = p;
        quantity_value = q;
        rest = rest;
        elements = h;
        price_denotes =
            decimal_value-IsDecimal p price l.price
              (ap (λ (m : BookLevel). m.price) (ok-injective done)) e1;
        quantity_denotes =
            decimal_value-IsDecimal q quantity l.quantity
              (ap (λ (m : BookLevel). m.quantity) (ok-injective done)) e2;
      }

  book_level_sound : (x : Value) (l : BookLevel) → parse_book_level J x ≡ ok l → IsLevel x l
  unfolding parse_book_level
  book_level_sound x l e = level_of_sound x (as_array x) l refl e

  parse_each_sound :
      (xs : List Value) (ls : List BookLevel) → parse_each J xs ≡ ok ls → AreLevels xs ls
  unfolding parse_each
  parse_each_sound [] [] e = tt
  parse_each_sound [] (l ∷ ls) e = cc
  parse_each_sound (x ∷ xs) ls e =
      let (l, first, e1) = >>=-eq-ok (parse_book_level J x) _ e in
      let (rest, others, done) = >>=-eq-ok (parse_each J xs) _ e1 in
      subst (AreLevels (x ∷ xs)) (ok-injective done)
        (book_level_sound x l first, parse_each_sound xs rest others)

  -- The book that is read has one level for each element of the array, in its order, and each price
  -- and quantity is exactly the number that its text denotes.
  pub parse_levels_sound :
      (x : Value) (ls : List BookLevel) → parse_levels J x ≡ ok ls → IsBook x ls
  unfolding parse_levels
  parse_levels_sound x ls e =
      let (xs, read, parsed) = >>=-eq-ok (or_fail (as_array x) _) (parse_each J) e in
      record {
        elements = xs;
        is_array = or_fail-eq-ok (as_array x) _ read;
        levels = parse_each_sound xs ls parsed;
      }
