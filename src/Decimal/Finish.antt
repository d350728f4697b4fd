-- ===== src/Decimal/Finish.antt =====
-- What `parse_decimal` makes of the variables that the loop leaves.
use exchange_connectivity.Base.{
  ℕ, zero, suc, ◌+◌, ◌*◌, ◌/◌, ◌≤◌, ◌<◌, ◌≡◌, Bool, true, false, ◌||◌, ◌&&◌, not, arith, ok, refl,
}
use exchange_connectivity.Base.Int.{ℤ, pos}
use exchange_connectivity.Decimal.{decimal_scale, max_value, limit, Progress, negate, finish}
use exchange_connectivity.Decimal.Literal.{minus_ℕ}
use exchange_connectivity.Decimal.Scan.{largest_whole}

negate-minus : (n : ℕ) → n ≤ max_value + 1 → negate n ≡ minus_ℕ n
unfolding negate
negate-minus zero h = refl
negate-minus (suc n) h = ground arith

abbrev pub with_sign : Bool → ℕ → ℤ
with_sign true n = minus_ℕ n
with_sign false n = pos n

abbrev pub total : Progress → ℕ
total p = p.integer_part * decimal_scale + p.fractional_part * (decimal_scale / p.fractional_scale)

-- The digits that a number must have.
abbrev pub HasSeen : Progress → Type 0
HasSeen p =
    ((p.has_integer_digit || p.has_fractional_digit) ≡ true)
    × ((p.fractional_part_started && not p.has_fractional_digit) ≡ false)

module _ (negative : Bool) (p : Progress)
    (small : p.fractional_part * (decimal_scale / p.fractional_scale) < decimal_scale) where
  pub finish_complete :
      HasSeen p → total p ≤ limit negative → finish negative p ≡ ok (with_sign negative (total p))
  unfolding finish
  finish_complete h fits = ground (arith, negate-minus (total p))

  pub finish_sound :
      (v : ℤ)
      → p.integer_part ≤ largest_whole
      → finish negative p ≡ ok v
      → HasSeen p × (total p ≤ limit negative) × (v ≡ with_sign negative (total p))
  unfolding finish
  finish_sound v whole e = ground (arith, negate-minus (total p))
