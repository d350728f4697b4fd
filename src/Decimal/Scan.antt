-- ===== src/Decimal/Scan.antt =====
-- The loop of `parse_decimal`, one phase at a time.
use exchange_connectivity.Base.{
  ℕ, ◌+◌, ◌-◌, ◌*◌, ◌/◌, ◌≤◌, ◌<◌, ◌≡◌, refl, ◌⊎◌, Bool, true, false, [], ◌∷◌, arith, ok,
}
use exchange_connectivity.Base.Text.{Bytes}
use exchange_connectivity.Decimal.{decimal_scale, Progress, scan_character}
use exchange_connectivity.Decimal.Digits.{IsDigit, value}

-- The largest integer part that `integerPart` may reach, for either sign.
abbrev pub largest_whole : ℕ
largest_whole = 92_233_720_368

abbrev pub seen : Bool → Bytes → Bool
seen h [] = h
seen h (c ∷ s) = seen true s

-- Before the point, and behind it.
abbrev pub in_whole : ℕ → Bool → Progress
in_whole n h = record {
  integer_part = n;
  fractional_part = 0;
  fractional_scale = 1;
  has_integer_digit = h;
  has_fractional_digit = false;
  fractional_part_started = false;
}

abbrev pub in_fraction : ℕ → Bool → ℕ → ℕ → Bool → Progress
in_fraction n h f scale k = record {
  integer_part = n;
  fractional_part = f;
  fractional_scale = scale;
  has_integer_digit = h;
  has_fractional_digit = k;
  fractional_part_started = true;
}

pub le-value : (start : ℕ) (digits : Bytes) → start ≤ value start digits
le-value start [] = omega arith
le-value start (d ∷ ds) = omega (arith, le-value (start * 10 + (d - b'0')) ds)

module _ (bound : ℕ) (large : bound / decimal_scale ≡ largest_whole) where
  pub whole_digit :
      (n c : ℕ) (h : Bool)
      → IsDigit c
      → n * 10 + (c - b'0') ≤ largest_whole
      → scan_character bound (in_whole n h) c ≡ ok (in_whole (n * 10 + (c - b'0')) true)
  unfolding scan_character
  whole_digit n c h d fits = ground arith

  -- What a character before the point may be.
  pub whole_cases :
      (n c : ℕ) (h : Bool) (q : Progress)
      → n ≤ largest_whole
      → scan_character bound (in_whole n h) c ≡ ok q
      → ((c ≡ b'.') × (q ≡ in_fraction n h 0 1 false))
        ⊎ (IsDigit c
            × (n * 10 + (c - b'0') ≤ largest_whole)
            × (q ≡ in_whole (n * 10 + (c - b'0')) true))
  unfolding scan_character
  whole_cases n c h q small e = ground arith

  pub point_step :
      (n : ℕ) (h : Bool) → scan_character bound (in_whole n h) b'.' ≡ ok (in_fraction n h 0 1 false)
  unfolding scan_character
  point_step n h = refl

  pub fraction_digit :
      (n f scale c : ℕ) (h k : Bool)
      → IsDigit c
      → f < scale
      → scale < decimal_scale
      → scan_character bound (in_fraction n h f scale k) c
        ≡ ok (in_fraction n h (f * 10 + (c - b'0')) (scale * 10) true)
  unfolding scan_character
  fraction_digit n f scale c h k d small room = ground arith

  pub spare_zero :
      (n f : ℕ) (h k : Bool)
      → scan_character bound (in_fraction n h f decimal_scale k) b'0'
        ≡ ok (in_fraction n h f decimal_scale true)
  unfolding scan_character
  spare_zero n f h k = refl

  pub fraction_cases :
      (n f scale c : ℕ) (h k : Bool) (q : Progress)
      → f < scale
      → scale ≤ decimal_scale
      → scan_character bound (in_fraction n h f scale k) c ≡ ok q
      → IsDigit c
        × (((scale < decimal_scale) × (q ≡ in_fraction n h (f * 10 + (c - b'0')) (scale * 10) true))
            ⊎ ((scale ≡ decimal_scale) × (c ≡ b'0') × (q ≡ in_fraction n h f scale true)))
  unfolding scan_character
  fraction_cases n f scale c h k q small room e = ground arith
