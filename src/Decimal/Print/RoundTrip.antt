-- ===== src/Decimal/Print/RoundTrip.antt =====
-- `parse_decimal` reads back what `to_decimal_string` prints.
use native.Mathlib.Nat.{zero-mul}
use exchange_connectivity.Base.{
  ℕ, suc, ◌+◌, ◌*◌, ◌/◌, ◌%◌, ◌^◌, ◌≤◌, ◌≡◌, ◌∙◌, ap, sym, [], ◌∷◌, ◌++◌, arith, length, All,
  All-append, ok, ◌==◌, if◌then◌else◌, some, none, ◌≢◌, inl, inr, append-nil, append_assoc,
  replicate, Bool-cases, length-append, length-replicate, ==_iff, subst,
}
use mathlib.Core.List.{append-ne-nil_of_right_ne-nil, cons-ne-nil}
use exchange_connectivity.Base.Int.{ℤ, pos, negsuc, Fits64, wrap64}
use exchange_connectivity.Base.Text.{Bytes}
use exchange_connectivity.Decimal.{decimal_scale, parse_decimal, limit}
use exchange_connectivity.Decimal.Digits.{IsDigit, value, value-append, value-zeros, pow-add}
use exchange_connectivity.Decimal.Literal.{
  Sign, unsigned, minus, Literal, signed, sign_text, is_minus,
}
use exchange_connectivity.Decimal.Complete.{parse_decimal_complete}
use exchange_connectivity.Decimal.Print.{pad, strip_zeros, format_unsigned, to_decimal_string}
use exchange_connectivity.Decimal.Print.Texts.{
  format_digits, value-format, format-ne-nil, length-format, value-pad, pad_digits, length-pad,
  EndsInZeros, last_digit, strip_zeros_lem,
}

All-split : (xs ys : Bytes) → All IsDigit (xs ++ ys) → All IsDigit xs × All IsDigit ys
All-split [] ys h = (tt, h)
All-split (x ∷ xs) ys h = let (a, b) = All-split xs ys h.1 in ((h.0, a), b)

exact_units :
    (n i v k q : ℕ)
    → n ≡ i * decimal_scale + v * k
    → q * k ≡ decimal_scale
    → n * q ≡ (i * q + v) * decimal_scale
exact_units n i v k q e w = omega (arith, ap (λ (t : ℕ). t * q) e, ap (λ (t : ℕ). v * t) w)

-- The text before the zeros are dropped, as the code builds it.
module _ (s : Sign) (n : ℕ) (fits : n ≤ limit (is_minus s)) where
  bounded : n ≤ 2 ^ 63
  bounded = ground arith

  abbrev head : Bytes
  head = sign_text s ++ format_unsigned (n / decimal_scale)

  whole_back : n % decimal_scale ≡ 0 → parse_decimal head ≡ ok (signed s n)
  whole_back z =
      let w = format_unsigned (n / decimal_scale) in
      let t : Literal = record { sign = s; whole = w; fraction = none } in
      ap (λ (r : Bytes). parse_decimal (sign_text s ++ r)) (sym (append-nil w))
      ∙ parse_decimal_complete t n
          (record {
            whole_digits = format_digits (n / decimal_scale);
            fraction_digits = tt;
            has_digits = format-ne-nil (n / decimal_scale);
          })
          (omega (arith, z, bounded, value-format (n / decimal_scale))) fits

  abbrev places_text : Bytes
  places_text = pad 8 (format_unsigned (n % decimal_scale))

  places_value : value 0 places_text ≡ n % decimal_scale
  places_value =
      value-pad 8 (format_unsigned (n % decimal_scale))
      ∙ value-format (n % decimal_scale) (omega arith)

  places_length : length places_text ≡ 8
  places_length = length-pad 8 _ (length-format 7 (n % decimal_scale) (omega arith))

  module _ (front : Bytes) (last k : ℕ)
      (split : places_text ≡ front ++ (last ∷ replicate k b'0')) where
    digits : All IsDigit (front ++ last ∷ []) × IsDigit last
    digits =
        let all = subst (All IsDigit) split (pad_digits 8 _ (format_digits (n % decimal_scale))) in
        let (start, rest) = All-split front (last ∷ replicate k b'0') all in
        (All-append IsDigit front (last ∷ []) start (rest.0, tt), rest.0)

    regroup : front ++ (last ∷ replicate k b'0') ≡ (front ++ last ∷ []) ++ replicate k b'0'
    regroup = sym (append_assoc front (last ∷ []) (replicate k b'0'))

    digits_value : n % decimal_scale ≡ value 0 (front ++ last ∷ []) * 10 ^ k
    digits_value =
        sym places_value
        ∙ (ap (λ (t : Bytes). value 0 t) (split ∙ regroup)
            ∙ (value-append (front ++ last ∷ []) (replicate k b'0') 0
                ∙ value-zeros k (value 0 (front ++ last ∷ []))))

    digits_length : length (front ++ last ∷ []) + k ≡ 8
    digits_length = omega (
      arith,
      places_length,
      ap (λ (t : Bytes). length t) (split ∙ regroup),
      length-append (front ++ last ∷ []) (replicate k b'0'),
      length-replicate {A = ℕ} k b'0',
    )

    stripped :
        last ≢ b'0'
        → strip_zeros (head ++ b'.' ∷ places_text)
          ≡ sign_text s ++ (format_unsigned (n / decimal_scale) ++ b'.' ∷ (front ++ last ∷ []))
    stripped nonzero =
        ap (λ (t : Bytes). strip_zeros (head ++ b'.' ∷ t)) split
        ∙ (ap strip_zeros (sym (append_assoc head (b'.' ∷ front) (last ∷ replicate k b'0')))
            ∙ (strip_zeros_lem (head ++ b'.' ∷ front) last k digits.1 nonzero ∙ simp append_assoc))

    fraction_back :
        last ≢ b'0' → parse_decimal (strip_zeros (head ++ b'.' ∷ places_text)) ≡ ok (signed s n)
    fraction_back nonzero =
        let w = format_unsigned (n / decimal_scale) in
        let t : Literal = record { sign = s; whole = w; fraction = some (front ++ last ∷ []) } in
        ap parse_decimal (stripped nonzero)
        ∙ parse_decimal_complete t n
            (record {
              whole_digits = format_digits (n / decimal_scale);
              fraction_digits = digits.0;
              has_digits = append-ne-nil_of_right_ne-nil front (cons-ne-nil last []);
            })
            (rw (value-format (n / decimal_scale) (omega (arith, bounded))) (
              exact_units n (n / decimal_scale) (value 0 (front ++ last ∷ [])) (10 ^ k)
                (10 ^ length (front ++ last ∷ [])) (omega (arith, digits_value))
                (sym (pow-add 10 (length (front ++ last ∷ [])) k)
                  ∙ ap (λ (j : ℕ). 10 ^ j) digits_length)))
            fits

  fraction_nonzero : n % decimal_scale ≢ 0 → EndsInZeros places_text
  fraction_nonzero h = elim (last_digit places_text) [
    | inl (k, e) ↦ absurd (
        h (
          sym places_value
          ∙ (ap (λ (t : Bytes). value 0 t) e ∙ (value-zeros k 0 ∙ zero-mul (10 ^ k)))))
    | inr r ↦ r
  ]

  either_back :
      parse_decimal
        (if n % decimal_scale == 0 then head else strip_zeros (head ++ b'.' ∷ places_text))
      ≡ ok (signed s n)
  either_back = elim (Bool-cases (n % decimal_scale == 0)) [
    | inl z ↦ rw z (whole_back ((==_iff _ 0).0 z))
    | inr z ↦
        let r = fraction_nonzero (ground arith) in
        rw z (fraction_back r.front r.last r.count r.split r.last_nonzero)
  ]

wrap_small : (n : ℕ) → suc n ≤ 2 ^ 63 → wrap64 (n + 1) ≡ suc n
wrap_small n h = omega arith

-- `parseDecimal` undoes `toDecimalString`: every `int64_t` number of units of 10 ^ -8 is read back
-- from its decimal text, the smallest one included.
pub parse_decimal-to_decimal_string :
    (v : ℤ) → Fits64 v → parse_decimal (to_decimal_string v 8) ≡ ok v
unfolding to_decimal_string
parse_decimal-to_decimal_string (pos n) fits = either_back unsigned n (omega arith)
parse_decimal-to_decimal_string (negsuc n) fits =
    rw (wrap_small n fits) (either_back minus (suc n) (omega arith))
