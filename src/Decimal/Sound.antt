-- ===== src/Decimal/Sound.antt =====
-- What `parse_decimal` accepts, and what it returns.
use mathlib.Core.List.{cons-ne-nil}
use native.Mathlib.Nat.{pow-suc, one-le-pow, div-eq_of_eq-mul_right}
use exchange_connectivity.Base.{
  ℕ, zero, suc, ◌+◌, ◌-◌, ◌*◌, ◌/◌, ◌^◌, ◌≤◌, ◌<◌, ◌≡◌, refl, ◌∙◌, ap, sym, ◌⊎◌, inl, inr, Bool,
  true, false, [], ◌∷◌, ◌++◌, arith, length, All, ok, Bool-cases, >>=-eq-ok, some, none, ◌≢◌, ◌==◌,
  Option, append-nil,
}
use exchange_connectivity.Base.Int.{ℤ}
use exchange_connectivity.Base.Text.{Bytes}
use exchange_connectivity.Decimal.{
  decimal_scale, Progress, scan_character, scan, limit, start, finish, parse_magnitude,
  parse_decimal,
}
use exchange_connectivity.Decimal.Digits.{IsDigit, value, value-pow, value-lt-pow, quotient_unique}
use exchange_connectivity.Decimal.Literal.{
  Sign, unsigned, plus, minus, Literal, IsLiteral, HasDigits, Units, spell, signed, sign_text,
  is_minus, places, point_text,
}
use exchange_connectivity.Decimal.Finish.{with_sign, total, finish_sound}
use exchange_connectivity.Decimal.Scan.{
  largest_whole, seen, in_whole, in_fraction, whole_cases, fraction_cases,
}

-- How the loop leaves its variables, having read the fractional digits `s` behind the fractional
-- part `f` with room for `j` more digits.
pub record Reads (s : Bytes) (j n f : ℕ) (h k : Bool) (q : Progress) : Type 0 where
  pub digits : All IsDigit s
  pub part : ℕ
  pub scale : ℕ
  pub room : ℕ
  pub shape : q ≡ in_fraction n h part scale (seen k s)
  pub small : part < scale
  pub weight : scale * 10 ^ room ≡ decimal_scale
  pub exact : value f s * 10 ^ j ≡ part * 10 ^ room * 10 ^ length s

shift_exact : (x p a q : ℕ) → x * p ≡ a * q → x * (p * 10) ≡ a * (q * 10)
shift_exact x p a q e = omega (arith, e)

spare_exact : (f v a q : ℕ) → v < q → f * q + v ≡ a * q → (f * 10 + 0) * q + v ≡ a * (q * 10)
spare_exact f v a q small e =
    rw ((quotient_unique f a v q small e).0, (quotient_unique f a v q small e).1) (omega arith)

-- With room for another digit the scale is not yet full.
pub room_left : (scale p : ℕ) → 0 < p → scale * (p * 10) ≡ decimal_scale → scale < decimal_scale
room_left zero p h e = omega arith
room_left (suc n) p h e = grind arith

pub weight_suc :
    (scale j : ℕ) → scale * 10 ^ suc j ≡ decimal_scale → scale * (10 ^ j * 10) ≡ decimal_scale
weight_suc scale j e = rw pow-suc at e

Reads-digit :
    {s : Bytes} {j n f c : ℕ} {h k : Bool} {q : Progress}
    → IsDigit c
    → Reads s j n (f * 10 + (c - b'0')) h true q
    → Reads (c ∷ s) (suc j) n f h k q
Reads-digit {s} {j} d r = record {
  digits = (d, r.digits);
  part = r.part;
  scale = r.scale;
  room = r.room;
  shape = r.shape;
  small = r.small;
  weight = r.weight;
  exact = rw (pow-suc 10 j, pow-suc 10 (length s)) (shift_exact _ (10 ^ j) _ _ r.exact);
}

Reads-zero :
    {s : Bytes} {n f c : ℕ} {h k : Bool} {q : Progress}
    → c ≡ b'0'
    → Reads s 0 n f h true q
    → Reads (c ∷ s) 0 n f h k q
Reads-zero {s} {n} {f} {c} z r = record {
  digits = (omega arith, r.digits);
  part = r.part;
  scale = r.scale;
  room = r.room;
  shape = r.shape;
  small = r.small;
  weight = r.weight;
  exact =
      rw (z, value-pow s (f * 10 + 0), pow-suc 10 (length s))
        (omega (
          arith,
          spare_exact f (value 0 s) (r.part * 10 ^ r.room) (10 ^ length s) (value-lt-pow s r.digits)
              (omega (arith, r.exact, value-pow s f)),
        ));
}

module _ (bound : ℕ) (large : bound / decimal_scale ≡ largest_whole) where
  pub fraction_Reads :
      (s : Bytes) (j n f scale : ℕ) (h k : Bool) (q : Progress)
      → f < scale
      → scale * 10 ^ j ≡ decimal_scale
      → scan bound (in_fraction n h f scale k) s ≡ ok q
      → Reads s j n f h k q
  unfolding scan
  fraction_Reads [] j n f scale h k q small weight e = record {
    digits = tt;
    part = f;
    scale = scale;
    room = j;
    shape = ground arith;
    small = small;
    weight = weight;
    exact = omega arith;
  }
  fraction_Reads (c ∷ s) zero n f scale h k q small weight e =
      let (p, e1, e2) =
        >>=-eq-ok (scan_character bound (in_fraction n h f scale k) c) (λ p. scan bound p s) e in
      let (digit, cases) = fraction_cases bound large n f scale c h k p small (omega arith) e1 in
      elim cases [
        | inl (room, shape) ↦ absurd (omega arith)
        | inr (full, zero_digit, shape) ↦
            Reads-zero zero_digit
              (fraction_Reads s zero n f scale h true q small weight (rw shape at e2))
      ]
  fraction_Reads (c ∷ s) (suc j) n f scale h k q small weight e =
      let (p, e1, e2) =
        >>=-eq-ok (scan_character bound (in_fraction n h f scale k) c) (λ p. scan bound p s) e in
      let left =
        room_left scale (10 ^ j) (one-le-pow j 10 (omega arith)) (weight_suc scale j weight) in
      let (digit, cases) = fraction_cases bound large n f scale c h k p small (omega arith) e1 in
      elim cases [
        | inl (room, shape) ↦ Reads-digit digit (
            fraction_Reads s j n (f * 10 + (c - b'0')) (scale * 10) h true q (omega (arith, digit))
              (omega (arith, weight_suc scale j weight)) (rw shape at e2))
        | inr (full, zero_digit, shape) ↦ absurd (omega arith)
      ]

-- How the loop leaves its variables: at the end of the whole part, or past a point.
record ReadsWhole (s : Bytes) (n : ℕ) (h : Bool) (q : Progress) : Type 0 where
  digits : All IsDigit s
  small : value n s ≤ largest_whole
  shape : q ≡ in_whole (value n s) (seen h s)

record ReadsPoint (bound : ℕ) (s : Bytes) (n : ℕ) (h : Bool) (q : Progress) : Type 0 where
  whole : Bytes
  behind : Bytes
  split : s ≡ whole ++ b'.' ∷ behind
  digits : All IsDigit whole
  small : value n whole ≤ largest_whole
  reads : Reads behind 8 (value n whole) 0 (seen h whole) false q

ReadsPoint-digit :
    {bound n c : ℕ} {s : Bytes} {h : Bool} {q : Progress}
    → IsDigit c
    → ReadsPoint bound s (n * 10 + (c - b'0')) true q
    → ReadsPoint bound (c ∷ s) n h q
ReadsPoint-digit {bound} {n} {c} d r = record {
  whole = c ∷ r.whole;
  behind = r.behind;
  split = ap (λ (t : Bytes). c ∷ t) r.split;
  digits = (d, r.digits);
  small = r.small;
  reads = r.reads;
}

module _ (bound : ℕ) (large : bound / decimal_scale ≡ largest_whole) where
  whole_reads :
      (s : Bytes) (n : ℕ) (h : Bool) (q : Progress)
      → n ≤ largest_whole
      → scan bound (in_whole n h) s ≡ ok q
      → ReadsWhole s n h q ⊎ ReadsPoint bound s n h q
  unfolding scan
  whole_reads [] n h q small e = inl (record { digits = tt; small = small; shape = ground arith })
  whole_reads (c ∷ s) n h q small e =
      let (p, e1, e2) = >>=-eq-ok (scan_character bound (in_whole n h) c) (λ p. scan bound p s) e in
      elim (whole_cases bound large n c h p small e1) [
        | inl (point, shape) ↦ inr (record {
          whole = [];
          behind = s;
          split = ap (λ (d : ℕ). d ∷ s) point;
          digits = tt;
          small = small;
          reads =
              fraction_Reads bound large s 8 n 0 1 h false q (omega arith) (omega arith)
                (rw shape at e2);
        })
        | inr (digit, fits, shape) ↦
            elim (whole_reads s (n * 10 + (c - b'0')) true q fits (rw shape at e2)) [
              | inl r ↦
                  inl (record { digits = (digit, r.digits); small = r.small; shape = r.shape })
              | inr r ↦ inr (ReadsPoint-digit digit r)
            ]
      ]

product_lt : (a b p m : ℕ) → a < b → 0 < p → b * p ≡ m → a * p < m
product_lt a b p m h z e = rw (← e) (grind arith)

sum_exact :
    (n x q v : ℕ)
    → v * decimal_scale ≡ x * q
    → (n * decimal_scale + x) * q ≡ (n * q + v) * decimal_scale
sum_exact n x q v e = omega (arith, e)

-- The variables stand for exactly the units that the digits spell.
pub total-Reads :
    {s : Bytes} {n : ℕ} {h : Bool} {q : Progress}
    → Reads s 8 n 0 h false q
    → (q.fractional_part * (decimal_scale / q.fractional_scale) < decimal_scale)
      × (total q * 10 ^ length s ≡ (n * 10 ^ length s + value 0 s) * decimal_scale)
total-Reads {s} {n} {h} {q} r =
    let d : decimal_scale / r.scale ≡ 10 ^ r.room =
      div-eq_of_eq-mul_right (omega arith) (sym r.weight) in
    (
      rw (r.shape, d) (product_lt _ _ _ _ r.small (one-le-pow r.room 10 (omega arith)) r.weight),
      rw (r.shape, d) (sum_exact n (r.part * 10 ^ r.room) (10 ^ length s) (value 0 s) r.exact),
    )

-- A sign, and a text behind it that the loop and what follows it accept.
record Accepts (negative : Bool) (s : Bytes) (v : ℤ) : Type 0 where
  whole : Bytes
  fraction : Option Bytes
  units : ℕ
  split : s ≡ whole ++ point_text fraction
  whole_digits : All IsDigit whole
  fraction_digits : All IsDigit (places fraction)
  has_digits : HasDigits whole fraction
  exact :
      units * 10 ^ length (places fraction)
      ≡ (value 0 whole * 10 ^ length (places fraction) + value 0 (places fraction)) * decimal_scale
  fits : units ≤ limit negative
  result : v ≡ with_sign negative units

seen-ne-nil : (s : Bytes) → seen false s ≡ true → s ≢ []
seen-ne-nil [] e = cc
seen-ne-nil (c ∷ s) e = cons-ne-nil c s

module _ (negative : Bool) (s : Bytes) (v : ℤ) (q : Progress) (e : finish negative q ≡ ok v) where
  whole_Accepts : ReadsWhole s 0 false q → Accepts negative s v
  whole_Accepts r =
      let (flags, fits, result) =
        finish_sound negative q (rw r.shape (omega arith)) v (rw r.shape r.small) e in
      record {
        whole = s;
        fraction = none;
        units = total q;
        split = sym (append-nil s);
        whole_digits = r.digits;
        fraction_digits = tt;
        has_digits = seen-ne-nil s (ground arith);
        exact = rw r.shape (omega arith);
        fits = fits;
        result = result;
      }

  point_Accepts : ReadsPoint (limit negative) s 0 false q → Accepts negative s v
  point_Accepts r =
      let (small, exact) = total-Reads r.reads in
      let (flags, fits, result) = finish_sound negative q small v (rw r.reads.shape r.small) e in
      record {
        whole = r.whole;
        fraction = some r.behind;
        units = total q;
        split = r.split;
        whole_digits = r.digits;
        fraction_digits = r.reads.digits;
        has_digits = seen-ne-nil r.behind (ground arith);
        exact = exact;
        fits = fits;
        result = result;
      }

pub limit-whole : (negative : Bool) → limit negative / decimal_scale ≡ largest_whole
limit-whole true = refl
limit-whole false = refl

parse_magnitude_sound :
    (negative : Bool) (s : Bytes) (v : ℤ) → parse_magnitude negative s ≡ ok v → Accepts negative s v
unfolding parse_magnitude
parse_magnitude_sound negative [] v e = cc
parse_magnitude_sound negative (c ∷ s) v e =
    let (q, e1, e2) = >>=-eq-ok (scan (limit negative) start (c ∷ s)) (finish negative) e in
    elim (whole_reads (limit negative) (limit-whole negative) (c ∷ s) 0 false q (omega arith) e1) [
      | inl r ↦ whole_Accepts negative (c ∷ s) v q e2 r
      | inr r ↦ point_Accepts negative (c ∷ s) v q e2 r
    ]

signed-with_sign : (sign : Sign) (n : ℕ) → with_sign (is_minus sign) n ≡ signed sign n
signed-with_sign unsigned n = refl
signed-with_sign plus n = refl
signed-with_sign minus n = refl

-- The literal and the number of units that an accepted text stands for.
pub record Denotes (s : Bytes) (v : ℤ) : Type 0 where
  pub literal : Literal
  pub units : ℕ
  pub spelled : s ≡ spell literal
  pub well_formed : IsLiteral literal
  pub exact : Units literal units
  pub fits : units ≤ limit (is_minus literal.sign)
  pub result : v ≡ signed literal.sign units

Accepts-Denotes :
    {s t : Bytes} {v : ℤ} (sign : Sign)
    → t ≡ sign_text sign ++ s
    → Accepts (is_minus sign) s v
    → Denotes t v
Accepts-Denotes sign e a = record {
  literal = record { sign = sign; whole = a.whole; fraction = a.fraction };
  units = a.units;
  spelled = e ∙ ap (λ r. sign_text sign ++ r) a.split;
  well_formed = record {
    whole_digits = a.whole_digits;
    fraction_digits = a.fraction_digits;
    has_digits = a.has_digits;
  };
  exact = a.exact;
  fits = a.fits;
  result = a.result ∙ signed-with_sign sign a.units;
}

-- A text that `parse_decimal` accepts is a decimal literal, and the result is exactly the number of
-- units of 10 ^ -8 that it denotes, which fits in 64 bits: nothing is rounded and nothing wraps.
pub parse_decimal_sound : (s : Bytes) (v : ℤ) → parse_decimal s ≡ ok v → Denotes s v
unfolding parse_decimal
parse_decimal_sound [] v e = cc
parse_decimal_sound (c ∷ s) v e = elim (Bool-cases (c == b'-')) [
  | inl m ↦ Accepts-Denotes minus (ground arith) (parse_magnitude_sound true s v (rw m at e))
  | inr m ↦ elim (Bool-cases (c == b'+')) [
    | inl p ↦ Accepts-Denotes plus (ground arith) (parse_magnitude_sound false s v (rw (m, p) at e))
    | inr p ↦ Accepts-Denotes unsigned refl (parse_magnitude_sound false (c ∷ s) v (rw (m, p) at e))
  ]
]
