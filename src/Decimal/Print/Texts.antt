-- ===== src/Decimal/Print/Texts.antt =====
-- The digits that `toDecimalString` prints, and the zeros that it drops at the end.
use mathlib.Core.List.{reverse, reverse-append, reverse-cons, reverse-reverse, cons-ne-nil}
use native.Mathlib.Nat.{pow-suc, zero-mul}
use exchange_connectivity.Base.{
  ℕ, zero, suc, ◌+◌, ◌-◌, ◌/◌, ◌%◌, ◌^◌, ◌≤◌, ◌<◌, ◌≡◌, refl, ◌∙◌, ap, ap₂, [], ◌∷◌, ◌++◌, arith,
  length, All, All-append, ◌==◌, ◌≢◌, ◌⊎◌, inl, inr, append-nil, append_assoc, replicate,
  Bool-cases, length-append, length-replicate, ==_iff,
}
use exchange_connectivity.Base.Text.{Bytes}
use exchange_connectivity.Decimal.Digits.{IsDigit, value, value-append, value-zeros}
use exchange_connectivity.Decimal.Print.{
  emit, format_unsigned, pad, drop_zeros, drop_point, strip_zeros,
}

emit_digits : (k n : ℕ) (out : Bytes) → All IsDigit out → All IsDigit (emit k n out)
unfolding emit
emit_digits zero n out h = h
emit_digits (suc k) n out h = ground (arith, emit_digits k (n / 10) ((b'0' + n % 10) ∷ out))

zero_of_lt : (n : ℕ) → n < 10 ^ 0 → 0 ≡ n
zero_of_lt n h = omega arith

tenth_below : (k n : ℕ) → n < 10 ^ suc k → n / 10 < 10 ^ k
tenth_below k n h = omega (arith, h, pow-suc 10 k)

value-emit : (k n : ℕ) (out : Bytes) → n < 10 ^ k → value 0 (emit k n out) ≡ value n out
unfolding emit
value-emit zero n out h = ap (λ (m : ℕ). value m out) (zero_of_lt n h)
value-emit (suc k) n out h =
    ground (arith, value-emit k (n / 10) ((b'0' + n % 10) ∷ out), tenth_below k n h)

length-emit : (k j n : ℕ) (out : Bytes) → n < 10 ^ j → length (emit k n out) ≤ j + length out
unfolding emit
length-emit zero j n out h = omega arith
length-emit (suc k) zero n out h = ground (arith, zero_of_lt n h)
length-emit (suc k) (suc j) n out h =
    ground (arith, length-emit k j (n / 10) ((b'0' + n % 10) ∷ out), tenth_below j n h)

pub format_digits : (n : ℕ) → All IsDigit (format_unsigned n)
unfolding format_unsigned
format_digits n = ground (arith, emit_digits 20 n [] tt)

pub value-format : (n : ℕ) → n < 10 ^ 20 → value 0 (format_unsigned n) ≡ n
unfolding format_unsigned
value-format n h = ground (arith, value-emit 20 n [] h)

emit-ne-nil : (k n : ℕ) (out : Bytes) → out ≢ [] → emit k n out ≢ []
unfolding emit
emit-ne-nil zero n out h = h
emit-ne-nil (suc k) n out h =
    ground (arith, emit-ne-nil k (n / 10) ((b'0' + n % 10) ∷ out) (cons-ne-nil _ out))

pub format-ne-nil : (n : ℕ) → format_unsigned n ≢ []
unfolding format_unsigned emit
format-ne-nil n = ground (arith, emit-ne-nil 19 (n / 10) ((b'0' + n % 10) ∷ []) (cons-ne-nil _ []))

pub length-format : (j n : ℕ) → n < 10 ^ suc j → length (format_unsigned n) ≤ suc j
unfolding format_unsigned
length-format j n h = ground (arith, length-emit 20 (suc j) n [] h)

zeros_digits : (k : ℕ) → All IsDigit (replicate k b'0')
zeros_digits zero = tt
zeros_digits (suc k) = (omega arith, zeros_digits k)

-- Padding keeps the number and fixes the width.
pub value-pad : (w : ℕ) (s : Bytes) → value 0 (pad w s) ≡ value 0 s
unfolding pad
value-pad w s = rw (value-append, value-zeros, zero-mul)

pub pad_digits : (w : ℕ) (s : Bytes) → All IsDigit s → All IsDigit (pad w s)
unfolding pad
pad_digits w s h = All-append IsDigit _ s (zeros_digits (w - length s)) h

pub length-pad : (w : ℕ) (s : Bytes) → length s ≤ w → length (pad w s) ≡ w
unfolding pad
length-pad w s h = omega (
  arith,
  length-append (replicate (w - length s) b'0') s,
  length-replicate {A = ℕ} (w - length s) b'0',
)

-- A text of digits is zeros only, or ends in another digit and zeros.
pub record EndsInZeros (s : Bytes) : Type 0 where
  pub front : Bytes
  pub last : ℕ
  pub count : ℕ
  pub split : s ≡ front ++ (last ∷ replicate count b'0')
  pub last_nonzero : last ≢ b'0'

pub last_digit : (s : Bytes) → ((k : ℕ) × (s ≡ replicate k b'0')) ⊎ EndsInZeros s
last_digit [] = inl (0, refl)
last_digit (c ∷ s) = elim (last_digit s) [
  | inl (k, e) ↦ elim (Bool-cases (c == b'0')) [
    | inl z ↦ inl (suc k, ap₂ (λ d t. d ∷ t) ((==_iff c b'0').0 z) e)
    | inr z ↦ inr (record {
      front = [];
      last = c;
      count = k;
      split = ap (λ t. c ∷ t) e;
      last_nonzero = ground arith;
    })
  ]
  | inr r ↦ inr (record {
    front = c ∷ r.front;
    last = r.last;
    count = r.count;
    split = ap (λ t. c ∷ t) r.split;
    last_nonzero = r.last_nonzero;
  })
]

drop_zeros-replicate : (k : ℕ) (s : Bytes) → drop_zeros (replicate k b'0' ++ s) ≡ drop_zeros s
unfolding drop_zeros
drop_zeros-replicate zero s = refl
drop_zeros-replicate (suc k) s = drop_zeros-replicate k s

replicate_shift :
    (k : ℕ) (s : Bytes) → replicate k b'0' ++ b'0' ∷ s ≡ b'0' ∷ (replicate k b'0' ++ s)
replicate_shift zero s = refl
replicate_shift (suc k) s = ap (λ t. b'0' ∷ t) (replicate_shift k s)

reverse-zeros : (k : ℕ) → reverse {A = ℕ} (replicate k b'0') ≡ replicate k b'0'
reverse-zeros zero = refl
reverse-zeros (suc k) =
    rw (reverse-cons, reverse-zeros k, replicate_shift k []) (ap (λ t. b'0' ∷ t) (append-nil _))

back :
    (s : Bytes) (d k : ℕ)
    → reverse (s ++ (d ∷ replicate k b'0')) ≡ replicate k b'0' ++ (d ∷ reverse s)
back s d k =
    reverse-append s (d ∷ replicate k b'0')
    ∙ (ap (λ (t : Bytes). t ++ reverse s)
          (reverse-cons d (replicate k b'0') ∙ ap (λ (t : Bytes). t ++ d ∷ []) (reverse-zeros k))
        ∙ append_assoc (replicate k b'0') (d ∷ []) (reverse s))

stops : (d : ℕ) (s : Bytes) → IsDigit d → d ≢ b'0' → drop_point (drop_zeros (d ∷ s)) ≡ d ∷ s
unfolding drop_zeros drop_point
stops d s digit nonzero = ground arith

-- The zeros at the end go, and nothing else where a digit stands before them.
pub strip_zeros_lem :
    (s : Bytes) (d k : ℕ)
    → IsDigit d
    → d ≢ b'0'
    → strip_zeros (s ++ (d ∷ replicate k b'0')) ≡ s ++ d ∷ []
unfolding strip_zeros
strip_zeros_lem s d k digit nonzero =
    rw (back s d k, drop_zeros-replicate k (d ∷ reverse s), stops d (reverse s) digit nonzero)
      (reverse-cons d (reverse s) ∙ ap (λ (t : Bytes). t ++ d ∷ []) (reverse-reverse s))
