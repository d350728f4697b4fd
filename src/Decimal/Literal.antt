-- ===== src/Decimal/Literal.antt =====
-- Decimal literals, independently of the parser: their texts, and the number of units of 10 ^ -8
-- that a literal denotes exactly.
use exchange_connectivity.Base.{
  ℕ, zero, suc, ◌+◌, ◌*◌, ◌^◌, ◌≡◌, ◌≢◌, Bool, true, false, [], ◌∷◌, ◌++◌, Option, none, some,
  length, All,
}
use exchange_connectivity.Base.Int.{ℤ, pos, negsuc}
use exchange_connectivity.Base.Text.{Bytes}
use exchange_connectivity.Decimal.{decimal_scale}
use exchange_connectivity.Decimal.Digits.{IsDigit, value}

pub data Sign : Type 0 where
  unsigned plus minus : Sign

-- `fraction` is `none` where the text has no point.
pub record Literal : Type 0 where
  pub sign : Sign
  pub whole : Bytes
  pub fraction : Option Bytes

abbrev pub sign_text : Sign → Bytes
sign_text unsigned = []
sign_text plus = b'+' ∷ []
sign_text minus = b'-' ∷ []

abbrev pub is_minus : Sign → Bool
is_minus unsigned = false
is_minus plus = false
is_minus minus = true

abbrev pub point_text : Option Bytes → Bytes
point_text none = []
point_text (some s) = b'.' ∷ s

abbrev pub places : Option Bytes → Bytes
places none = []
places (some s) = s

abbrev pub spell : Literal → Bytes
spell t = sign_text t.sign ++ (t.whole ++ point_text t.fraction)

-- Digits before the point or behind it, and at least one behind a point.
abbrev pub HasDigits : Bytes → Option Bytes → Type 0
HasDigits whole none = whole ≢ []
HasDigits whole (some s) = s ≢ []

pub record IsLiteral (t : Literal) : Type 0 where
  pub whole_digits : All IsDigit t.whole
  pub fraction_digits : All IsDigit (places t.fraction)
  pub has_digits : HasDigits t.whole t.fraction

-- The text without its sign is exactly `n` units of 10 ^ -8: nothing is rounded away.
abbrev pub Units : Literal → ℕ → Type 0
Units t n =
    n * 10 ^ length (places t.fraction)
    ≡ (value 0 t.whole * 10 ^ length (places t.fraction) + value 0 (places t.fraction))
      * decimal_scale

abbrev pub minus_ℕ : ℕ → ℤ
minus_ℕ zero = pos 0
minus_ℕ (suc n) = negsuc n

abbrev pub signed : Sign → ℕ → ℤ
signed unsigned n = pos n
signed plus n = pos n
signed minus n = minus_ℕ n
