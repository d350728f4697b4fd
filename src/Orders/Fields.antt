-- ===== src/Orders/Fields.antt =====
-- A query string as its fields, the parts between the delimiters.
use exchange_connectivity.Base.{
  ℕ, ◌<◌, ◌≡◌, ◌≢◌, refl, sym, ap, subst, ◌∙◌, List, [], ◌∷◌, ◌++◌, Option, none, some, arith, All,
  All-append, ◌==◌, if◌then◌else◌, append_assoc,
}
use exchange_connectivity.Base.Int.{ℤ, Fits64}
use exchange_connectivity.Base.Text.{Bytes}
use exchange_connectivity.Decimal.Digits.{IsDigit}
use exchange_connectivity.Decimal.Literal.{
  Literal, Sign, unsigned, plus, minus, IsLiteral, spell, sign_text, point_text, places,
}
use exchange_connectivity.Decimal.Sound.{parse_decimal_sound}
use exchange_connectivity.Decimal.Print.{format_unsigned, to_decimal_string}
use exchange_connectivity.Decimal.Print.Texts.{format_digits}
use exchange_connectivity.Decimal.Print.RoundTrip.{parse_decimal-to_decimal_string}
use exchange_connectivity.Orders.Text.{is_plain, url_encode}
use exchange_connectivity.Orders.Text.Encode.{IsSafe, url_encode-IsSafe}

abbrev pub push : ℕ → List Bytes → List Bytes
push c [] = (c ∷ []) ∷ []
push c (f ∷ fs) = (c ∷ f) ∷ fs

-- `s.split('&')`.
unfoldable pub fields_of : Bytes → List Bytes
fields_of [] = [] ∷ []
fields_of (c ∷ s) = let rest = fields_of s in if c == b'&' then [] ∷ rest else push c rest

abbrev pub Lacks : Bytes → Type 0
Lacks = All (λ c. c ≢ b'&')

fields_of-part : (f rest : Bytes) → Lacks f → fields_of (f ++ b'&' ∷ rest) ≡ f ∷ fields_of rest
unfolding fields_of
fields_of-part [] rest h = refl
fields_of-part (c ∷ f) rest (h, hs) = ground (arith, fields_of-part f rest hs)

pub fields_of-last : (f : Bytes) → Lacks f → fields_of f ≡ f ∷ []
unfolding fields_of
fields_of-last [] h = refl
fields_of-last (c ∷ f) (h, hs) = ground (arith, fields_of-last f hs)

-- A field of a name and a value, with more fields behind it.
pub fields_of-field :
    (name value rest : Bytes)
    → Lacks name
    → Lacks value
    → fields_of (name ++ (value ++ b'&' ∷ rest)) ≡ (name ++ value) ∷ fields_of rest
fields_of-field name value rest h k =
    ap fields_of (sym (append_assoc name value (b'&' ∷ rest)))
    ∙ fields_of-part (name ++ value) rest (All-append _ name value h k)

digits-Lacks : (s : Bytes) → All IsDigit s → Lacks s
digits-Lacks [] h = tt
digits-Lacks (c ∷ s) (h, hs) = (omega arith, digits-Lacks s hs)

pub format-Lacks : (n : ℕ) → Lacks (format_unsigned n)
format-Lacks n = digits-Lacks (format_unsigned n) (format_digits n)

safe-Lacks : (s : Bytes) → All IsSafe s → Lacks s
unfolding is_plain
safe-Lacks [] h = tt
safe-Lacks (c ∷ s) (h, hs) = (ground arith, safe-Lacks s hs)

pub url_encode-Lacks : (s : Bytes) → All (λ c. c < 256) s → Lacks (url_encode s)
url_encode-Lacks s h = safe-Lacks (url_encode s) (url_encode-IsSafe s h)

point-Lacks : (f : Option Bytes) → All IsDigit (places f) → Lacks (point_text f)
point-Lacks none h = tt
point-Lacks (some s) h = (omega arith, digits-Lacks s h)

sign-Lacks : (s : Sign) → Lacks (sign_text s)
sign-Lacks unsigned = tt
sign-Lacks plus = omega arith
sign-Lacks minus = omega arith

literal-Lacks : (t : Literal) → IsLiteral t → Lacks (spell t)
literal-Lacks t l = All-append _ (sign_text t.sign) _ (sign-Lacks t.sign) (
    All-append _ t.whole (point_text t.fraction) (digits-Lacks t.whole l.whole_digits)
      (point-Lacks t.fraction l.fraction_digits))

-- What is printed is read back, so it is a literal.
pub decimal-Lacks : (v : ℤ) → Fits64 v → Lacks (to_decimal_string v 8)
decimal-Lacks v h =
    let d = parse_decimal_sound (to_decimal_string v 8) v (parse_decimal-to_decimal_string v h) in
    subst Lacks (sym d.spelled) (literal-Lacks d.literal d.well_formed)
