-- ===== src/Orders/Text/Encode.antt =====
-- `urlEncode` loses nothing and lets no delimiter through.
use exchange_connectivity.Base.{
  ℕ, ◌+◌, ◌-◌, ◌*◌, ◌/◌, ◌%◌, ◌<◌, ◌≡◌, ◌≢◌, refl, ap, ◌∙◌, true, [], ◌∷◌, ◌++◌, ◌⊎◌, ◌==◌, leb,
  if◌then◌else◌, arith, All, All-append, Bool-cases, inl, inr, ==_iff, holds_below, holds_below_lem,
  get_or,
}
use exchange_connectivity.Base.Text.{Bytes}
use exchange_connectivity.Orders.Text.{hex_digits, is_plain, hex_pair, url_encode}

-- The value of an upper-case hexadecimal digit.
abbrev pub hex_value : ℕ → ℕ
hex_value c = if leb c b'9' then c - b'0' else c + 10 - b'A'

-- Percent-decoding.
unfoldable pub url_decode : Bytes → Bytes
url_decode [] = []
url_decode (c ∷ []) = c ∷ []
url_decode (c ∷ d ∷ []) = c ∷ d ∷ []
url_decode (c ∷ d ∷ e ∷ s) =
    let skipped = (hex_value d * 16 + hex_value e) ∷ url_decode s in
    let kept = c ∷ url_decode (d ∷ e ∷ s) in if c == b'%' then skipped else kept

-- An unreserved character of RFC 3986, or the sign of an escape.
abbrev pub IsSafe : ℕ → Type 0
IsSafe c = (is_plain c ≡ true) ⊎ (c ≡ b'%')

digit_value : (d : ℕ) → d < 16 → hex_value (get_or hex_digits d 0) ≡ d
unfolding holds_below
digit_value d h =
    (==_iff _ d).0 (holds_below_lem (λ n. hex_value (get_or hex_digits n 0) == n) 16 d refl h)

digit_plain : (d : ℕ) → d < 16 → is_plain (get_or hex_digits d 0) ≡ true
unfolding holds_below is_plain
digit_plain d h = holds_below_lem (λ n. is_plain (get_or hex_digits n 0)) 16 d refl h

pub hex_pair-IsSafe : (c : ℕ) → c < 256 → All IsSafe (hex_pair c)
unfolding hex_pair
hex_pair-IsSafe c h =
    (inl (digit_plain (c / 16) (omega arith)), (inl (digit_plain (c % 16) (omega arith)), tt))

hex_pair-value :
    (c : ℕ)
    → c < 256
    → hex_value (get_or hex_digits (c / 16) 0) * 16 + hex_value (get_or hex_digits (c % 16) 0) ≡ c
hex_pair-value c h =
    omega (arith, digit_value (c / 16) (omega arith), digit_value (c % 16) (omega arith))

decode_plain : (c : ℕ) (s : Bytes) → c ≢ b'%' → url_decode (c ∷ s) ≡ c ∷ url_decode s
unfolding url_decode
decode_plain c [] h = refl
decode_plain c (d ∷ []) h = refl
decode_plain c (d ∷ e ∷ s) h = ground arith

plain-ne-percent : (c : ℕ) → is_plain c ≡ true → c ≢ b'%'
unfolding is_plain
plain-ne-percent c h = ground arith

escape_back :
    (c : ℕ) (s : Bytes) → c < 256 → url_decode ((b'%' ∷ hex_pair c) ++ s) ≡ c ∷ url_decode s
unfolding url_decode hex_pair
escape_back c s h = ap (λ (d : ℕ). d ∷ url_decode s) (hex_pair-value c h)

-- Every text of bytes is read back from its encoding.
pub url_decode-url_encode : (s : Bytes) → All (λ c. c < 256) s → url_decode (url_encode s) ≡ s
unfolding url_encode
url_decode-url_encode [] h = unfold url_decode in refl
url_decode-url_encode (c ∷ s) (h, hs) = elim (Bool-cases (is_plain c)) [
  | inl plain ↦ rw plain (
      decode_plain c (url_encode s) (plain-ne-percent c plain)
      ∙ ap (λ (t : Bytes). c ∷ t) (url_decode-url_encode s hs))
  | inr escaped ↦
      rw escaped
        (escape_back c (url_encode s) h ∙ ap (λ (t : Bytes). c ∷ t) (url_decode-url_encode s hs))
]

-- The encoding holds unreserved characters and percent signs only, so no text can add a parameter
-- to a query or end one.
pub url_encode-IsSafe : (s : Bytes) → All (λ c. c < 256) s → All IsSafe (url_encode s)
unfolding url_encode
url_encode-IsSafe [] h = tt
url_encode-IsSafe (c ∷ s) (h, hs) = elim (Bool-cases (is_plain c)) [
  | inl plain ↦ rw plain (inl plain, url_encode-IsSafe s hs)
  | inr escaped ↦ rw escaped (
      All-append IsSafe (b'%' ∷ hex_pair c) (url_encode s) (inr refl, hex_pair-IsSafe c h)
        (url_encode-IsSafe s hs))
]
