-- ===== src/Utilities/Hex/Inverse.antt =====
-- Hexadecimal text, and the bytes and numbers that it spells.
use native.Mathlib.Nat.{pow-suc}
use mathlib.Core.List.{reverse, reverse-cons}
use exchange_connectivity.Base.{
  ℕ, zero, suc, ◌+◌, ◌*◌, ◌/◌, ◌%◌, ◌^◌, ◌<◌, ◌≡◌, refl, sym, ap, ap₂, ◌∙◌, true, [], ◌∷◌, ◌++◌,
  arith, All, ◌==◌, ==_iff, Bool-cases, inl, inr, get_or, holds_below, holds_below_lem,
}
use exchange_connectivity.Base.Int.{ℤ, pos, negsuc}
use exchange_connectivity.Base.Text.{Bytes}
use exchange_connectivity.Utilities.Hex.{
  table, bytes_to_hex, hex_code, hex_to_char, hex_to_bytes_string, unsigned32, push_digits,
  hex_text, int_to_hex,
}

code_table : holds_below (λ d. hex_code (get_or table d 0) == d) 16 ≡ true
unfolding holds_below hex_code
code_table = refl

hex_code-table : (d : ℕ) → d < 16 → hex_code (get_or table d 0) ≡ d
hex_code-table d h =
    (==_iff _ d).0 (holds_below_lem (λ n. hex_code (get_or table n 0) == n) 16 d code_table h)

char_back : (c : ℕ) → c < 256 → hex_to_char (get_or table (c / 16) 0) (get_or table (c % 16) 0) ≡ c
unfolding hex_to_char
char_back c h =
    omega (arith, hex_code-table (c / 16) (omega arith), hex_code-table (c % 16) (omega arith))

-- `hex2BytesString` undoes `bytesToHex` on every text of bytes.
pub hex_to_bytes_string-bytes_to_hex :
    (s : Bytes) → All (λ c. c < 256) s → hex_to_bytes_string (bytes_to_hex s) ≡ s
unfolding hex_to_bytes_string bytes_to_hex
hex_to_bytes_string-bytes_to_hex [] h = refl
hex_to_bytes_string-bytes_to_hex (c ∷ s) (h, hs) =
    ap₂ (λ d t. d ∷ t) (char_back c h) (hex_to_bytes_string-bytes_to_hex s hs)

-- The number that hexadecimal digits spell, read from the left.
abbrev pub hex_number : ℕ → Bytes → ℕ
hex_number n [] = n
hex_number n (c ∷ s) = hex_number (n * 16 + hex_code c) s

-- The same from the right.
abbrev low_first : Bytes → ℕ
low_first [] = 0
low_first (c ∷ s) = hex_code c + 16 * low_first s

push_digits-value : (fuel num : ℕ) → num < 16 ^ fuel → low_first (push_digits fuel num) ≡ num
unfolding push_digits
push_digits-value zero num h = omega arith
push_digits-value (suc fuel) num h = elim (Bool-cases (num == 0)) [
  | inl done ↦ rw done (ground (arith, done))
  | inr more ↦ rw more (
      omega (
        arith,
        hex_code-table (num % 16) (omega arith),
        push_digits-value fuel (num / 16) (omega (arith, h, pow-suc 16 fuel)),
      ))
]

hex_number-snoc :
    (n c : ℕ) (s : Bytes) → hex_number n (s ++ c ∷ []) ≡ hex_number n s * 16 + hex_code c
hex_number-snoc n c [] = refl
hex_number-snoc n c (d ∷ s) = hex_number-snoc (n * 16 + hex_code d) c s

hex_number-reverse : (s : Bytes) → hex_number 0 (reverse s) ≡ low_first s
hex_number-reverse [] = refl
hex_number-reverse (c ∷ s) =
    ap (λ t. hex_number 0 t) (reverse-cons c s)
    ∙ (hex_number-snoc 0 c (reverse s) ∙ omega (arith, hex_number-reverse s))

unsigned32_fits : (v : ℤ) → unsigned32 v < 16 ^ 8
unsigned32_fits (pos n) = omega arith
unsigned32_fits (negsuc n) = omega arith

hex_number-hex_text : (n : ℕ) → n < 16 ^ 8 → hex_number 0 (hex_text n) ≡ n
unfolding hex_text hex_code
hex_number-hex_text n h = elim (Bool-cases (n == 0)) [
  | inl none_left ↦ rw none_left (sym ((==_iff n 0).0 none_left))
  | inr some_left ↦ rw some_left (hex_number-reverse (push_digits 8 n) ∙ push_digits-value 8 n h)
]

-- `intToHex` spells the two's complement of its number.
pub hex_number-int_to_hex : (v : ℤ) → hex_number 0 (int_to_hex v) ≡ unsigned32 v
unfolding int_to_hex
hex_number-int_to_hex v = hex_number-hex_text (unsigned32 v) (unsigned32_fits v)
