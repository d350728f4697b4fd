-- ===== src/Utilities/Hex.antt =====
-- utilities/HexConverter.cpp. A `uint8_t` is a number below 256.
pub mod Inverse
use mathlib.Core.List.{reverse}
use exchange_connectivity.Base.{
  ℕ, zero, suc, ◌+◌, ◌-◌, ◌*◌, ◌/◌, ◌%◌, ◌^◌, ◌&&◌, [], ◌∷◌, ◌++◌, leb, ◌==◌, if◌then◌else◌, get_or,
}
use exchange_connectivity.Base.Int.{ℤ, pos, negsuc}
use exchange_connectivity.Base.Text.{Bytes, codes}

abbrev pub table : Bytes
table = codes "0123456789ABCDEF"

-- `bytesToHex`, and the loops of the two `bytesToHexStr`.
unfoldable pub bytes_to_hex : Bytes → Bytes
bytes_to_hex [] = []
bytes_to_hex (c ∷ s) = get_or table (c / 16) 0 ∷ get_or table (c % 16) 0 ∷ bytes_to_hex s

pub hex_code : ℕ → ℕ
hex_code symbol =
    if leb b'0' symbol && leb symbol b'9'
    then symbol - b'0'
    else if leb b'A' symbol && leb symbol b'F'
    then symbol - b'A' + 10
    else if leb b'a' symbol && leb symbol b'f'
    then symbol - b'a' + 10
    else 0

-- `hex2UChar` of two characters, as a `uint8_t`.
pub hex_to_char : ℕ → ℕ → ℕ
unfolding hex_code
hex_to_char first second = (16 * hex_code first + hex_code second) % 256

-- `hex2BytesString`. The last round of a text of odd length reads the terminator of its one character.
unfoldable pub hex_to_bytes_string : Bytes → Bytes
unfolding hex_to_char
hex_to_bytes_string [] = []
hex_to_bytes_string (c ∷ []) = hex_to_char c 0 ∷ []
hex_to_bytes_string (c ∷ d ∷ s) = hex_to_char c d ∷ hex_to_bytes_string s

-- `static_cast<unsigned int>` of an `int`.
abbrev pub unsigned32 : ℤ → ℕ
unsigned32 (pos n) = n % 2 ^ 32
unsigned32 (negsuc n) = 2 ^ 32 - 1 - n % 2 ^ 32

-- The loop of `intToHex` with the digits in the order in which they are pushed. The first argument
-- bounds the rounds.
pub push_digits : ℕ → ℕ → Bytes
push_digits zero num = []
push_digits (suc fuel) num =
    let rest = get_or table (num % 16) 0 ∷ push_digits fuel (num / 16) in
    if num == 0 then [] else rest

-- A number below 2 ^ 32 has 8 digits at most.
pub hex_text : ℕ → Bytes
hex_text num = if num == 0 then get_or table 0 0 ∷ [] else reverse (push_digits 8 num)

pub int_to_hex : ℤ → Bytes
int_to_hex value = hex_text (unsigned32 value)
