-- ===== src/Orders/Text.antt =====
-- binance_order_client/utilities.cpp: `urlEncode` and `toHex`.
pub mod Encode
use exchange_connectivity.Base.{
  ℕ, ◌/◌, ◌%◌, Bool, ◌&&◌, ◌||◌, [], ◌∷◌, ◌++◌, leb, ◌==◌, if◌then◌else◌, get_or,
}
use exchange_connectivity.Base.Text.{Bytes, codes}

abbrev pub hex_digits : Bytes
hex_digits = codes "0123456789ABCDEF"

-- `std::isalnum` of an ASCII character, and the four that stand for themselves.
unfoldable pub is_plain : ℕ → Bool
is_plain c =
    (leb b'0' c && leb c b'9')
    || (leb b'A' c && leb c b'Z')
    || (leb b'a' c && leb c b'z')
    || (c == b'-' || c == b'_' || c == b'.' || c == b'~')

-- The two digits of a byte.
unfoldable pub hex_pair : ℕ → Bytes
hex_pair c = get_or hex_digits (c / 16) 0 ∷ get_or hex_digits (c % 16) 0 ∷ []

unfoldable pub url_encode : Bytes → Bytes
unfolding is_plain hex_pair
url_encode [] = []
url_encode (c ∷ s) = (if is_plain c then c ∷ [] else b'%' ∷ hex_pair c) ++ url_encode s

unfoldable pub to_hex : Bytes → Bytes
unfolding hex_pair
to_hex [] = []
to_hex (c ∷ s) = hex_pair c ++ to_hex s
