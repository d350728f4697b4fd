-- ===== src/Utilities/Base64.antt =====
-- `base64Encode` of utilities/Base64.cpp, bit by bit as the source does it. A byte is a number below 256.
pub mod Rounds
pub mod Reference
use Prim.Native.Nat.{bit_or}
use exchange_connectivity.Base.{
  ℕ, zero, suc, ◌+◌, ◌-◌, ◌/◌, ◌%◌, ◌^◌, [], ◌∷◌, ◌++◌, ◌==◌, if◌then◌else◌, get_or, length,
  replicate,
}
use exchange_connectivity.Base.Text.{Bytes, codes}

abbrev pub encoding_table : Bytes
encoding_table = codes "ABCDEFGHIJKLMNOPQRSTUVWXYZabcdefghijklmnopqrstuvwxyz0123456789+/"

abbrev pub character : ℕ → ℕ
character n = get_or encoding_table n 0

abbrev pub max_bits_to_encode : ℕ
max_bits_to_encode = 6

-- The variables of the loops.
pub record State : Type 0 where
  pub bit_to_set : ℕ
  pub encoded_byte : ℕ
  pub result : Bytes

-- The first test of the inner loop.
flush : State → State
flush s =
    if s.bit_to_set == 0
    then record {
      bit_to_set = max_bits_to_encode;
      encoded_byte = 0;
      result = s.result ++ character s.encoded_byte ∷ [];
    }
    else s

-- The second test, and the step of the inner loop.
set_bit : ℕ → ℕ → State → State
set_bit byte i s = record s {
  encoded_byte =
      if byte / 2 ^ i % 2 == 1
      then bit_or s.encoded_byte (2 ^ (s.bit_to_set - 1))
      else s.encoded_byte;
  bit_to_set = s.bit_to_set - 1;
}

-- The inner loop, with the number of bits that are left.
encode_bits : ℕ → ℕ → State → State
unfolding flush set_bit
encode_bits zero byte s = s
encode_bits (suc i) byte s = encode_bits i byte (set_bit byte i (flush s))

pub encode_byte : ℕ → State → State
unfolding encode_bits
encode_byte byte s = encode_bits 8 byte s

pub encode_bytes : Bytes → State → State
encode_bytes [] s = s
encode_bytes (byte ∷ str) s = encode_bytes str (encode_byte byte s)

unfoldable pub base64_encode : Bytes → Bytes
unfolding encode_bytes encode_byte
base64_encode str =
    let s =
      encode_bytes str
        (record { bit_to_set = max_bits_to_encode; encoded_byte = 0; result = [] }) in
    s.result ++ (character s.encoded_byte ∷ replicate (if length str % 3 == 2 then 1 else 2) b'=')
