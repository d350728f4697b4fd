-- ===== src/Utilities/Tests.antt =====
-- The conversions of utilities/ at single inputs.
use exchange_connectivity.Base.{
  suc, ◌≡◌, ◌≢◌, refl, arith, List, [], ◌∷◌, ◌++◌, ◌%◌, some, All, length,
}
use exchange_connectivity.Base.Text.{Bytes, codes}
use exchange_connectivity.Utilities.Hex.{bytes_to_hex}
use exchange_connectivity.Utilities.Base64.{base64_encode}
use exchange_connectivity.Utilities.Base64.Reference.{rfc4648, surplus, base64_encode-rfc4648}
use exchange_connectivity.Utilities.Split.{split_loop}
use exchange_connectivity.Utilities.Split.Join.{join, Free, split_loop-joins}
use exchange_connectivity.Utilities.Words.{is_one_of}
use exchange_connectivity.Utilities.Words.Pieces.{words}
use exchange_connectivity.Utilities.Erase.InPlace.{IsAscii}

bytes_as_hex : bytes_to_hex (0 ∷ 171 ∷ 255 ∷ []) ≡ codes "00ABFF"
unfolding bytes_to_hex
bytes_as_hex = refl

three_bytes : base64_encode (codes "Man") ≡ codes "TWFu=="
unfolding base64_encode
three_bytes = refl

two_bytes : base64_encode (codes "Ma") ≡ codes "TWE="
unfolding base64_encode
two_bytes = refl

abbrev word : Bytes
word = codes "Man"

word-ne-nil : word ≢ []
word-ne-nil = cc

base64_encode-rfc4648_example : base64_encode word ≡ rfc4648 word ++ surplus (length word % 3)
base64_encode-rfc4648_example = base64_encode-rfc4648 word word-ne-nil (omega arith)

abbrev fields : Bytes
fields = codes "a::b::::c"

abbrev colons : Bytes
colons = codes "::"

colons-ne-nil : colons ≢ []
colons-ne-nil = cc

split_loop-joins_example :
    (parts : List Bytes) × (split_loop (suc (length fields)) colons fields ≡ some parts)
    × (join colons parts ≡ fields)
    × All (λ part. Free colons part) parts
split_loop-joins_example = split_loop-joins colons fields colons-ne-nil

words_apart : words (codes ", ") (codes "a, bc,,d") ≡ codes "a" ∷ codes "bc" ∷ codes "d" ∷ []
unfolding is_one_of
words_apart = refl

abbrev with_controls : Bytes
with_controls = 97 ∷ 9 ∷ 98 ∷ 13 ∷ 10 ∷ 99 ∷ []

with_controls-IsAscii : All IsAscii with_controls
with_controls-IsAscii = ground arith
