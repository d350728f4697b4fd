-- ===== src/Utilities/Base64/Reference.antt =====
-- The encoding of RFC 4648, three bytes at a time.
use exchange_connectivity.Base.{
  ℕ, suc, ◌+◌, ◌*◌, ◌/◌, ◌%◌, ◌<◌, ◌≡◌, ◌≢◌, refl, ap, sym, ◌∙◌, append_assoc, [], ◌∷◌, ◌++◌, arith,
  All, length, ◌==◌, if◌then◌else◌, replicate,
}
use exchange_connectivity.Base.Text.{Bytes}
use exchange_connectivity.Utilities.Base64.{
  character, State, encode_byte, encode_bytes, base64_encode,
}
use exchange_connectivity.Utilities.Base64.Rounds.{first_byte, second_byte, third_byte, next_group}

abbrev pub rfc4648 : Bytes → Bytes
rfc4648 [] = []
rfc4648 (a ∷ []) = character (a / 4) ∷ character (a % 4 * 16) ∷ b'=' ∷ b'=' ∷ []
rfc4648 (a ∷ b ∷ []) =
    character (a / 4) ∷ character (a % 4 * 16 + b / 16) ∷ character (b % 16 * 4) ∷ b'=' ∷ []
rfc4648 (a ∷ b ∷ c ∷ s) =
    character (a / 4)
    ∷ character (a % 4 * 16 + b / 16)
    ∷ character (b % 16 * 4 + c / 64)
    ∷ character (c % 64)
    ∷ rfc4648 s

-- What `base64Encode` adds behind whole groups, by the remainder of the length.
abbrev pub surplus : ℕ → Bytes
surplus n = if n == 0 then b'=' ∷ b'=' ∷ [] else []

abbrev finished : ℕ → State → Bytes
finished n s = s.result ++ (character s.encoded_byte ∷ replicate (if n == 2 then 1 else 2) b'=')

abbrev fresh : Bytes → State
fresh q = record { bit_to_set = 6; encoded_byte = 0; result = q }

-- The states behind two bytes and behind three.
abbrev two_written : ℕ → ℕ → Bytes
two_written a b = character (a / 4) ∷ character (a % 4 * 16 + b / 16) ∷ []

abbrev three_written : ℕ → ℕ → ℕ → Bytes
three_written a b c =
    character (a / 4) ∷ character (a % 4 * 16 + b / 16) ∷ character (b % 16 * 4 + c / 64) ∷ []

two :
    (a b : ℕ) (q : Bytes)
    → a < 256
    → b < 256
    → encode_byte b (encode_byte a (fresh q))
      ≡ record { bit_to_set = 2; encoded_byte = b % 16 * 4; result = q ++ two_written a b }
two a b q ha hb =
    ap (encode_byte b) (first_byte a q ha)
    ∙ (second_byte (a % 4) b (q ++ character (a / 4) ∷ []) (omega arith) hb
        ∙ ap (λ t. record { bit_to_set = 2; encoded_byte = b % 16 * 4; result = t })
            (append_assoc q _ _))

three :
    (a b c : ℕ) (q : Bytes)
    → a < 256
    → b < 256
    → c < 256
    → encode_byte c (encode_byte b (encode_byte a (fresh q)))
      ≡ record { bit_to_set = 0; encoded_byte = c % 64; result = q ++ three_written a b c }
three a b c q ha hb hc =
    ap (encode_byte c) (two a b q ha hb)
    ∙ (third_byte (b % 16) c (q ++ two_written a b) (omega arith) hc
        ∙ ap (λ t. record { bit_to_set = 0; encoded_byte = c % 64; result = t })
            (append_assoc q _ _))

from_group :
    (a : ℕ) (s q : Bytes)
    → All (λ c. c < 256) (a ∷ s)
    → finished (length (a ∷ s) % 3) (encode_bytes (a ∷ s) (fresh q))
      ≡ q ++ (rfc4648 (a ∷ s) ++ surplus (length (a ∷ s) % 3))
unfolding encode_bytes
from_group a [] q (ha, h) = ap (finished 1) (first_byte a q ha) ∙ append_assoc q _ _
from_group a (b ∷ []) q (ha, (hb, h)) = ap (finished 2) (two a b q ha hb) ∙ append_assoc q _ _
from_group a (b ∷ c ∷ []) q (ha, (hb, (hc, h))) =
    ap (finished 0) (three a b c q ha hb hc) ∙ append_assoc q _ _
from_group a (b ∷ c ∷ d ∷ s) q (ha, (hb, (hc, h))) =
    let n = length (d ∷ s) in
    let q' = (q ++ three_written a b c) ++ character (c % 64) ∷ [] in
    let same : suc (suc (suc n)) % 3 ≡ n % 3 = omega arith in
    ap (λ t. finished (suc (suc (suc n)) % 3) (encode_bytes s (encode_byte d t)))
      (three a b c q ha hb hc)
    ∙ (ap (λ t. finished (suc (suc (suc n)) % 3) (encode_bytes s t))
          (next_group (c % 64) d (q ++ three_written a b c))
        ∙ (ap (λ m. finished m (encode_bytes (d ∷ s) (fresh q'))) same
            ∙ (from_group d s q' h
                ∙ (ap (λ m. q' ++ (rfc4648 (d ∷ s) ++ surplus m)) (sym same)
                    ∙ (append_assoc (q ++ three_written a b c) _ _ ∙ append_assoc q _ _)))))

-- On a text of bytes that is not empty, `base64Encode` is the encoding of RFC 4648 where the length is
-- no multiple of three, and that encoding with two padding characters too many where it is one.
pub base64_encode-rfc4648 :
    (s : Bytes)
    → s ≢ []
    → All (λ c. c < 256) s
    → base64_encode s ≡ rfc4648 s ++ surplus (length s % 3)
unfolding base64_encode
base64_encode-rfc4648 [] h v = absurd (h refl)
base64_encode-rfc4648 (a ∷ s) h v = from_group a s [] v
