-- ===== src/Base/Text.antt =====
-- `std::string` and `std::string_view` as lists of bytes.
use Prim.Native.Nat.{ℕ, ◌+◌}
use Prim.Native.Char.{code}
use Prim.Native.String.{String}
use mathlib.Core.Path.{◌≡◌, refl, sym, ap₂}
use mathlib.Core.Logic.{◌↔◌, inl, inr}
use mathlib.Core.Bool.{Bool, true, false, ◌&&◌}
use mathlib.Core.List.{List, [], ◌∷◌, ◌++◌, map}
use native.Mathlib.Omega.{arith}
use exchange_connectivity.Base.Tests.{leb, ◌==◌, ==_iff, Bool-cases, if◌then◌else◌}
use exchange_connectivity.Base.Lists.{length, drop}

abbrev pub Bytes : Type 0
Bytes = List ℕ

-- The code points of a literal; these are its bytes when the text is ASCII.
abbrev pub codes : String → Bytes
codes String.[] = []
codes (String.◌∷◌ c s) = code c ∷ codes s

-- `==` on strings.
abbrev pub beq : Bytes → Bytes → Bool
beq [] [] = true
beq [] (d ∷ t) = false
beq (c ∷ s) [] = false
beq (c ∷ s) (d ∷ t) = c == d && beq s t

abbrev pub is_empty {ℓ} : {A : Type ℓ} → List A → Bool
is_empty [] = true
is_empty (x ∷ xs) = false

abbrev pub is_digit : ℕ → Bool
is_digit c = leb b'0' c && leb c b'9'

pub beq_iff : (s t : Bytes) → (beq s t ≡ true) ↔ (s ≡ t)
beq_iff [] [] = (λ _. refl, λ _. refl)
beq_iff [] (d ∷ t) = (λ h. cc, λ h. cc)
beq_iff (c ∷ s) [] = (λ h. cc, λ h. cc)
beq_iff (c ∷ s) (d ∷ t) = ground (arith, beq_iff s t)

-- `std::tolower` of an unsigned character.
unfoldable pub lower : ℕ → ℕ
lower c = if leb b'A' c && leb c b'Z' then c + 32 else c

unfoldable pub to_lower : Bytes → Bytes
unfolding lower
to_lower s = map lower s

abbrev pub starts_with : Bytes → Bytes → Bool
starts_with [] s = true
starts_with (c ∷ t) [] = false
starts_with (c ∷ t) (d ∷ s) = if c == d then starts_with t s else false

pub starts_with-append : (t s : Bytes) → starts_with t s ≡ true → s ≡ t ++ drop (length t) s
starts_with-append [] s h = refl
starts_with-append (c ∷ t) [] h = cc
starts_with-append (c ∷ t) (d ∷ s) h = elim (Bool-cases (c == d)) [
  | inl same ↦
      ap₂ (λ x xs. x ∷ xs) (sym ((==_iff c d).0 same)) (starts_with-append t s (rw same at h))
  | inr other ↦ absurd (cc (rw other at h))
]

pub append-starts_with : (t s : Bytes) → starts_with t (t ++ s) ≡ true
append-starts_with [] s = refl
append-starts_with (c ∷ t) s = ground (arith, append-starts_with t s)
