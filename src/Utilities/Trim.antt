-- ===== src/Utilities/Trim.antt =====
-- `trim_1` and `trim_2` of utilities/StringUtilities.cpp, which take the blanks off both ends of a text. An
-- index is a `size_t`, and `end - beg + 1` is taken modulo 2 ^ 64.
pub mod Same
use mathlib.Core.List.{reverse}
use exchange_connectivity.Base.{
  ℕ, zero, suc, ◌+◌, ◌-◌, ◌^◌, [], ◌∷◌, ◌==◌, if◌then◌else◌, get_or, length, take, drop,
}
use exchange_connectivity.Base.Int.{wrap64}
use exchange_connectivity.Base.Text.{Bytes}

-- The first loop of `trim_1`: `beg`.
pub leading : Bytes → ℕ
leading [] = 0
leading (c ∷ s) = let rest = leading s in if c == b' ' then suc rest else 0

-- The second loop, from `end`.
pub step_back : Bytes → ℕ → ℕ
step_back str zero = zero
step_back str (suc end) =
    let further = step_back str end in if get_or str end 0 == b' ' then further else end

pub trim_1 : Bytes → Bytes
trim_1 str =
    let beg = leading str in
    let end = step_back str (length str) in take (wrap64 (end + 2 ^ 64 - beg + 1)) (drop beg str)

-- `str.erase(0, str.find_first_not_of(' '))`.
pub erase_blanks : Bytes → Bytes
erase_blanks [] = []
erase_blanks (c ∷ s) = let rest = erase_blanks s in if c == b' ' then rest else c ∷ s

pub trim_2 : Bytes → Bytes
unfolding erase_blanks
trim_2 str = reverse (erase_blanks (reverse (erase_blanks str)))
