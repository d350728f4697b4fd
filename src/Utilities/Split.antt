-- ===== src/Utilities/Split.antt =====
-- `split` of utilities/StringUtilities.cpp with a delimiter that is a text, which `split_to` repeats. The
-- loop works on what is left of the text, behind `prev`.
pub mod Join
use exchange_connectivity.Base.{
  ℕ, zero, suc, List, [], ◌∷◌, Option, none, some, if◌then◌else◌, length, drop,
}
use exchange_connectivity.Base.Text.{Bytes, starts_with}

abbrev prepend : ℕ → Option (Bytes × Bytes) → Option (Bytes × Bytes)
prepend c none = none
prepend c (some (part, rest)) = some (c ∷ part, rest)

-- `str.find(delimiter, prev)`: what stands before the first delimiter, and behind it.
pub find : Bytes → Bytes → Option (Bytes × Bytes)
find delimiter [] = if starts_with delimiter [] then some ([], []) else none
find delimiter (c ∷ s) =
    let later = prepend c (find delimiter s) in
    if starts_with delimiter (c ∷ s) then some ([], drop (length delimiter) (c ∷ s)) else later

abbrev add_part : Bytes → Option (List Bytes) → Option (List Bytes)
add_part part none = none
add_part part (some parts) = some (part ∷ parts)

-- The loop on fuel, and nothing where it runs out.
pub split_loop : ℕ → Bytes → Bytes → Option (List Bytes)
split_loop zero delimiter str = none
split_loop (suc fuel) delimiter str = elim (find delimiter str) [
  | none ↦ some (str ∷ [])
  | some (part, rest) ↦ add_part part (split_loop fuel delimiter rest)
]
