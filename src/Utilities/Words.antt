-- ===== src/Utilities/Words.antt =====
-- `split` of utilities/StringUtilities.cpp with a delimiter that is a set of characters. The loop works on what is
-- left of the text, from `first` on.
pub mod Pieces
use exchange_connectivity.Base.{
  ℕ, zero, suc, Bool, true, false, ◌||◌, List, [], ◌∷◌, Option, none, some, ◌==◌, if◌then◌else◌,
}
use exchange_connectivity.Base.Text.{Bytes, is_empty}

unfoldable pub is_one_of : Bytes → ℕ → Bool
is_one_of [] c = false
is_one_of (d ∷ delimiter) c = c == d || is_one_of delimiter c

abbrev pub prepend : ℕ → Bytes × Option Bytes → Bytes × Option Bytes
prepend c (part, rest) = (c ∷ part, rest)

-- `input.find_first_of(delimiter, first)`: what stands before that character, and behind it where there is one.
pub find_first_of : Bytes → Bytes → Bytes × Option Bytes
unfolding is_one_of
find_first_of delimiter [] = ([], none)
find_first_of delimiter (c ∷ s) =
    let later = prepend c (find_first_of delimiter s) in
    if is_one_of delimiter c then ([], some s) else later

-- A part is kept unless it is empty.
abbrev pub add_word : Bytes → Option (List Bytes) → Option (List Bytes)
add_word part none = none
add_word part (some parts) = if is_empty part then some parts else some (part ∷ parts)

-- The loop on fuel, and nothing where it runs out.
pub split_words : ℕ → Bytes → Bytes → Option (List Bytes)
unfolding find_first_of
split_words zero delimiter input = none
split_words (suc fuel) delimiter [] = some []
split_words (suc fuel) delimiter (c ∷ input) =
    let (part, rest) = find_first_of delimiter (c ∷ input) in
    elim rest [
      | none ↦ add_word part (some [])
      | some behind ↦ add_word part (split_words fuel delimiter behind)
    ]
