-- ===== src/Utilities/Erase.antt =====
-- `remove_chars_from_string` of utilities/StringUtilities.cpp, which moves the characters that stay to the front of
-- the text that it reads, and cuts the text there. The table that it looks a character up in has 256 places, and a
-- `char` above 127 is a negative index: then there is nothing.
pub mod InPlace
use exchange_connectivity.Base.{
  ℕ, zero, suc, ◌+◌, Bool, ◌||◌, List, Option, none, some, ltb, ◌==◌, get_or, set, take, length,
  if◌then◌else◌,
}
use exchange_connectivity.Base.Text.{Bytes}

pub to_exclude : ℕ → Option Bool
to_exclude c = if ltb c 128 then some (c == 9 || c == 10 || c == 13) else none

-- The text and `index`.
abbrev pub Moved : Type 0
Moved = Bytes × ℕ

abbrev pub move_char : ℕ → Bytes → ℕ → Option Bool → Option Moved
move_char c str index none = none
move_char c str index (some excluded) =
    some (if excluded then (str, index) else (set str index c, index + 1))

-- The loop over the `n` characters from `at` on, each read where it stands by then.
pub move_chars : ℕ → ℕ → Bytes → ℕ → Option Moved
unfolding to_exclude
move_chars zero at str index = some (str, index)
move_chars (suc n) at str index =
    elim (move_char (get_or str at 0) str index (to_exclude (get_or str at 0))) [
      | none ↦ none
      | some (str', index') ↦ move_chars n (at + 1) str' index'
    ]

abbrev cut : Option Moved → Option Bytes
cut none = none
cut (some (str, index)) = some (take index str)

pub remove_chars_from_string : Bytes → Option Bytes
unfolding move_chars
remove_chars_from_string str = cut (move_chars (length str) 0 str 0)
