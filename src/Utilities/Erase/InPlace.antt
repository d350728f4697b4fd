-- ===== src/Utilities/Erase/InPlace.antt =====
-- Moving within the text against a filter.
use exchange_connectivity.Base.{
  ℕ, suc, ◌+◌, ◌<◌, ◌≡◌, refl, sym, ap, ap₂, ◌∙◌, Bool, true, false, ◌||◌, Bool-cases, inl, inr, [],
  ◌∷◌, ◌++◌, append-nil, append_assoc, some, arith, length, ◌==◌, get_or, set, take, All,
  length-append, if◌then◌else◌,
}
use exchange_connectivity.Base.Text.{Bytes}
use exchange_connectivity.Utilities.Erase.{to_exclude, move_chars, remove_chars_from_string}

abbrev is_excluded : ℕ → Bool
is_excluded c = c == 9 || c == 10 || c == 13

-- What is left without the tabs, the line feeds and the carriage returns.
abbrev pub without_controls : Bytes → Bytes
without_controls [] = []
without_controls (c ∷ s) = if is_excluded c then without_controls s else c ∷ without_controls s

abbrev pub IsAscii : ℕ → Type 0
IsAscii c = c < 128

get_or-behind : (xs ys : Bytes) (c : ℕ) → get_or (xs ++ c ∷ ys) (length xs) 0 ≡ c
get_or-behind [] ys c = refl
get_or-behind (x ∷ xs) ys c = get_or-behind xs ys c

set-behind : (xs ys : Bytes) (c d : ℕ) → set (xs ++ d ∷ ys) (length xs) c ≡ xs ++ c ∷ ys
set-behind [] ys c d = refl
set-behind (x ∷ xs) ys c d = ap (λ t. x ∷ t) (set-behind xs ys c d)

take-front : (xs ys : Bytes) → take (length xs) (xs ++ ys) ≡ xs
take-front [] [] = refl
take-front [] (y ∷ ys) = refl
take-front (x ∷ xs) ys = ap (λ t. x ∷ t) (take-front xs ys)

read_next :
    (moved gap rest : Bytes) (c : ℕ)
    → get_or (moved ++ (gap ++ c ∷ rest)) (length moved + length gap) 0 ≡ c
read_next moved gap rest c =
    ap₂ (λ (t : Bytes) (k : ℕ). get_or t k 0) (sym (append_assoc moved gap (c ∷ rest)))
      (sym (length-append moved gap))
    ∙ get_or-behind (moved ++ gap) rest c

in_table : (c : ℕ) → c < 128 → to_exclude c ≡ some (is_excluded c)
unfolding to_exclude
in_table c here = ground (arith, here)

-- One pass of the loop.
pass_excluded :
    (n at index c : ℕ) (str : Bytes)
    → get_or str at 0 ≡ c
    → c < 128
    → is_excluded c ≡ true
    → move_chars (suc n) at str index ≡ move_chars n (at + 1) str index
unfolding move_chars
pass_excluded n at index c str e here out = rw (move_chars, e, in_table c here, out) refl

pass_kept :
    (n at index c : ℕ) (str : Bytes)
    → get_or str at 0 ≡ c
    → c < 128
    → is_excluded c ≡ false
    → move_chars (suc n) at str index ≡ move_chars n (at + 1) (set str index c) (index + 1)
unfolding move_chars
pass_kept n at index c str e here stays =
    rw (move_chars, e, in_table c here, stays)
      (ap (λ d. move_chars n (at + 1) (set str index d) (index + 1)) e)

-- The text after a character was moved over the gap.
after_gap : (c : ℕ) (gap : Bytes) → Bytes
after_gap c [] = []
after_gap c (g ∷ gap) = gap ++ c ∷ []

set_over :
    (moved gap rest : Bytes) (c : ℕ)
    → set (moved ++ (gap ++ c ∷ rest)) (length moved) c
      ≡ (moved ++ c ∷ []) ++ (after_gap c gap ++ rest)
unfolding after_gap
set_over moved [] rest c = set-behind moved rest c c ∙ sym (append_assoc moved (c ∷ []) rest)
set_over moved (g ∷ gap) rest c =
    set-behind moved (gap ++ c ∷ rest) c g
    ∙ ap (λ t. moved ++ c ∷ t) (sym (append_assoc gap (c ∷ []) rest))
    ∙ sym (append_assoc moved (c ∷ []) ((gap ++ c ∷ []) ++ rest))

length-after_gap : (c : ℕ) (gap : Bytes) → length (after_gap c gap) ≡ length gap
unfolding after_gap
length-after_gap c [] = refl
length-after_gap c (g ∷ gap) = omega (arith, length-append gap (c ∷ []))

-- The characters moved, a gap that they leave behind, and those that are still to be read.
move-filter :
    (rest moved gap str : Bytes) (at index : ℕ)
    → str ≡ moved ++ (gap ++ rest)
    → at ≡ length moved + length gap
    → index ≡ length moved
    → All IsAscii rest
    → (behind : Bytes) × (move_chars (length rest) at str index
        ≡ some
            ((moved ++ without_controls rest) ++ behind, length (moved ++ without_controls rest)))
unfolding move_chars
move-filter [] moved gap str at index layout here moved_to ascii =
    (gap, cc (layout, moved_to, append-nil gap, append-nil moved))
move-filter (c ∷ rest) moved gap str at index layout here moved_to (small, ascii) =
    let read : get_or str at 0 ≡ c = cc (layout, here, read_next moved gap rest c) in
    elim (Bool-cases (is_excluded c)) [
      | inl out ↦ rw out (
          let (behind, done) =
            move-filter rest moved (gap ++ c ∷ []) str (at + 1) index
              (layout ∙ ap (λ t. moved ++ t) (sym (append_assoc gap (c ∷ []) rest)))
              (omega (arith, here, length-append gap (c ∷ []))) moved_to ascii in
          (behind, pass_excluded (length rest) at index c str read small out ∙ done))
      | inr stays ↦ rw stays (
          let (behind, done) =
            move-filter rest (moved ++ c ∷ []) (after_gap c gap) (set str index c) (at + 1)
              (index + 1)
              (ap₂ (λ (t : Bytes) (k : ℕ). set t k c) layout moved_to ∙ set_over moved gap rest c)
              (omega (arith, here, length-append moved (c ∷ []), length-after_gap c gap))
              (omega (arith, moved_to, length-append moved (c ∷ []))) ascii in
          (
            behind,
            pass_kept (length rest) at index c str read small stays
                ∙ done
                ∙ ap (λ t. some (t ++ behind, length t))
                    (append_assoc moved (c ∷ []) (without_controls rest)),
          ))
    ]

-- A text of characters below 128 is left without its tabs, line feeds and carriage returns, the others in their
-- order, although each is moved within the text that is still being read.
pub remove_chars_from_string-filters :
    (s : Bytes) → All IsAscii s → remove_chars_from_string s ≡ some (without_controls s)
unfolding remove_chars_from_string
remove_chars_from_string-filters s ascii =
    let (behind, done) = move-filter s [] [] s 0 0 refl refl refl ascii in
    rw done (ap some (take-front (without_controls s) behind))
