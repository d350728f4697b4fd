-- ===== src/Utilities/Words/Pieces.antt =====
-- The words of a text against the pieces between its delimiters.
use exchange_connectivity.Base.{
  ℕ, zero, suc, ◌<◌, ◌≡◌, refl, sym, ap, ◌∙◌, false, Bool-cases, inl, inr, List, [], ◌∷◌, Option,
  none, some, arith, length, if◌then◌else◌,
}
use exchange_connectivity.Base.Text.{Bytes, is_empty}
use exchange_connectivity.Utilities.Words.{is_one_of, prepend, find_first_of, add_word, split_words}

-- Every piece between two delimiters, the first one apart.
abbrev pub pieces : Bytes → Bytes → Bytes × List Bytes
pieces delimiter [] = ([], [])
pieces delimiter (c ∷ s) =
    let (first, others) = pieces delimiter s in
    if is_one_of delimiter c then ([], first ∷ others) else (c ∷ first, others)

abbrev pub keep_full : List Bytes → List Bytes
keep_full [] = []
keep_full (part ∷ parts) = if is_empty part then keep_full parts else part ∷ keep_full parts

abbrev pub words : Bytes → Bytes → List Bytes
words delimiter s = keep_full ((pieces delimiter s).0 ∷ (pieces delimiter s).1)

-- What stands before the first delimiter is the first piece, and the others are those of what is behind.
abbrev Found : Bytes → Bytes → Bytes × Option Bytes → Type 0
Found delimiter s (part, none) = pieces delimiter s ≡ (part, [])
Found delimiter s (part, some rest) =
    (pieces delimiter s ≡ (part, (pieces delimiter rest).0 ∷ (pieces delimiter rest).1))
    × (length rest < length s)

Found-prepend :
    (delimiter s : Bytes) (c : ℕ) (r : Bytes × Option Bytes)
    → is_one_of delimiter c ≡ false
    → Found delimiter s r
    → Found delimiter (c ∷ s) (prepend c r)
Found-prepend delimiter s c (part, none) other found = rw (other, found) refl
Found-prepend delimiter s c (part, some rest) other (found, shorter) =
    (rw (other, found) refl, omega (arith, shorter))

find_first_of-Found : (delimiter s : Bytes) → Found delimiter s (find_first_of delimiter s)
unfolding find_first_of
find_first_of-Found delimiter [] = refl
find_first_of-Found delimiter (c ∷ s) = elim (Bool-cases (is_one_of delimiter c)) [
  | inl delim ↦ rw delim (rw delim refl, omega arith)
  | inr other ↦ rw other (
      Found-prepend delimiter s c (find_first_of delimiter s) other
        (find_first_of-Found delimiter s))
]

add_word-keep :
    (part : Bytes) (parts : List Bytes)
    → add_word part (some (keep_full parts)) ≡ some (keep_full (part ∷ parts))
add_word-keep [] parts = refl
add_word-keep (c ∷ part) parts = refl

words_of :
    (delimiter s : Bytes) (p : Bytes × List Bytes)
    → pieces delimiter s ≡ p
    → some (words delimiter s) ≡ add_word p.0 (some (keep_full p.1))
words_of delimiter s p e =
    ap (λ (q : Bytes × List Bytes). some (keep_full (q.0 ∷ q.1))) e ∙ sym (add_word-keep p.0 p.1)

-- One pass of the loop, the rest of which is right.
first_word :
    (fuel : ℕ) (delimiter : Bytes) (c : ℕ) (s : Bytes)
    → ((t : Bytes) → length t < fuel → split_words fuel delimiter t ≡ some (words delimiter t))
    → length (c ∷ s) < suc fuel
    → (r : Bytes × Option Bytes) → Found delimiter (c ∷ s) r
    → (elim r.1 [
      | none ↦ add_word r.0 (some [])
      | some behind ↦ add_word r.0 (split_words fuel delimiter behind)
    ])
      ≡ some (words delimiter (c ∷ s))
first_word fuel delimiter c s later enough (part, none) found =
    sym (words_of delimiter (c ∷ s) (part, []) found)
first_word fuel delimiter c s later enough (part, some rest) (found, shorter) =
    ap (add_word part) (later rest (omega (arith, shorter, enough)))
    ∙ sym (words_of delimiter (c ∷ s) (part, _) found)

-- With more fuel than the text is long, the loop gives the pieces between the delimiters that are not empty.
pub split_words-words :
    (fuel : ℕ) (delimiter s : Bytes)
    → length s < fuel
    → split_words fuel delimiter s ≡ some (words delimiter s)
unfolding split_words
split_words-words zero delimiter s enough = absurd (omega (arith, enough))
split_words-words (suc fuel) delimiter [] enough = refl
split_words-words (suc fuel) delimiter (c ∷ s) enough =
    first_word fuel delimiter c s (split_words-words fuel delimiter) enough
      (find_first_of delimiter (c ∷ s)) (find_first_of-Found delimiter (c ∷ s))
