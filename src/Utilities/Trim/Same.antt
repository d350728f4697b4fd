-- ===== src/Utilities/Trim/Same.antt =====
-- The two ways to trim, on the same text.
use mathlib.Core.List.{reverse, reverse-cons, reverse-append}
use exchange_connectivity.Base.{
  ℕ, zero, suc, ◌+◌, ◌-◌, ◌^◌, ◌≤◌, ◌<◌, ◌≡◌, refl, sym, ap, ◌∙◌, Bool, true, false, Bool-cases,
  inl, inr, [], ◌∷◌, ◌++◌, ◌==◌, if◌then◌else◌, arith, get_or, length, take, drop,
}
use exchange_connectivity.Base.Int.{wrap64}
use exchange_connectivity.Base.Text.{Bytes}
use exchange_connectivity.Utilities.Trim.{leading, step_back, trim_1, erase_blanks, trim_2}

abbrev all_blank : Bytes → Bool
all_blank [] = true
all_blank (c ∷ s) = if c == b' ' then all_blank s else false

abbrev put_front : ℕ → Bytes → Bytes
put_front c [] = if c == b' ' then [] else c ∷ []
put_front c (d ∷ s) = c ∷ d ∷ s

-- A text without the blanks at its end.
abbrev strip_end : Bytes → Bytes
strip_end [] = []
strip_end (c ∷ s) = put_front c (strip_end s)

abbrev put_back : Bytes → ℕ → Bytes
put_back [] c = if c == b' ' then [] else c ∷ []
put_back (d ∷ s) c = d ∷ (s ++ c ∷ [])

erase_blanks-end : (s : Bytes) (c : ℕ) → erase_blanks (s ++ c ∷ []) ≡ put_back (erase_blanks s) c
unfolding erase_blanks
erase_blanks-end [] c = refl
erase_blanks-end (d ∷ s) c = elim (Bool-cases (d == b' ')) [
  | inl blank ↦ rw blank (erase_blanks-end s c)
  | inr other ↦ rw other refl
]

put_front-end : (c : ℕ) (s : Bytes) (d : ℕ) → put_front c (s ++ d ∷ []) ≡ c ∷ (s ++ d ∷ [])
put_front-end c [] d = refl
put_front-end c (x ∷ s) d = refl

reverse-put_back : (s : Bytes) (c : ℕ) → reverse (put_back s c) ≡ put_front c (reverse s)
reverse-put_back [] c = elim (Bool-cases (c == b' ')) [
  | inl blank ↦ rw blank refl
  | inr other ↦ rw other refl
]
reverse-put_back (d ∷ s) c =
    reverse-append (d ∷ s) (c ∷ [])
    ∙ sym (
        ap (put_front c) (reverse-cons d s)
        ∙ (put_front-end c (reverse s) d ∙ ap (λ t. c ∷ t) (sym (reverse-cons d s))))

reverse-erase_blanks : (s : Bytes) → reverse (erase_blanks (reverse s)) ≡ strip_end s
unfolding erase_blanks
reverse-erase_blanks [] = refl
reverse-erase_blanks (c ∷ s) =
    ap (λ t. reverse (erase_blanks t)) (reverse-cons c s)
    ∙ (ap reverse (erase_blanks-end (reverse s) c)
        ∙ (reverse-put_back (erase_blanks (reverse s)) c
            ∙ ap (put_front c) (reverse-erase_blanks s)))

strip_end-blank : (s : Bytes) → all_blank s ≡ true → strip_end s ≡ []
strip_end-blank [] h = refl
strip_end-blank (c ∷ s) h = elim (Bool-cases (c == b' ')) [
  | inl blank ↦ rw (strip_end-blank s (rw blank at h), blank) refl
  | inr other ↦ absurd (cc (rw other at h))
]

-- Where something is left, it stays behind a character.
put_front-strip_end :
    (c : ℕ) (s : Bytes) → all_blank s ≡ false → put_front c (strip_end s) ≡ c ∷ strip_end s
put_front-strip_end c [] h = absurd (cc h)
put_front-strip_end c (d ∷ s) h = elim (Bool-cases (all_blank s)) [
  | inl blank ↦
      let left : (d == b' ') ≡ false = ground (arith, h, blank) in
      rw (strip_end-blank s blank, left) refl
  | inr left ↦
      ap (put_front c) (put_front-strip_end d s left)
      ∙ ap (λ t. c ∷ t) (sym (put_front-strip_end d s left))
]

all_blank-take :
    (s : Bytes) (n : ℕ)
    → n < length s
    → all_blank (take (suc n) s) ≡ (if all_blank (take n s) then get_or s n 0 == b' ' else false)
all_blank-take [] n h = elim h [ ]
all_blank-take (c ∷ s) zero h = ground arith
all_blank-take (c ∷ s) (suc n) h = ground (arith, all_blank-take s n (omega arith))

-- The search from the end goes past the first character only where all behind it are blanks.
step_back-cons :
    (c : ℕ) (s : Bytes) (n : ℕ)
    → n ≤ length s
    → step_back (c ∷ s) (suc n) ≡ (if all_blank (take n s) then 0 else suc (step_back s n))
unfolding step_back
step_back-cons c s zero h = ground arith
step_back-cons c s (suc n) h =
    let ih = step_back-cons c s n (omega arith) in
    let blanks = all_blank-take s n (omega arith) in
    elim (Bool-cases (get_or s n 0 == b' ')) [
      | inl blank ↦ ground (arith, ih, blanks, blank)
      | inr other ↦ ground (arith, blanks, other)
    ]

take_all : (s : Bytes) → take (length s) s ≡ s
take_all [] = refl
take_all (c ∷ s) = ap (λ t. c ∷ t) (take_all s)

step_back-whole :
    (c : ℕ) (s : Bytes)
    → step_back (c ∷ s) (suc (length s)) ≡ (if all_blank s then 0 else suc (step_back s (length s)))
step_back-whole c s =
    step_back-cons c s (length s) (omega arith)
    ∙ ap (λ t. if all_blank t then 0 else suc (step_back s (length s))) (take_all s)

-- The characters up to the one where the search from the end stops.
kept : (s : Bytes) → all_blank s ≡ false → take (suc (step_back s (length s))) s ≡ strip_end s
kept [] h = absurd (cc h)
kept (c ∷ s) h = elim (Bool-cases (all_blank s)) [
  | inl blank ↦
      let left : (c == b' ') ≡ false = ground (arith, h, blank) in
      rw (step_back-whole c s, blank, strip_end-blank s blank, left) refl
  | inr left ↦
      rw (step_back-whole c s, left)
        (ap (λ t. c ∷ t) (kept s left) ∙ sym (put_front-strip_end c s left))
]

behind_blanks :
    (s : Bytes)
    → all_blank s ≡ false
    → (leading s ≤ step_back s (length s))
      × (take (suc (step_back s (length s) - leading s)) (drop (leading s) s)
          ≡ strip_end (erase_blanks s))
unfolding leading erase_blanks
behind_blanks [] h = absurd (cc h)
behind_blanks (c ∷ s) h = elim (Bool-cases (c == b' ')) [
  | inl blank ↦
      let left : all_blank s ≡ false = rw blank at h in
      let ih = behind_blanks s left in
      rw (step_back-whole c s, left, blank)
        (omega (arith, ih.0), ap (λ k. take (suc k) (drop (leading s) s)) (omega arith) ∙ ih.1)
  | inr other ↦
      rw other (omega arith, ap (λ k. take (suc k) (c ∷ s)) (omega arith) ∙ kept (c ∷ s) h)
]

drop-leading : (s : Bytes) → drop (leading s) s ≡ erase_blanks s
unfolding leading erase_blanks
drop-leading [] = refl
drop-leading (c ∷ s) = elim (Bool-cases (c == b' ')) [
  | inl blank ↦ rw blank (drop-leading s)
  | inr other ↦ rw other refl
]

erase_blanks-blank : (s : Bytes) → all_blank s ≡ true → erase_blanks s ≡ []
unfolding erase_blanks
erase_blanks-blank [] h = refl
erase_blanks-blank (c ∷ s) h = elim (Bool-cases (c == b' ')) [
  | inl blank ↦ rw blank (erase_blanks-blank s (rw blank at h))
  | inr other ↦ absurd (cc (rw other at h))
]

take_nil : (n : ℕ) → take {A = ℕ} n [] ≡ []
take_nil zero = refl
take_nil (suc n) = refl

step_back_le : (s : Bytes) (n : ℕ) → step_back s n ≤ n
unfolding step_back
step_back_le s zero = omega arith
step_back_le s (suc n) = ground (arith, step_back_le s n)

step_back_lt : (s : Bytes) → all_blank s ≡ false → step_back s (length s) < length s
unfolding step_back
step_back_lt [] h = absurd (cc h)
step_back_lt (c ∷ s) h = ground (arith, step_back_le (c ∷ s) (length s))

size_wraps :
    (end beg n : ℕ)
    → beg ≤ end
    → end < n
    → n < 2 ^ 64
    → wrap64 (end + 2 ^ 64 - beg + 1) ≡ suc (end - beg)
size_wraps end beg n h k w = omega arith

-- On a text of fewer than 2 ^ 64 characters, `trim_1` and `trim_2` give the same.
pub trim_1-trim_2 : (s : Bytes) → length s < 2 ^ 64 → trim_1 s ≡ trim_2 s
unfolding trim_1 trim_2
trim_1-trim_2 s h = elim (Bool-cases (all_blank s)) [
  | inl blank ↦
      let nothing = drop-leading s ∙ erase_blanks-blank s blank in
      rw (nothing, erase_blanks-blank s blank) (take_nil _)
  | inr left ↦
      let (before_end, same) = behind_blanks s left in
      let size =
        size_wraps (step_back s (length s)) (leading s) (length s) before_end (step_back_lt s left)
          h in
      ap (λ n. take n (drop (leading s) s)) size
      ∙ (same ∙ sym (reverse-erase_blanks (erase_blanks s)))
]
