-- ===== src/Utilities/Split/Join.antt =====
-- The parts of a text, put together again.
use exchange_connectivity.Base.{
  ℕ, zero, suc, ◌<◌, ◌≡◌, ◌≢◌, refl, ap, ◌∙◌, subst, append_assoc, true, false, List, [], ◌∷◌, ◌++◌,
  Option, none, some, arith, All, Bool-cases, Option-cases, inl, inr, length, length-append, drop,
}
use exchange_connectivity.Base.Text.{Bytes, starts_with, starts_with-append, append-starts_with}
use exchange_connectivity.Utilities.Split.{find, add_part, split_loop}

abbrev pub join : Bytes → List Bytes → Bytes
join delimiter [] = []
join delimiter (part ∷ []) = part
join delimiter (part ∷ other ∷ parts) = part ++ (delimiter ++ join delimiter (other ∷ parts))

-- The delimiter stands nowhere in the text.
abbrev pub Free : Bytes → Bytes → Type 0
Free delimiter s = (x y : Bytes) → s ≢ x ++ (delimiter ++ y)

empty-Free : (d : Bytes) → d ≢ [] → Free d []
empty-Free [] h x y e = absurd (h refl)
empty-Free (c ∷ d) h [] y e = cc
empty-Free (c ∷ d) h (b ∷ x) y e = cc

-- A text goes on to be free of the delimiter if it does not begin with it.
cons-Free :
    (d : Bytes) (c : ℕ) (s : Bytes) → starts_with d (c ∷ s) ≡ false → Free d s → Free d (c ∷ s)
cons-Free d c s h free [] y e =
    let begins : starts_with d (c ∷ s) ≡ true = ap (starts_with d) e ∙ append-starts_with d y in cc
cons-Free d c s h free (b ∷ x) y e = free x y (cc)

find-none : (d s : Bytes) → d ≢ [] → find d s ≡ none → Free d s
unfolding find
find-none d [] h e = empty-Free d h
find-none d (c ∷ s) h e = elim (Bool-cases (starts_with d (c ∷ s))) [
  | inl here ↦ absurd (cc (rw here at e))
  | inr later ↦ elim (Option-cases (find d s)) [
    | inl absent ↦ cons-Free d c s later (find-none d s h absent)
    | inr (pair, found) ↦ absurd (cc (rw (later, found) at e))
  ]
]

starts_with-longer : (t p q : Bytes) → starts_with t p ≡ true → starts_with t (p ++ q) ≡ true
starts_with-longer t p q h =
    let longer =
      ap (λ x. x ++ q) (starts_with-append t p h) ∙ append_assoc t (drop (length t) p) q in
    ap (starts_with t) longer ∙ append-starts_with t (drop (length t) p ++ q)

pair_of :
    (p r part rest : Bytes)
    → ◌≡◌ {A = Option (Bytes × Bytes)} (some (part, rest)) (some (p, r))
    → (part ≡ p) × (rest ≡ r)
pair_of p r part rest e = (cc, cc)

-- Where the text begins with the delimiter, the part is empty.
find-here :
    (d s p r : Bytes)
    → d ≢ []
    → starts_with d s ≡ true
    → ◌≡◌ {A = Option (Bytes × Bytes)} (some ([], drop (length d) s)) (some (p, r))
    → (s ≡ p ++ (d ++ r)) × Free d p
find-here d s p r h here e =
    let parts = pair_of p r [] (drop (length d) s) e in
    (
      cc (starts_with-append d s here, parts.0, parts.1),
      subst (λ part. Free d part) (parts.0) (empty-Free d h),
    )

-- Where it begins with another character, the part begins with this one.
find-later :
    (d : Bytes) (c : ℕ) (s p r part rest : Bytes)
    → starts_with d (c ∷ s) ≡ false
    → (s ≡ part ++ (d ++ rest)) × Free d part
    → ◌≡◌ {A = Option (Bytes × Bytes)} (some (c ∷ part, rest)) (some (p, r))
    → (c ∷ s ≡ p ++ (d ++ r)) × Free d p
find-later d c s p r part rest later (whole, free) e =
    let parts = pair_of p r (c ∷ part) rest e in
    let apart : starts_with d (c ∷ part) ≡ false = elim (Bool-cases (starts_with d (c ∷ part))) [
      | inl begins ↦ absurd (cc (starts_with-longer d (c ∷ part) (d ++ rest) begins, whole, later))
      | inr not_yet ↦ not_yet
    ] in
    (
      cc (whole, parts.0, parts.1),
      subst (λ part. Free d part) (parts.0) (cons-Free d c part apart free),
    )

starts_with-nil : (d : Bytes) → d ≢ [] → starts_with d [] ≡ false
starts_with-nil [] h = absurd (h refl)
starts_with-nil (c ∷ d) h = refl

find-some : (d s p r : Bytes) → d ≢ [] → find d s ≡ some (p, r) → (s ≡ p ++ (d ++ r)) × Free d p
unfolding find
find-some d [] p r h e = absurd (cc (rw (starts_with-nil d h) at e))
find-some d (c ∷ s) p r h e = elim (Bool-cases (starts_with d (c ∷ s))) [
  | inl here ↦ find-here d (c ∷ s) p r h here (rw here at e)
  | inr later ↦ elim (Option-cases (find d s)) [
    | inl absent ↦ absurd (cc (rw (later, absent) at e))
    | inr ((part, rest), found) ↦
        find-later d c s p r part rest later (find-some d s part rest h found)
          (rw (later, found) at e)
  ]
]

-- What is left is shorter than the text.
rest_shorter : (d s p r : Bytes) → d ≢ [] → s ≡ p ++ (d ++ r) → length r < length s
rest_shorter [] s p r h e = absurd (h refl)
rest_shorter (c ∷ d) s p r h e =
    let whole = length-append p (c ∷ (d ++ r)) in
    let behind = length-append d r in rw e (omega arith)

-- The parts, when the loop has more fuel than the text has characters. There is at least one.
abbrev Split : Bytes → Bytes → Option (List Bytes) → Type 0
Split d s result =
    (first : Bytes) × (others : List Bytes) × (result ≡ some (first ∷ others))
    × (join d (first ∷ others) ≡ s)
    × All (λ part. Free d part) (first ∷ others)

add_part-Split :
    (d s p r : Bytes) (result : Option (List Bytes))
    → s ≡ p ++ (d ++ r)
    → Free d p
    → Split d r result
    → Split d s (add_part p result)
add_part-Split d s p r result whole free (first, others, found, joined, apart) =
    (p, first ∷ others, ap (add_part p) found, cc (whole, joined), (free, apart))

split_loop-Split :
    (fuel : ℕ) (d s : Bytes) → d ≢ [] → length s < fuel → Split d s (split_loop fuel d s)
unfolding split_loop
split_loop-Split zero d s h enough = absurd (omega arith)
split_loop-Split (suc fuel) d s h enough = elim (Option-cases (find d s)) [
  | inl absent ↦ rw (split_loop, absent) (s, [], refl, refl, (find-none d s h absent, tt))
  | inr ((p, r), found) ↦
      let parts = find-some d s p r h found in
      let shorter = rest_shorter d s p r h (parts.0) in
      rw (split_loop, found)
        (add_part-Split d s p r (split_loop fuel d r) (parts.0) (parts.1)
          (split_loop-Split fuel d r h (omega arith)))
]

-- For a delimiter that is not empty, the loop ends after at most one round more than the text has characters.
-- The parts that it returns give the text when the delimiter is put between them, and none of them has the
-- delimiter in it.
pub split_loop-joins :
    (d s : Bytes)
    → d ≢ []
    → (parts : List Bytes) × (split_loop (suc (length s)) d s ≡ some parts)
      × (join d parts ≡ s)
      × All (λ part. Free d part) parts
split_loop-joins d s h =
    let (first, others, found, joined, apart) =
      split_loop-Split (suc (length s)) d s h (omega arith) in
    (first ∷ others, found, joined, apart)
