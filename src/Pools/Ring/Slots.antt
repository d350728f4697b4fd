-- ===== src/Pools/Ring/Slots.antt =====
-- The slots of a ring as a window of consecutive cursors.
use native.Mathlib.Nat.{div-add-mod, mod-lt}
use exchange_connectivity.Base.{
  ℕ, zero, suc, ◌+◌, ◌-◌, ◌*◌, ◌/◌, ◌%◌, ◌≤◌, ◌<◌, ◌≡◌, ◌≢◌, refl, ap, ap₂, sym, ◌∙◌, List, [], ◌∷◌,
  ◌++◌, arith, get_or, set, length,
}

pub get_or-set_self :
    {A : Type 0} (xs : List A) (i : ℕ) (v d : A) → i < length xs → get_or (set xs i v) i d ≡ v
get_or-set_self [] i v d h = elim h [ ]
get_or-set_self (x ∷ xs) zero v d h = refl
get_or-set_self (x ∷ xs) (suc i) v d h = get_or-set_self xs i v d (omega arith)

pub get_or-set_ne :
    {A : Type 0} (xs : List A) (i j : ℕ) (v d : A) → i ≢ j → get_or (set xs i v) j d ≡ get_or xs j d
get_or-set_ne [] i j v d h = refl
get_or-set_ne (x ∷ xs) zero zero v d h = absurd (h refl)
get_or-set_ne (x ∷ xs) zero (suc j) v d h = refl
get_or-set_ne (x ∷ xs) (suc i) zero v d h = refl
get_or-set_ne (x ∷ xs) (suc i) (suc j) v d h = get_or-set_ne xs i j v d (λ e. h (ap suc e))

-- Two cursors less than a round apart have different slots.
quotients_apart : (c a b r k : ℕ) → 0 < k → k < c → c * b + r ≡ c * a + r + k → ⊥
quotients_apart c a zero r k p q e = grind arith
quotients_apart c zero (suc b) r k p q e = grind arith
quotients_apart c (suc a) (suc b) r k p q e = quotients_apart c a b r k p q (grind arith)

pub slots_apart : (c i j : ℕ) → i < j → j < i + c → i % c ≢ j % c
slots_apart c i j h k e =
    quotients_apart c (i / c) (j / c) (j % c) (j - i) (omega arith) (omega arith)
      (omega (arith, div-add-mod i c, div-add-mod j c, e))

module _ {A : Type 0} (capacity : ℕ) (blank : A) where
  -- The contents of `n` slots from cursor `i` on.
  abbrev pub window : List A → ℕ → ℕ → List A
  window buffer i zero = []
  window buffer i (suc n) = get_or buffer (i % capacity) blank ∷ window buffer (suc i) n

  -- A write at a cursor behind the window, less than a round on, leaves the window alone.
  pub window-set :
      (buffer : List A) (i n j : ℕ) (v : A)
      → i + n ≤ j
      → j < i + capacity
      → window (set buffer (j % capacity) v) i n ≡ window buffer i n
  window-set buffer i zero j v h k = refl
  window-set buffer i (suc n) j v h k =
      ap₂ (λ x xs. x ∷ xs)
        (get_or-set_ne buffer (j % capacity) (i % capacity) v blank
          (λ e. slots_apart capacity i j (omega arith) k (sym e)))
        (window-set buffer (suc i) n j v (omega arith) (omega arith))

  pub window-last :
      (buffer : List A) (i n : ℕ)
      → window buffer i (suc n) ≡ window buffer i n ++ get_or buffer ((i + n) % capacity) blank ∷ []
  window-last buffer i zero = ap (λ (k : ℕ). get_or buffer (k % capacity) blank ∷ []) (omega arith)
  window-last buffer i (suc n) =
      ap (λ xs. get_or buffer (i % capacity) blank ∷ xs)
        (window-last buffer (suc i) n
          ∙ ap (λ (k : ℕ). window buffer (suc i) n ++ get_or buffer (k % capacity) blank ∷ [])
              (omega arith))

  -- Writing the slot behind the window extends it.
  pub window-push :
      (buffer : List A) (i n : ℕ) (v : A)
      → length buffer ≡ capacity
      → n < capacity
      → window (set buffer ((i + n) % capacity) v) i (suc n) ≡ window buffer i n ++ v ∷ []
  window-push buffer i n v full room =
      window-last (set buffer ((i + n) % capacity) v) i n
      ∙ ap₂ (λ xs x. xs ++ x ∷ []) (window-set buffer i n (i + n) v (omega arith) (omega arith))
          (get_or-set_self buffer ((i + n) % capacity) v blank
            (rw full (mod-lt (i + n) (omega arith))))
