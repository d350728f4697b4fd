-- ===== src/Base/Count.antt =====
-- How often a number stands in a list, and a list with one element replaced.
use Prim.Native.Nat.{ℕ, zero, suc, ◌+◌, ◌≤◌}
use mathlib.Core.Path.{◌≡◌, ap}
use mathlib.Core.Option.{Option, none, some}
use mathlib.Core.List.{List, [], ◌∷◌, ◌++◌}
use native.Mathlib.Omega.{arith}
use exchange_connectivity.Base.Tests.{ltb, ◌==◌, if◌then◌else◌}
use exchange_connectivity.Base.Lists.{get_elem?}

-- 1 where the numbers are the same, and where the first is below the second.
abbrev pub is : ℕ → ℕ → ℕ
is i j = if i == j then 1 else 0

abbrev pub within : ℕ → ℕ → ℕ
within i n = if ltb i n then 1 else 0

abbrev pub count : ℕ → List ℕ → ℕ
count i [] = 0
count i (j ∷ js) = is i j + count i js

pub count-append : (i : ℕ) (xs ys : List ℕ) → count i (xs ++ ys) ≡ count i xs + count i ys
count-append i [] ys = omega arith
count-append i (x ∷ xs) ys = omega (arith, count-append i xs ys)

pub is_self : (i : ℕ) → is i i ≡ 1
is_self i = ground arith

pub is-le : (i j : ℕ) → is i j ≤ 1
is-le i j = ground arith

-- The element at a place replaced, or taken out.
module _ {A : Type 0} where
  abbrev pub replace_at : List A → ℕ → Option A → List A
  replace_at [] k o = []
  replace_at (x ∷ xs) zero none = xs
  replace_at (x ∷ xs) zero (some y) = y ∷ xs
  replace_at (x ∷ xs) (suc k) o = x ∷ replace_at xs k o

  abbrev pub total : (A → ℕ) → List A → ℕ
  total f [] = 0
  total f (x ∷ xs) = f x + total f xs

  abbrev pub weigh : (A → ℕ) → Option A → ℕ
  weigh f none = 0
  weigh f (some x) = f x

  pub total-replace_at :
      (f : A → ℕ) (xs : List A) (k : ℕ) (x : A) (o : Option A)
      → get_elem? xs k ≡ some x
      → total f (replace_at xs k o) + f x ≡ total f xs + weigh f o
  total-replace_at f [] k x o e = cc
  total-replace_at f (y ∷ xs) zero x none e = let same : y ≡ x = cc in omega (arith, ap f same)
  total-replace_at f (y ∷ xs) zero x (some z) e = let same : y ≡ x = cc in omega (arith, ap f same)
  total-replace_at f (y ∷ xs) (suc k) x o e = omega (arith, total-replace_at f xs k x o e)

  pub total-append : (f : A → ℕ) (xs ys : List A) → total f (xs ++ ys) ≡ total f xs + total f ys
  total-append f [] ys = omega arith
  total-append f (x ∷ xs) ys = omega (arith, total-append f xs ys)
