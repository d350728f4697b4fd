-- ===== src/Pools/Ring/Threads/Queue.antt =====
-- What the calls on a bounded queue may return, one after the other.
use exchange_connectivity.Base.{ℕ, ◌<◌, ◌≡◌, sym, subst, List, [], ◌∷◌, ◌++◌, length}
use exchange_connectivity.Pools.Ring.Threads.{Outcome, accepted, refused, taken, found_empty}

module _ {A : Type 0} (capacity : ℕ) where
  -- What a bounded queue does when a call returns.
  abbrev pub Allowed : Outcome A → List A → List A → Type 0
  Allowed (accepted x) q q' = (length q < capacity) × (q' ≡ q ++ x ∷ [])
  Allowed (refused x) q q' = (length q ≡ capacity) × (q' ≡ q)
  Allowed (taken x) q q' = q ≡ x ∷ q'
  Allowed found_empty q q' = (q ≡ []) × (q' ≡ q)

  -- The outcomes, in order, on a queue that holds the first list before them and the second behind them.
  abbrev pub Follows : List (Outcome A) → List A → List A → Type 0
  Follows [] q q' = q ≡ q'
  Follows (o ∷ os) q q' = (m : List A) × Allowed o q m × Follows os m q'

  pub Follows-append :
      (os ps : List (Outcome A)) (q m q' : List A)
      → Follows os q m
      → Follows ps m q'
      → Follows (os ++ ps) q q'
  Follows-append [] ps q m q' h k = subst (λ l. Follows ps l q') (sym h) k
  Follows-append (o ∷ os) ps q m q' (n, allowed, h) k =
      (n, allowed, Follows-append os ps n m q' h k)
