-- ===== src/RestAsync/Engine/Schedule.antt =====
-- Many requests at once, over any order of their completions.
use exchange_connectivity.Base.{
  ℕ, ◌+◌, ◌≤◌, ◌≡◌, refl, List, [], ◌∷◌, ◌++◌, Option, none, some, arith, length, get_elem?, within,
  count, weigh, total, total-append, total-replace_at, replace_at,
}
use exchange_connectivity.RestAsync.{ClientConfig}
use exchange_connectivity.RestAsync.Engine.{
  Request, Effect, Pool, Outcome, Completion, start_request, complete,
}
use exchange_connectivity.RestAsync.Engine.Single.{
  calls, shutdowns, calls-append, shutdowns-append, holds, awaits, start-Fair, complete-Fair,
}

-- A request is made, or one in flight, by its place, takes a completion.
pub data Event : Type 0 where
  submits : Request → Event
  completes : ℕ → Completion → Event

-- The pool, the requests in flight, and how many handlers were given.
pub record System : Type 0 where
  pub pool : Pool
  pub active : List Request
  pub given : ℕ

abbrev pub initial : System
initial = record { pool = record { made = 0; idle = [] }; active = []; given = 0 }

module _ (config : ClientConfig) where
  abbrev pub added : Option Request → List Request → List Request
  added none rs = rs
  added (some r) rs = rs ++ r ∷ []

  -- The request gets the next handler, and begins with no redirect behind it.
  abbrev pub submitted : Request → System → Request
  submitted r s = record r { handler = s.given; redirect_count = 0 }

  abbrev pub settle : ℕ → System → Option Outcome → System × List Effect
  settle k s none = (s, [])
  settle k s (some o) =
      (record s { pool = o.pool; active = replace_at s.active k o.request }, o.effects)

  abbrev pub completed : ℕ → Completion → System → Option Request → System × List Effect
  completed k c s none = (s, [])
  completed k c s (some r) = settle k s (complete config r.phase c r s.pool)

  unfoldable pub step : Event → System → System × List Effect
  step (submits r) s =
      let o = start_request config (submitted r s) s.pool in
      (record { pool = o.pool; active = added o.request s.active; given = s.given + 1 }, o.effects)
  step (completes k c) s = completed k c s (get_elem? s.active k)

  unfoldable pub run : List Event → System → System × List Effect
  unfolding step
  run [] s = (s, [])
  run (e ∷ es) s =
      let (s', effects) = step e s in let (s'', others) = run es s' in (s'', effects ++ others)

  -- The sums over the effects of a step and over the states on both sides.
  record Kept (n t : ℕ) (s : System) (r : System × List Effect) : Type 0 where
    pub connections :
        shutdowns n r.1 + count n r.0.pool.idle + total (holds n) r.0.active + within n s.pool.made
        ≡ count n s.pool.idle + total (holds n) s.active + within n r.0.pool.made
    pub handlers :
        calls t r.1 + total (awaits t) r.0.active + within t s.given
        ≡ total (awaits t) s.active + within t r.0.given
    pub bounded :
        length s.pool.idle ≤ config.max_pool_size → length r.0.pool.idle ≤ config.max_pool_size

  pub total-added :
      (f : Request → ℕ) (o : Option Request) (rs : List Request)
      → total f (added o rs) ≡ total f rs + weigh f o
  total-added f none rs = omega arith
  total-added f (some r) rs = omega (arith, total-append f rs (r ∷ []))

  submit-Kept : (n t : ℕ) (r : Request) (s : System) → Kept n t s (step (submits r) s)
  unfolding step
  submit-Kept n t r s =
      let r' = submitted r s in
      let o = start_request config r' s.pool in
      let v = start-Fair config n t r' s.pool in
      record {
        connections = omega (arith, v.connections, total-added (holds n) o.request s.active);
        handlers = ground (arith, v.handlers, total-added (awaits t) o.request s.active);
        bounded = v.bounded;
      }

  idle-Kept : (n t : ℕ) (s : System) → Kept n t s (s, [])
  idle-Kept n t s = record { connections = omega arith; handlers = omega arith; bounded = λ h. h }

  settle-Kept :
      (n t k : ℕ) (c : Completion) (s : System) (r : Request) (o : Option Outcome)
      → get_elem? s.active k ≡ some r
      → complete config r.phase c r s.pool ≡ o
      → Kept n t s (settle k s o)
  settle-Kept n t k c s r none e h = idle-Kept n t s
  settle-Kept n t k c s r (some o) e h =
      let v = complete-Fair config n t r.phase c r s.pool o h in
      record {
        connections =
            omega (arith, v.connections, total-replace_at (holds n) s.active k r o.request e);
        handlers = omega (arith, v.handlers, total-replace_at (awaits t) s.active k r o.request e);
        bounded = v.bounded;
      }

  completed-Kept :
      (n t k : ℕ) (c : Completion) (s : System) (r : Option Request)
      → get_elem? s.active k ≡ r
      → Kept n t s (completed k c s r)
  completed-Kept n t k c s none e = idle-Kept n t s
  completed-Kept n t k c s (some r) e =
      settle-Kept n t k c s r (complete config r.phase c r s.pool) e refl

  step-Kept : (n t : ℕ) (e : Event) (s : System) → Kept n t s (step e s)
  unfolding step
  step-Kept n t (submits r) s = submit-Kept n t r s
  step-Kept n t (completes k c) s = completed-Kept n t k c s (get_elem? s.active k) refl

  run-Kept : (n t : ℕ) (es : List Event) (s : System) → Kept n t s (run es s)
  unfolding run
  run-Kept n t [] s = idle-Kept n t s
  run-Kept n t (e ∷ es) s =
      let v = step-Kept n t e s in
      let w = run-Kept n t es (step e s).0 in
      record {
        connections = omega (
          arith,
          v.connections,
          w.connections,
          shutdowns-append n (step e s).1 (run es (step e s).0).1,
        );
        handlers =
            omega
              (arith, v.handlers, w.handlers, calls-append t (step e s).1 (run es (step e s).0).1);
        bounded = λ h. w.bounded (v.bounded h);
      }

  -- Over any requests and completions, in any order, each handler that was given has been called once,
  -- or its request is in flight once and it has not been called; no other is ever called.
  pub answered_once :
      (es : List Event) (t : ℕ)
      → let (s, effects) = run es initial in
        calls t effects + total (awaits t) s.active ≡ within t s.given
  answered_once es t = ground (arith, (run-Kept 0 t es initial).handlers)

  -- Over any requests and completions, in any order, each connection that was made is idle, or belongs
  -- to one request in flight, or was shut down, and only one of these and only once; and no more are
  -- idle than the configuration allows.
  pub connections_kept :
      (es : List Event) (n : ℕ)
      → let (s, effects) = run es initial in
        (shutdowns n effects + count n s.pool.idle + total (holds n) s.active
          ≡ within n s.pool.made)
        × (length s.pool.idle ≤ config.max_pool_size)
  connections_kept es n =
      let v = run-Kept n 0 es initial in (ground (arith, v.connections), v.bounded (omega arith))
