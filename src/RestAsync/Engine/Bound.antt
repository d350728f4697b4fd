-- ===== src/RestAsync/Engine/Bound.antt =====
-- How many completions a request and its redirects can take.
use exchange_connectivity.Base.{
  ℕ, ◌+◌, ◌*◌, ◌≤◌, ◌<◌, ◌≡◌, refl, List, [], ◌∷◌, Option, none, some, arith, get_elem?, ◌==◌,
  if◌then◌else◌, is, within, weigh, total, total-replace_at,
}
use exchange_connectivity.RestAsync.{ClientConfig}
use exchange_connectivity.RestAsync.Engine.{
  Phase, resolving, connecting, handshaking, writing, reading, Request, Outcome, Completion,
  start_request, complete,
}
use exchange_connectivity.RestAsync.Engine.Single.{
  rank, life, awaits, start-life, start-Fair, complete-Fair, complete-life,
}
use exchange_connectivity.RestAsync.Engine.Schedule.{
  Event, submits, completes, System, initial, submitted, settle, completed, total-added, step, run,
}

module _ (config : ClientConfig) where
  -- 1 where the outcome is one of a request with that handler.
  abbrev took : ℕ → Request → Option Outcome → ℕ
  took t r none = 0
  took t r (some o) = is t r.handler

  abbrev takes_at : ℕ → Completion → System → Option Request → ℕ
  takes_at t c s none = 0
  takes_at t c s (some r) = took t r (complete config r.phase c r s.pool)

  -- Whether the event is a completion that a request with the handler takes.
  abbrev takes : ℕ → Event → System → ℕ
  takes t (submits r) s = 0
  takes t (completes k c) s = takes_at t c s (get_elem? s.active k)

  -- How many completions the requests of a handler take over a run.
  unfoldable pub rounds : ℕ → List Event → System → ℕ
  unfolding step
  rounds t [] s = 0
  rounds t (e ∷ es) s = takes t e s + rounds t es (step config e s).0

  abbrev weight : ℕ → Request → ℕ
  weight t r = if t == r.handler then life config r else 0

  weight-drop :
      (t : ℕ) (r : Request) (o : Option Request)
      → weigh (awaits t) o ≤ is t r.handler
      → weigh (life config) o < life config r
      → weigh (weight t) o + is t r.handler ≤ weight t r
  weight-drop t r none same shorter = ground arith
  weight-drop t r (some r') same shorter = ground arith

  weight-start :
      (t : ℕ) (r : Request) (o : Option Request) (bound : ℕ)
      → weigh (awaits t) o ≤ is t r.handler
      → weigh (life config) o ≤ bound
      → weigh (weight t) o ≤ bound * is t r.handler
  weight-start t r none bound same short = omega arith
  weight-start t r (some r') bound same short = ground arith

  -- The most completions that one request takes, with all its redirects.
  abbrev pub most : ℕ
  most = 5 * (config.max_redirects + 1)

  abbrev Spends : ℕ → ℕ → System → System → Type 0
  Spends t n s s' =
      n + total (weight t) s'.active + most * within t s.given
      ≤ total (weight t) s.active + most * within t s'.given

  settle-Spends :
      (t k : ℕ) (c : Completion) (s : System) (r : Request) (o : Option Outcome)
      → get_elem? s.active k ≡ some r
      → complete config r.phase c r s.pool ≡ o
      → Spends t (took t r o) s (settle config k s o).0
  settle-Spends t k c s r none e h = omega arith
  settle-Spends t k c s r (some o) e h =
      let v = complete-Fair config 0 t r.phase c r s.pool o h in
      omega (
        arith,
        weight-drop t r o.request (omega (arith, v.handlers)) (complete-life config c r s.pool o h),
        total-replace_at (weight t) s.active k r o.request e,
      )

  completed-Spends :
      (t k : ℕ) (c : Completion) (s : System) (r : Option Request)
      → get_elem? s.active k ≡ r
      → Spends t (takes_at t c s r) s (completed config k c s r).0
  completed-Spends t k c s none e = omega arith
  completed-Spends t k c s (some r) e =
      settle-Spends t k c s r (complete config r.phase c r s.pool) e refl

  step-Spends : (t : ℕ) (e : Event) (s : System) → Spends t (takes t e s) s (step config e s).0
  unfolding step
  step-Spends t (completes k c) s = completed-Spends t k c s (get_elem? s.active k) refl
  step-Spends t (submits r) s =
      let r' = submitted config r s in
      let o = start_request config r' s.pool in
      let v = start-Fair config 0 t r' s.pool in
      let light =
        weight-start t r' o.request most (omega (arith, v.handlers))
          (omega (arith, start-life config r' s.pool)) in
      ground (arith, light, total-added config (weight t) o.request s.active)

  run-Spends :
      (t : ℕ) (es : List Event) (s : System) → Spends t (rounds t es s) s (run config es s).0
  unfolding run rounds
  run-Spends t [] s = omega arith
  run-Spends t (e ∷ es) s = omega (arith, step-Spends t e s, run-Spends t es (step config e s).0)

  awaits-le-weight : (t : ℕ) (rs : List Request) → total (awaits t) rs ≤ total (weight t) rs
  awaits-le-weight t [] = omega arith
  awaits-le-weight t (r ∷ rs) =
      let one = alive r.phase in ground (arith, awaits-le-weight t rs, one)
    where
      alive : (p : Phase) → 0 < rank p
      alive resolving = omega arith
      alive connecting = omega arith
      alive handshaking = omega arith
      alive (writing c) = omega arith
      alive (reading c) = omega arith

  -- Over any requests and completions, in any order, the requests made for one handler, with all the
  -- redirects that are followed, take five completions for each of the redirects allowed and five more
  -- at most, and one less while the handler is still to be called: who has taken so many is answered.
  pub rounds_bounded :
      (es : List Event) (t : ℕ)
      → rounds t es initial + total (awaits t) (run config es initial).0.active
        ≤ 5 * (config.max_redirects + 1)
  rounds_bounded es t =
      ground (arith, run-Spends t es initial, awaits-le-weight t (run config es initial).0.active)
