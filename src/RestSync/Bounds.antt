-- ===== src/RestSync/Bounds.antt =====
-- How long a call follows redirects, and the age of the endpoints that it uses.
use exchange_connectivity.Base.{
  ℕ, ◌+◌, ◌-◌, ◌≤◌, ◌<◌, ◌≡◌, ◌⊎◌, refl, subst, true, false, List, [], ◌∷◌, ◌++◌, Option, none,
  some, Fallible, ok, err, Fallible-cases, length, length-append, All, All-append, arith,
  Bool-cases, inl, inr,
}
use exchange_connectivity.Base.Text.{Bytes}
use exchange_connectivity.RestAsync.{HttpResponse}
use exchange_connectivity.RestSync.{
  ClientConfig, Client, Call, Turn, Exchange, Done, ensure_endpoints_fresh, set_up, attempt,
  leads_on, following, after, execute, request,
}

module _ (config : ClientConfig) where
  -- The endpoints of an exchange were resolved no longer ago than the configured time.
  abbrev pub IsFresh : Exchange → Type 0
  IsFresh e = e.at - e.client.resolved_at ≤ config.dns_ttl

  -- The client's answer sends it on only where no redirect is left.
  abbrev pub IsLast : ℕ → Fallible Bytes HttpResponse → Type 0
  IsLast exchanges (err text) = Unit
  IsLast exchanges (ok out) = (leads_on config out ≡ false) ⊎ (exchanges ≡ config.max_redirects + 1)

  pub record Bounded (count : ℕ) (o : Option Done) : Type 0 where
    pub done : Done
    pub ends : o ≡ some done
    pub few : count + length done.exchanges ≤ config.max_redirects + 1
    pub fresh : All IsFresh done.exchanges
    pub last : IsLast (count + length done.exchanges) done.result

  pub record Attempted (d : Done) : Type 0 where
    pub one : length d.exchanges ≤ 1
    pub exchanged : (out : HttpResponse) → d.result ≡ ok out → length d.exchanges ≡ 1
    pub fresh : All IsFresh d.exchanges

  attempt-Attempted : (t : Turn) (call : Call) (c : Client) → Attempted (attempt config t call c)
  unfolding attempt ensure_endpoints_fresh set_up
  attempt-Attempted t call c = record {
    one = ground arith;
    exchanged = λ out e. ground arith;
    fresh = ground arith;
  }

  following-none :
      (call : Call) (count : ℕ) (out : HttpResponse)
      → following config call count out ≡ ok none
      → count ≤ config.max_redirects
      → leads_on config out ≡ true
      → count ≡ config.max_redirects
  unfolding following
  following-none call count out e few leads = ground arith

  stays-IsLast :
      (call : Call) (count : ℕ) (d : Done) (out : HttpResponse)
      → length d.exchanges ≡ 1
      → following config call count out ≡ ok none
      → count ≤ config.max_redirects
      → IsLast (count + length d.exchanges) (ok out)
  stays-IsLast call count d out one stays few = elim (Bool-cases (leads_on config out)) [
    | inl leads ↦ inr (omega (arith, one, following-none call count out stays few leads))
    | inr ends ↦ inl ends
  ]

  following-some :
      (call next : Call) (count : ℕ) (out : HttpResponse)
      → following config call count out ≡ ok (some next)
      → count < config.max_redirects
  unfolding following
  following-some call next count out e = ground arith

  abbrev Decided : Fallible Bytes (Option Call) → Type 0
  Decided f =
      ((text : Bytes) × (f ≡ err text)) ⊎ ((f ≡ ok none) ⊎ ((next : Call) × (f ≡ ok (some next))))

  decision : (f : Fallible Bytes (Option Call)) → Decided f
  decision (err text) = inl (text, refl)
  decision (ok none) = inr (inl refl)
  decision (ok (some next)) = inr (inr (next, refl))

  -- A call that ends with this exchange.
  ends-Bounded :
      (count : ℕ) (d : Done) (result : Fallible Bytes HttpResponse)
      → Attempted d
      → count ≤ config.max_redirects
      → IsLast (count + length d.exchanges) result
      → Bounded count (some (record d { result = result }))
  ends-Bounded count d result a few last = record {
    done = record d { result = result };
    ends = refl;
    few = omega (arith, a.one, few);
    fresh = a.fresh;
    last = last;
  }

  -- A call that goes on behind it.
  goes-Bounded :
      (count : ℕ) (d : Done) (o : Option Done)
      → length d.exchanges ≡ 1
      → All IsFresh d.exchanges
      → Bounded (count + 1) o
      → Bounded count (after config d.exchanges o)
  goes-Bounded count d o one fresh rest =
      let sum = length-append d.exchanges rest.done.exchanges in
      rw rest.ends (record {
        done = record rest.done { exchanges = d.exchanges ++ rest.done.exchanges };
        ends = refl;
        few = omega (arith, sum, one, rest.few);
        fresh = All-append IsFresh d.exchanges rest.done.exchanges fresh rest.fresh;
        last = subst (λ n. IsLast n rest.done.result) (omega (arith, sum, one)) rest.last;
      })

  pub execute-Bounded :
      (ts : List Turn) (call : Call) (count : ℕ) (c : Client)
      → count ≤ config.max_redirects
      → config.max_redirects < count + length ts
      → Bounded count (execute config ts call count c)
  unfolding execute
  execute-Bounded [] call count c few enough = absurd (omega (arith, few, enough))
  execute-Bounded (t ∷ ts) call count c few enough =
      let d = attempt config t call c in
      let a = attempt-Attempted t call c in
      elim (Fallible-cases d.result) [
        | inl (text, failed) ↦
            rw (execute, failed) (ends-Bounded count d d.result a few (rw failed tt))
        | inr (out, answered) ↦ elim (decision (following config call count out)) [
          | inl (text, thrown) ↦
              rw (execute, answered, thrown) (ends-Bounded count d (err text) a few tt)
          | inr (inl stays) ↦
              rw (execute, answered, stays)
                (ends-Bounded count d d.result a few (
                  rw answered (stays-IsLast call count d out (a.exchanged out answered) stays few)))
          | inr (inr (next, goes)) ↦
              let less = following-some call next count out goes in
              let rest =
                execute-Bounded ts next (count + 1) d.client (omega (arith, less))
                  (omega (arith, enough)) in
              rw (execute, answered, goes)
                (goes-Bounded count d _ (a.exchanged out answered) a.fresh rest)
        ]
      ]

  -- Given a turn for each redirect and one more, a call ends; it connects at most once more than the redirects that
  -- it may follow, each time to endpoints that were resolved within the configured time; and its answer sends it
  -- on only where it has followed as many redirects as it may.
  pub request_bounded :
      (ts : List Turn) (call : Call) (c : Client)
      → config.max_redirects < length ts
      → (d : Done) × (request config ts call c ≡ some d)
        × (length d.exchanges ≤ config.max_redirects + 1)
        × All IsFresh d.exchanges
        × IsLast (length d.exchanges) d.result
  unfolding request
  request_bounded ts call c enough =
      let b = execute-Bounded ts call 0 c (omega arith) (omega (arith, enough)) in
      (
        b.done,
        b.ends,
        omega (arith, b.few),
        b.fresh,
        subst (λ n. IsLast n b.done.result) (omega arith) b.last,
      )
