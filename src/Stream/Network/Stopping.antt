-- ===== src/Stream/Network/Stopping.antt =====
-- What a session still does once `stop` was called.
use exchange_connectivity.Base.{
  ◌≢◌, ◌⊎◌, inl, inr, sym, false, ℕ, ◌+◌, ◌≤◌, ◌≡◌, refl, ap, ◌∙◌, Bool, true, false, List, [], ◌∷◌,
  ◌++◌, Option, none, some, arith, length, length-append,
}
use exchange_connectivity.Base.Text.{Bytes}
use exchange_connectivity.Stream.{
  Operation, resolving, reading, Effect, call_handler, close_socket, stop, report_error, fail,
  on_resolve, on_connect, on_tls_handshake, on_handshake, on_write, on_read,
}
use exchange_connectivity.Stream.Network.{
  Event, stops, Link, pending, ended, step, run, started, delivered,
}

pub delivered-append : (xs ys : List Effect) → delivered (xs ++ ys) ≡ delivered xs ++ delivered ys
delivered-append [] ys = refl
delivered-append (call_handler m ∷ xs) ys = ap (λ t. m ∷ t) (delivered-append xs ys)
delivered-append (e ∷ xs) ys = delivered-append xs ys

-- The socket is closed, and no operation is under way that will open it.
abbrev pub WillNotOpen : Option Operation → Type 0
WillNotOpen (some resolving) = ⊥
WillNotOpen op = Unit

abbrev IsHalted : Link → Type 0
IsHalted l = (l.open_socket ≡ false) × WillNotOpen l.session.operation

-- The read that may have ended already.
abbrev may_deliver : Option Operation → Bool → ℕ
may_deliver (some reading) true = 1
may_deliver op live = 0

abbrev Ebbs : Link → Link × List Effect → Type 0
Ebbs l r =
    IsHalted r.0
    × (length (delivered r.1) + may_deliver r.0.session.operation r.0.live
        ≤ may_deliver l.session.operation l.live)

ended-Ebbs :
    (op : Operation) (e : Event) (l : Link)
    → l.session.operation ≡ some op
    → IsHalted l
    → Ebbs l (ended op e l)
unfolding fail report_error stop on_resolve on_connect on_tls_handshake on_handshake on_write
    on_read
ended-Ebbs op e l same h = ground arith

pending-Ebbs :
    (op : Option Operation) (e : Event) (l : Link)
    → l.session.operation ≡ op
    → IsHalted l
    → Ebbs l (pending op e l)
pending-Ebbs none e l same h = (h, omega arith)
pending-Ebbs (some op) e l same h = ended-Ebbs op e l same h

step-Ebbs : (e : Event) (l : Link) → IsHalted l → Ebbs l (step e l)
unfolding step stop
step-Ebbs stops l h = ((refl, h.1), omega arith)
step-Ebbs e l h = pending-Ebbs l.session.operation e l refl h

run_ebbs :
    (es : List Event) (l : Link)
    → IsHalted l
    → length (delivered (run es l).1) ≤ may_deliver l.session.operation l.live
unfolding run
run_ebbs [] l h = omega arith
run_ebbs (e ∷ es) l h =
    let (halted, first) = step-Ebbs e l h in
    let next = (step e l).0 in
    let others = run_ebbs es next halted in
    let sum =
      ap length (delivered-append (step e l).1 (run es next).1)
      ∙ length-append (delivered (step e l).1) (delivered (run es next).1) in
    omega (arith, sum, first, others)

may_deliver_le : (op : Option Operation) (live : Bool) → may_deliver op live ≤ 1
may_deliver_le op live = ground arith

-- Once `stop` was called on a session that is no longer resolving its host, the handler is called once more at
-- most, whatever ends in whatever order: with a message whose read had ended before.
pub stop_ends :
    (es : List Event) (l : Link)
    → WillNotOpen l.session.operation
    → length (delivered (run (stops ∷ es) l).1) ≤ 1
unfolding run step stop
stop_ends es l resolved_already =
    let halted = record l { open_socket = false } in
    let bound = run_ebbs es halted (refl, resolved_already) in
    let most = may_deliver_le l.session.operation l.live in omega (arith, bound, most)

-- Where the host is still being resolved, no socket is open yet.
abbrev Unopened : Link → Type 0
Unopened l = (l.session.operation ≢ some resolving) ⊎ (l.open_socket ≡ false)

ended-Unopened :
    (op : Operation) (e : Event) (l : Link)
    → l.session.operation ≡ some op
    → Unopened l
    → Unopened (ended op e l).0
unfolding fail report_error stop on_resolve on_connect on_tls_handshake on_handshake on_write
    on_read
ended-Unopened op e l same h = ground arith

pending-Unopened :
    (op : Option Operation) (e : Event) (l : Link)
    → l.session.operation ≡ op
    → Unopened l
    → Unopened (pending op e l).0
pending-Unopened none e l same h = h
pending-Unopened (some op) e l same h = ended-Unopened op e l same h

step-Unopened : (e : Event) (l : Link) → Unopened l → Unopened (step e l).0
unfolding step stop
step-Unopened stops l h = inr refl
step-Unopened e l h = pending-Unopened l.session.operation e l refl h

run-Unopened : (es : List Event) (l : Link) → Unopened l → Unopened (run es l).0
unfolding run
run-Unopened [] l h = h
run-Unopened (e ∷ es) l h = run-Unopened es (step e l).0 (step-Unopened e l h)

-- A stop that comes while the host is being resolved, after any events, is of no effect: the session does next, over
-- any further events, all that it would have done without it, behind the closing of a socket that is not open.
pub stop_unheeded :
    (name : Bytes) (handler : Bool) (es later : List Event)
    → let l = (run es (started name handler)).0 in
      l.session.operation ≡ some resolving
      → (run (stops ∷ later) l).1 ≡ close_socket ∷ (run later l).1
unfolding run step stop
stop_unheeded name handler es later still =
    let l = (run es (started name handler)).0 in
    elim (run-Unopened es (started name handler) (inr refl)) [
      | inl gone ↦ absurd (gone still)
      | inr shut ↦
          ap (λ up. close_socket ∷ (run later (record l { open_socket = up })).1) (sym shut)
    ]
