-- ===== src/Rest/Session/Completion.antt =====
-- A session answers once, over any order of the events that Boost.Asio can deliver.
use exchange_connectivity.Base.{
  ℕ, suc, ◌+◌, ◌≡◌, ◌≢◌, refl, Bool, true, false, ◌&&◌, List, [], ◌∷◌, ◌++◌, Option, none, some,
  Fallible, arith, if◌then◌else◌,
}
use exchange_connectivity.Base.Text.{Bytes, codes}
use exchange_connectivity.Rest.{HttpRequest, HttpResponse, Response, timeout}
use exchange_connectivity.Rest.Session.{
  State, idle, running, completed, Operation, resolving, connecting, handshaking, writing, reading,
  Effect, call_handler, Session, create, execute, on_resolve, on_connect, on_handshake, on_write,
  on_read, on_timeout, failure,
}

-- What can arrive: the dispatched `execute`, the end of an operation, and the timer's.
pub data Event : Type 0 where
  executes resolved connected handshaken written : Option Bytes → Event
  received : Fallible Bytes HttpResponse → Event
  expires : Bool → Event

-- The end of an operation is delivered only while that operation is under way, and the timer's once
-- it was started, as cancelled only if it was.
abbrev ended : Operation → Event → Session → Session × List Effect
ended resolving (resolved e) s = on_resolve (record s { operation = none }) e
ended connecting (connected e) s = on_connect (record s { operation = none }) e
ended handshaking (handshaken e) s = on_handshake (record s { operation = none }) e
ended writing (written e) s = on_write (record s { operation = none }) e
ended reading (received r) s = on_read (record s { operation = none }) r
ended op e s = (s, [])

abbrev dispatched : State → Option Bytes → Session → Session × List Effect
dispatched idle sni s = execute s sni
dispatched running sni s = (s, [])
dispatched completed sni s = (s, [])

abbrev pending : Option Operation → Event → Session → Session × List Effect
pending none e s = (s, [])
pending (some op) e s = ended op e s

unfoldable pub step : Event → Session → Session × List Effect
step (executes sni) s = dispatched s.state sni s
step (expires true) s =
    if s.timer && s.timer_cancelled then on_timeout (record s { timer = false }) true else (s, [])
step (expires false) s = if s.timer then on_timeout (record s { timer = false }) false else (s, [])
step e s = pending s.operation e s

unfoldable pub run : List Event → Session → Session × List Effect
unfolding step
run [] s = (s, [])
run (e ∷ es) s =
    let (s', effects) = step e s in let (s'', others) = run es s' in (s'', effects ++ others)

-- The calls of the user's handler.
abbrev pub calls : List Effect → ℕ
calls [] = 0
calls (call_handler r ∷ es) = suc (calls es)
calls (e ∷ es) = calls es

calls-append : (xs ys : List Effect) → calls (xs ++ ys) ≡ calls xs + calls ys
calls-append [] ys = omega arith
calls-append (call_handler r ∷ xs) ys = omega (arith, calls-append xs ys)
calls-append (x ∷ xs) ys = omega (arith, calls-append xs ys)

-- 1 while the session still holds its handler.
abbrev owed : Session → ℕ
owed s = if s.handler then 1 else 0

-- What the state says of the other fields. The timer runs until it ends or is cancelled.
abbrev pub Consistent : State → Bool → Option Operation → Bool → Bool → Type 0
Consistent idle handler op timer cancelled = (handler ≡ true) × (op ≡ none) × (cancelled ≡ false)
Consistent running handler op timer cancelled =
    (handler ≡ true) × (op ≢ none) × (timer ≡ true) × (cancelled ≡ false)
Consistent completed handler op timer cancelled = handler ≡ false

abbrev pub IsSound : Session → Type 0
IsSound s = Consistent s.state s.handler s.operation s.timer s.timer_cancelled

abbrev pub Keeps : Session → Session × List Effect → Type 0
Keeps s r = IsSound r.0 × (calls r.1 + owed r.0 ≡ owed s)

execute-Keeps : (s : Session) (sni : Option Bytes) → IsSound s → Keeps s (dispatched s.state sni s)
unfolding execute
execute-Keeps s sni v = ground arith

ended-Keeps :
    (s : Session) (op : Operation) (e : Event)
    → s.operation ≡ some op
    → IsSound s
    → Keeps s (ended op e s)
unfolding on_resolve on_connect on_handshake on_write on_read
ended-Keeps s resolving (resolved e) h v = ground arith
ended-Keeps s op e h v = ground arith

pending-Keeps :
    (s : Session) (o : Option Operation) (e : Event)
    → s.operation ≡ o
    → IsSound s
    → Keeps s (pending o e s)
pending-Keeps s none e h v = (v, omega arith)
pending-Keeps s (some op) e h v = ended-Keeps s op e h v

timeout-Keeps : (s : Session) (c : Bool) → IsSound s → Keeps s (step (expires c) s)
unfolding step on_timeout
timeout-Keeps s true v = ground arith
timeout-Keeps s false v = ground arith

pub step-Keeps : (e : Event) (s : Session) → IsSound s → Keeps s (step e s)
unfolding step
step-Keeps (executes sni) s v = execute-Keeps s sni v
step-Keeps (expires c) s v = timeout-Keeps s c v
step-Keeps e s v = pending-Keeps s s.operation e refl v

run-Keeps : (es : List Event) (s : Session) → IsSound s → Keeps s (run es s)
unfolding run
run-Keeps [] s v = (v, omega arith)
run-Keeps (e ∷ es) s v =
    let (v', first) = step-Keeps e s v in
    let (v'', rest) = run-Keeps es (step e s).0 v' in
    (v'', omega (arith, first, rest, calls-append (step e s).1 (run es (step e s).0).1))

pub create-IsSound : (r : HttpRequest) → IsSound (create r true)
unfolding create
create-IsSound r = (refl, refl, refl)

abbrev pub answers : State → ℕ
answers completed = 1
answers idle = 0
answers running = 0

owed-answers : (s : Session) → IsSound s → owed s + answers s.state ≡ 1
owed-answers s v = ground arith

-- Over any events in any order, the handler of a request has been called once if the session is
-- completed, and not at all before.
pub handler_once :
    (r : HttpRequest) (es : List Event)
    → let (s, effects) = run es (create r true) in calls effects ≡ answers s.state
unfolding create
handler_once r es =
    let (v, balance) = run-Keeps es (create r true) (create-IsSound r) in
    omega (
      arith,
      balance,
      owed-answers (run es (create r true)).0 v,
      owed-answers (create r true) (create-IsSound r),
    )

-- The outcomes that the handler has been given, in order.
abbrev pub outcomes : List Effect → List Response
outcomes [] = []
outcomes (call_handler r ∷ es) = r ∷ outcomes es
outcomes (e ∷ es) = outcomes es

expire_running :
    (s : Session)
    → s.state ≡ running
    → IsSound s
    → let (s', effects) = step (expires false) s in
      (s'.state ≡ completed)
      × (outcomes effects ≡ failure timeout (codes "Request deadline exceeded") ∷ [])
unfolding step on_timeout
expire_running s h v = ground arith

-- However far a request that was started and not answered has come, its deadline is still pending,
-- and when that expires the handler is called with `Timeout` and the session is completed.
pub deadline_answers :
    (r : HttpRequest) (es : List Event)
    → let s = (run es (create r true)).0 in
      s.state ≡ running
      → let (s', effects) = step (expires false) s in
        (s'.state ≡ completed)
        × (outcomes effects ≡ failure timeout (codes "Request deadline exceeded") ∷ [])
deadline_answers r es h =
    expire_running (run es (create r true)).0 h (run-Keeps es (create r true) (create-IsSound r)).0
