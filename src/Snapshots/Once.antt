-- ===== src/Snapshots/Once.antt =====
-- What a request does over any ends of its operations, in any order.
use exchange_connectivity.Base.{
  ℕ, ◌+◌, ◌≤◌, ◌≡◌, refl, ap, ◌∙◌, subst, Bool, true, false, List, [], ◌∷◌, ◌++◌, Option, none,
  some, arith, length, length-append, All, All-append,
}
use exchange_connectivity.Base.Text.{Bytes}
use exchange_connectivity.Snapshots.{
  HttpRequest, Operation, resolving, connecting, handshaking, Effect, write, SnapshotRequest,
  Result, create, start, finish, on_resolve, on_connect, on_handshake, on_write, on_read,
  async_get_depth_snapshot, request_for, to_upper,
}
use exchange_connectivity.Snapshots.Runs.{Event, ended, pending, run, outcomes, outcomes-append}

abbrev Consistent : Option Operation → Bool → Bool → Type 0
Consistent none handler completed = completed ≡ true
Consistent (some operation) handler completed = (completed ≡ false) × (handler ≡ true)

abbrev IsSound : SnapshotRequest → Type 0
IsSound s = Consistent s.operation s.handler s.completed

-- 1 where no operation is under way any more.
abbrev pub over : Option Operation → ℕ
over none = 1
over (some operation) = 0

-- The requests that are written.
abbrev pub requests : List Effect → List HttpRequest
requests [] = []
requests (write r ∷ es) = r ∷ requests es
requests (e ∷ es) = requests es

requests-append : (xs ys : List Effect) → requests (xs ++ ys) ≡ requests xs ++ requests ys
requests-append [] ys = refl
requests-append (write r ∷ xs) ys = ap (λ t. r ∷ t) (requests-append xs ys)
requests-append (e ∷ xs) ys = requests-append xs ys

-- 1 while the request is still to be written.
abbrev to_write : Option Operation → ℕ
to_write (some resolving) = 1
to_write (some connecting) = 1
to_write (some handshaking) = 1
to_write o = 0

abbrev IsFor : Bytes → HttpRequest → Type 0
IsFor symbol r = r ≡ request_for symbol

record Keeps (s : SnapshotRequest) (r : Result) : Type 0 where
  sound : IsSound r.0
  same : r.0.symbol ≡ s.symbol
  answered : length (outcomes r.1) + over s.operation ≡ over r.0.operation
  asked : length (requests r.1) + to_write r.0.operation ≤ to_write s.operation
  right : All (IsFor s.symbol) (requests r.1)

nothing-Keeps : (s : SnapshotRequest) → IsSound s → Keeps s (s, [])
nothing-Keeps s v = record {
  sound = v;
  same = refl;
  answered = omega arith;
  asked = omega arith;
  right = tt;
}

ended-Keeps :
    (op : Operation) (e : Event) (s : SnapshotRequest)
    → s.operation ≡ some op
    → IsSound s
    → Keeps s (ended op e s)
unfolding finish on_resolve on_connect on_handshake on_write on_read
ended-Keeps op e s same v = record {
  sound = ground arith;
  same = ground arith;
  answered = ground arith;
  asked = ground arith;
  right = ground arith;
}

pending-Keeps :
    (op : Option Operation) (e : Event) (s : SnapshotRequest)
    → s.operation ≡ op
    → IsSound s
    → Keeps s (pending op e s)
pending-Keeps none e s same v = nothing-Keeps s v
pending-Keeps (some op) e s same v = ended-Keeps op e s same v

run-Keeps : (es : List Event) (s : SnapshotRequest) → IsSound s → Keeps s (run es s)
unfolding run
run-Keeps [] s v = nothing-Keeps s v
run-Keeps (e ∷ es) s v =
    let next = (pending s.operation e s).0 in
    let effects = (pending s.operation e s).1 in
    let others = (run es next).1 in
    let first = pending-Keeps s.operation e s refl v in
    let later = run-Keeps es next first.sound in
    let answers =
      ap length (outcomes-append effects others)
      ∙ length-append (outcomes effects) (outcomes others) in
    let writes =
      ap length (requests-append effects others)
      ∙ length-append (requests effects) (requests others) in
    record {
      sound = later.sound;
      same = later.same ∙ first.same;
      answered = omega (arith, answers, first.answered, later.answered);
      asked = omega (arith, writes, first.asked, later.asked);
      right = rw requests-append (
          All-append (IsFor s.symbol) (requests effects) (requests others) first.right
            (subst (λ name. All (IsFor name) (requests others)) first.same later.right));
    }

create-Keeps :
    (symbol : Bytes) (es : List Event)
    → Keeps
        (async_get_depth_snapshot symbol true).0
        (run es (async_get_depth_snapshot symbol true).0)
unfolding async_get_depth_snapshot create start
create-Keeps symbol es = run-Keeps es (async_get_depth_snapshot symbol true).0 (refl, refl)

-- Over any ends of its operations, in any order, the handler of a request is called exactly once as soon as no
-- operation is under way any more, and not before.
pub request_settled :
    (symbol : Bytes) (es : List Event)
    → let (s, effects) = run es (async_get_depth_snapshot symbol true).0 in
      length (outcomes effects) ≡ over s.operation
unfolding async_get_depth_snapshot create start
request_settled symbol es = omega (arith, (create-Keeps symbol es).answered)

-- Over any ends of its operations, a request is written once at most, and it asks for a thousand levels of its
-- symbol in capitals.
pub asked_once :
    (symbol : Bytes) (es : List Event)
    → let effects = (run es (async_get_depth_snapshot symbol true).0).1 in
      (length (requests effects) ≤ 1)
      × All (λ r. r ≡ request_for (to_upper symbol)) (requests effects)
unfolding async_get_depth_snapshot create start
asked_once symbol es = let kept = create-Keeps symbol es in (omega (arith, kept.asked), kept.right)
