-- ===== src/WebSocket/Order.antt =====
-- Messages leave in the order in which they were sent, one write at a time.
use exchange_connectivity.Base.{
  ◌≡◌, ◌≢◌, refl, sym, ap, ap₂, ◌∙◌, Bool, true, false, List, [], ◌∷◌, ◌++◌, ◌⊎◌, inl, inr,
  append_assoc, append-nil, Option, arith, if◌then◌else◌,
}
use exchange_connectivity.Base.Text.{Bytes}
use exchange_connectivity.WebSocket.{
  State, idle, connecting, connected, stopped, ErrorCode, Effect, write, Session, create, start,
  send, stop, on_resolve, on_connect, on_tls_handshake, on_handshake, on_read, on_write, tail_of,
}

pub data Event : Type 0 where
  starts stops : Event
  sends : Bytes → Event
  resolved tls_shaken shaken written : Option ErrorCode → Event
  connects : Option ErrorCode → Bool → Event
  received : Option ErrorCode → Bytes → Event

-- A write ends only while one is under way.
unfoldable pub step : Event → Session → Session × List Effect
step starts s = start s
step stops s = stop s
step (sends m) s = send m s
step (resolved e) s = on_resolve e s
step (connects e sni) s = on_connect e sni s
step (tls_shaken e) s = on_tls_handshake e s
step (shaken e) s = on_handshake e s
step (received e m) s = on_read e m s
step (written e) s = if s.writing then on_write e s else (s, [])

unfoldable pub run : List Event → Session → Session × List Effect
unfolding step
run [] s = (s, [])
run (e ∷ es) s =
    let (s', effects) = step e s in let (s'', others) = run es s' in (s'', effects ++ others)

-- The messages handed to `async_write`, in order.
abbrev pub wire : List Effect → List Bytes
wire [] = []
wire (write m ∷ es) = m ∷ wire es
wire (e ∷ es) = wire es

-- The message of a `send` that the session takes.
abbrev taken : State → Event → List Bytes
taken stopped e = []
taken idle (sends m) = m ∷ []
taken connecting (sends m) = m ∷ []
taken connected (sends m) = m ∷ []
taken s e = []

-- The messages that the session takes over a run.
unfoldable pub accepted : List Event → Session → List Bytes
unfolding step
accepted [] s = []
accepted (e ∷ es) s = taken s.state e ++ accepted es (step e s).0

-- The messages that wait behind the one being written.
abbrev pub waiting : Session → List Bytes
waiting s = if s.writing then tail_of s.outgoing_messages else s.outgoing_messages

-- What the state says of the queue.
abbrev Consistent : State → Bool → List Bytes → Type 0
Consistent idle writing ms = writing ≡ false
Consistent connecting writing ms = writing ≡ false
Consistent connected true ms = ms ≢ []
Consistent connected false ms = ms ≡ []
Consistent stopped writing ms = (writing ≡ false) × (ms ≡ [])

abbrev IsSound : Session → Type 0
IsSound s = Consistent s.state s.writing s.outgoing_messages

wire-append : (xs ys : List Effect) → wire (xs ++ ys) ≡ wire xs ++ wire ys
wire-append [] ys = refl
wire-append (write m ∷ xs) ys = ap (λ t. m ∷ t) (wire-append xs ys)
wire-append (x ∷ xs) ys = wire-append xs ys

-- Nothing is lost while the session lives: what waited and what was taken is what was written and
-- what waits now.
abbrev Moves : Event → Session → Session × List Effect → Type 0
Moves e s r =
    IsSound r.0
    × (((r.0.state ≢ stopped) × (waiting s ++ taken s.state e ≡ wire r.1 ++ waiting r.0))
        ⊎ ((r.0.state ≡ stopped) × (wire r.1 ≡ [])))

step-Moves : (e : Event) (s : Session) → IsSound s → Moves e s (step e s)
unfolding step start send stop on_resolve on_connect on_tls_handshake on_handshake on_read on_write
step-Moves starts s v = ground (arith, append-nil (waiting s))
step-Moves stops s v = ground (arith, append-nil (waiting s))
step-Moves (sends m) s v = ground (arith, append-nil (waiting s))
step-Moves (resolved e) s v = ground (arith, append-nil (waiting s))
step-Moves (connects e sni) s v = ground (arith, append-nil (waiting s))
step-Moves (tls_shaken e) s v = ground (arith, append-nil (waiting s))
step-Moves (shaken e) s v = ground (arith, append-nil (waiting s))
step-Moves (received e m) s v = ground (arith, append-nil (waiting s))
step-Moves (written e) s v = ground (arith, append-nil (waiting s))

step_stopped :
    (e : Event) (s : Session)
    → s.state ≡ stopped
    → ((step e s).0.state ≡ stopped) × (wire (step e s).1 ≡ [])
unfolding step start send stop on_resolve on_connect on_tls_handshake on_handshake on_read on_write
step_stopped starts s h = ground arith
step_stopped e s h = ground arith

run_stopped :
    (es : List Event) (s : Session)
    → s.state ≡ stopped
    → ((run es s).0.state ≡ stopped) × (wire (run es s).1 ≡ [])
unfolding run
run_stopped [] s h = (h, refl)
run_stopped (e ∷ es) s h =
    let (stays, silent) = step_stopped e s h in
    let (ends, rest) = run_stopped es (step e s).0 stays in
    (ends, wire-append (step e s).1 (run es (step e s).0).1 ∙ ap₂ (λ xs ys. xs ++ ys) silent rest)

joined :
    (w t a w1 w' w2 rest : List Bytes)
    → w ++ t ≡ w1 ++ w'
    → w' ++ a ≡ w2 ++ rest
    → w ++ (t ++ a) ≡ (w1 ++ w2) ++ rest
joined w t a w1 w' w2 rest e f =
    sym (append_assoc w t a)
    ∙ (ap (λ x. x ++ a) e
        ∙ (append_assoc w1 w' a ∙ (ap (λ x. w1 ++ x) f ∙ sym (append_assoc w1 w2 rest))))

all_written :
    (rest : List Bytes) (s : Session)
    → (s.state ≢ stopped → rest ≡ waiting s)
    → IsSound s
    → s.state ≡ connected
    → s.writing ≡ false
    → rest ≡ []
all_written rest s tail v up free = tail (λ e. cc) ∙ ground arith

-- What the run has put on the wire is where the accepted messages begin.
abbrev Writes : List Event → Session → List Bytes → Type 0
Writes es s rest =
    (waiting s ++ accepted es s ≡ wire (run es s).1 ++ rest)
    × ((run es s).0.state ≢ stopped → rest ≡ waiting (run es s).0)
    × IsSound (run es s).0

run-Writes : (es : List Event) (s : Session) → IsSound s → (rest : List Bytes) × Writes es s rest
unfolding run accepted
run-Writes [] s v = (waiting s, (append-nil (waiting s), λ h. refl, v))
run-Writes (e ∷ es) s v =
    let s' = (step e s).0 in
    let (v', moved) = step-Moves e s v in
    let (rest, kept) = run-Writes es s' v' in
    let (lines, tail, end) = kept in
    elim moved [
      | inl (alive, first) ↦ (
        rest,
        (
          joined (waiting s) (taken s.state e) (accepted es s') (wire (step e s).1) (waiting s')
                (wire (run es s').1) rest first lines
              ∙ ap (λ t. t ++ rest) (sym (wire-append (step e s).1 (run es s').1)),
          tail,
          end,
        ),
      )
      | inr (halted, silent) ↦
          let (stays, quiet) = run_stopped es s' halted in
          (
            waiting s ++ (taken s.state e ++ accepted es s'),
            (
              ap (λ t. t ++ (waiting s ++ (taken s.state e ++ accepted es s')))
                  (sym (
                    wire-append (step e s).1 (run es s').1 ∙ ap₂ (λ xs ys. xs ++ ys) silent quiet)),
              λ h. absurd (h stays),
              end,
            ),
          )
    ]

-- Over any calls and completions, in any order, the messages handed to the connection are the first
-- of those that were sent before the session stopped, in the order in which they were sent, none
-- twice and none left out; and while the session is connected with no write under way, they are all
-- of them.
pub messages_in_order :
    (h : Bool) (es : List Event)
    → let (s, effects) = run es (create h) in
      (rest : List Bytes) × (accepted es (create h) ≡ wire effects ++ rest)
      × (s.state ≡ connected → s.writing ≡ false → rest ≡ [])
unfolding create
messages_in_order h es =
    let (rest, kept) = run-Writes es (create h) refl in
    let (lines, tail, end) = kept in
    (rest, lines, λ up free. all_written rest (run es (create h)).0 tail end up free)
