-- ===== src/Stream/Network/Order.antt =====
-- Runs of a session, and the observer of their effects.
use exchange_connectivity.Base.{
  ◌≡◌, refl, sym, ap₂, ◌∙◌, subst, Bool-cases, inl, inr, Bool, List, [], ◌∷◌, Option, none, some,
}
use exchange_connectivity.Base.Text.{Bytes}
use exchange_connectivity.Stream.{
  Operation, resolving, connecting, tls_shaking, shaking, writing, reading, Result, ErrorCode,
  Effect, Session, create, start, stop,
}
use exchange_connectivity.Stream.Network.{
  Event, Link, arrives, possible, on_socket, open_after, ended, pending, stops, resolved, connected,
  tls_shaken, shaken, written, received, step, run, started,
}
use exchange_connectivity.Stream.Network.Protocol.{
  Stage, before_connect, before_tls, before_handshake, before_write, before_read, awaits_message,
  watch, watch-append, stage_of, Matches, Follows, on_resolve-Follows, on_connect-Follows,
  on_tls_handshake-Follows, on_handshake-Follows, on_write-Follows, on_read-Follows,
}

on_socket-session :
    (op : Option Operation) (up : Bool) (s : Session) → (on_socket op up s).session ≡ s
on_socket-session none up s = refl
on_socket-session (some resolving) up s = refl
on_socket-session (some connecting) up s = refl
on_socket-session (some tls_shaking) up s = refl
on_socket-session (some shaking) up s = refl
on_socket-session (some writing) up s = refl
on_socket-session (some reading) up s = refl

abbrev Watched : Bytes → Bool → Stage → Link × List Effect → Type 0
Watched name h at r = Follows name h at (r.0.session, r.1)

nothing-Watched :
    (l : Link) (at : Stage)
    → Matches l.session.operation at
    → Watched l.session.stream_name l.session.handler at (l, [])
unfolding watch
nothing-Watched l at m = record {
  stage = at;
  accepted = refl;
  place = m;
  same_name = refl;
  same_handler = refl;
}

arrives-Watched :
    (l : Link) (e : Option ErrorCode) (at : Stage) (r : Result)
    → Matches l.session.operation at
    → Follows l.session.stream_name l.session.handler at r
    → Watched l.session.stream_name l.session.handler at (arrives l e r)
arrives-Watched l e at r m f = elim (Bool-cases (possible e l.live)) [
  | inl can ↦ rw can (
      subst (λ s. Follows l.session.stream_name l.session.handler at (s, r.1))
        (sym (on_socket-session r.0.operation (open_after r.1 l.open_socket) r.0)) f)
  | inr cannot ↦ rw cannot (nothing-Watched l at m)
]

ended-Watched :
    (op : Operation) (e : Event) (l : Link)
    → Matches l.session.operation (stage_of (some op))
    → Watched l.session.stream_name l.session.handler (stage_of (some op)) (ended op e l)
ended-Watched resolving (resolved e) l m =
    arrives-Watched l e before_connect _ m (on_resolve-Follows e l.session)
ended-Watched connecting (connected e sni) l m =
    arrives-Watched l e before_tls _ m (on_connect-Follows e sni l.session)
ended-Watched tls_shaking (tls_shaken e) l m =
    arrives-Watched l e before_handshake _ m (on_tls_handshake-Follows e l.session)
ended-Watched shaking (shaken e) l m =
    arrives-Watched l e before_write _ m (on_handshake-Follows e l.session)
ended-Watched writing (written e) l m =
    arrives-Watched l e before_read _ m (on_write-Follows e l.session)
ended-Watched reading (received e t) l m =
    arrives-Watched l e awaits_message _ m (on_read-Follows e t l.session)
ended-Watched op e l m = nothing-Watched l (stage_of (some op)) m

place_self : (op : Operation) → Matches (some op) (stage_of (some op))
place_self op = refl

pending-Watched :
    (op : Option Operation) (e : Event) (l : Link) (at : Stage)
    → l.session.operation ≡ op
    → Matches op at
    → Watched l.session.stream_name l.session.handler at (pending op e l)
pending-Watched none e l at same m = nothing-Watched l at (subst (λ o. Matches o at) (sym same) m)
pending-Watched (some op) e l at same m =
    subst (λ a. Watched l.session.stream_name l.session.handler a (ended op e l)) (sym m)
      (ended-Watched op e l
        (subst (λ o. Matches o (stage_of (some op))) (sym same) (place_self op)))

step-Watched :
    (e : Event) (l : Link) (at : Stage)
    → Matches l.session.operation at
    → Watched l.session.stream_name l.session.handler at (step e l)
unfolding step stop watch
step-Watched stops l at m = record {
  stage = at;
  accepted = refl;
  place = m;
  same_name = refl;
  same_handler = refl;
}
step-Watched e l at m = pending-Watched l.session.operation e l at refl m

run-Watched :
    (es : List Event) (l : Link) (at : Stage)
    → Matches l.session.operation at
    → Watched l.session.stream_name l.session.handler at (run es l)
unfolding run watch
run-Watched [] l at m = record {
  stage = at;
  accepted = refl;
  place = m;
  same_name = refl;
  same_handler = refl;
}
run-Watched (e ∷ es) l at m =
    let next = (step e l).0 in
    let first = step-Watched e l at m in
    let others = run-Watched es next first.stage first.place in
    let accepted : watch l.session.stream_name l.session.handler first.stage (run es next).1
        ≡ some others.stage =
      ap₂ (λ n h. watch n h first.stage (run es next).1) (sym first.same_name)
        (sym first.same_handler)
      ∙ others.accepted in
    record {
      stage = others.stage;
      accepted =
          watch-append l.session.stream_name l.session.handler at first.stage (step e l).1
            (run es next).1 first.accepted
          ∙ accepted;
      place = others.place;
      same_name = others.same_name ∙ first.same_name;
      same_handler = others.same_handler ∙ first.same_handler;
    }

-- Over any ends of operations and calls of `stop`, in any order, a session connects, shakes hands for TLS and then
-- for the web socket, subscribes to its own stream and reads, each at most once but the reads, and each only after
-- the one before; it calls its handler, where it can be called, once for each read before the next; and it does
-- nothing more once it has reported an error, but for closing its socket.
pub protocol_followed :
    (name : Bytes) (handler : Bool) (es : List Event)
    → (last : Stage) × (watch name handler before_connect (run es (started name handler)).1
        ≡ some last)
unfolding start create
protocol_followed name handler es =
    let followed = run-Watched es (started name handler) before_connect refl in
    (followed.stage, followed.accepted)
