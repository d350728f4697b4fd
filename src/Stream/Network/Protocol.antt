-- ===== src/Stream/Network/Protocol.antt =====
-- The order of what a session does, against an observer of its effects.
use exchange_connectivity.Base.{
  ◌≡◌, refl, ap, Option-cases, inl, inr, Bool, true, false, List, [], ◌∷◌, ◌++◌, Option, none, some,
  arith, if◌then◌else◌,
}
use exchange_connectivity.Base.Text.{Bytes, beq, beq_iff}
use exchange_connectivity.Stream.{
  Operation, resolving, connecting, tls_shaking, shaking, writing, reading, Result, ErrorCode,
  closed, operation_aborted, other, Effect, connect, tls_handshake, handshake, read, close_socket,
  write, call_handler, log, Session, stop, subscription, report_error, fail, on_resolve, on_connect,
  on_tls_handshake, on_handshake, on_write, on_read,
}

-- What the observer waits for: the first operation that is still to come, or the next read once the handler was
-- called with what the last one read.
pub data Stage : Type 0 where
  before_connect before_tls before_handshake before_write before_read : Stage
  awaits_message awaits_read over : Stage

-- One effect, for the observer of a session on the stream of that name, whose handler can be called or not; an
-- effect out of turn is refused.
pub watch_one : Bytes → Bool → Stage → Effect → Option Stage
watch_one name h at close_socket = some at
watch_one name h before_connect connect = some before_tls
watch_one name h before_tls tls_handshake = some before_handshake
watch_one name h before_handshake handshake = some before_write
watch_one name h before_write (write m) =
    if beq m (subscription name) then some before_read else none
watch_one name h before_read read = some awaits_message
watch_one name true awaits_message (call_handler m) = some awaits_read
watch_one name h awaits_read read = some awaits_message
watch_one name false awaits_message read = some awaits_message
watch_one name h before_connect (log m) = some over
watch_one name h before_tls (log m) = some over
watch_one name h before_handshake (log m) = some over
watch_one name h before_write (log m) = some over
watch_one name h before_read (log m) = some over
watch_one name h awaits_message (log m) = some over
watch_one name h at e = none

unfoldable pub watch : Bytes → Bool → Stage → List Effect → Option Stage
unfolding watch_one
watch name h at [] = some at
watch name h at (e ∷ es) = elim (watch_one name h at e) [
  | none ↦ none
  | some next ↦ watch name h next es
]

pub watch-append :
    (name : Bytes) (h : Bool) (at next : Stage) (xs ys : List Effect)
    → watch name h at xs ≡ some next
    → watch name h at (xs ++ ys) ≡ watch name h next ys
unfolding watch
watch-append name h at next [] ys e = ap (λ (a : Stage). watch name h a ys) (cc)
watch-append name h at next (x ∷ xs) ys e = elim (Option-cases (watch_one name h at x)) [
  | inl refused ↦ absurd (cc (rw (watch, refused) at e))
  | inr (later, taken) ↦
      rw (watch, taken) (watch-append name h later next xs ys (rw (watch, taken) at e))
]

-- Where the observer stands while an operation is under way.
abbrev pub stage_of : Option Operation → Stage
stage_of none = over
stage_of (some resolving) = before_connect
stage_of (some connecting) = before_tls
stage_of (some tls_shaking) = before_handshake
stage_of (some shaking) = before_write
stage_of (some writing) = before_read
stage_of (some reading) = awaits_message

abbrev pub Matches : Option Operation → Stage → Type 0
Matches none at = Unit
Matches (some operation) at = at ≡ stage_of (some operation)

-- What the session does now is accepted, and leaves the observer where the session is.
pub record Follows (name : Bytes) (h : Bool) (at : Stage) (r : Result) : Type 0 where
  pub stage : Stage
  pub accepted : watch name h at r.1 ≡ some stage
  pub place : Matches r.0.operation stage
  pub same_name : r.0.stream_name ≡ name
  pub same_handler : r.0.handler ≡ h

abbrev after_error : ErrorCode → Stage → Stage
after_error operation_aborted at = at
after_error closed at = over
after_error (other text) at = over

fail_watched :
    (op : Operation) (name : Bytes) (h : Bool) (text : Bytes) (e : ErrorCode)
    → watch name h (stage_of (some op)) (report_error text e)
      ≡ some (after_error e (stage_of (some op)))
unfolding watch report_error
fail_watched op name h text e = ground arith

fail-Follows :
    (op : Operation) (s : Session) (text : Bytes) (e : ErrorCode)
    → Follows s.stream_name s.handler (stage_of (some op)) (fail s text e)
unfolding fail
fail-Follows op s text e = record {
  stage = after_error e (stage_of (some op));
  accepted = fail_watched op s.stream_name s.handler text e;
  place = tt;
  same_name = refl;
  same_handler = refl;
}

pub on_resolve-Follows :
    (e : Option ErrorCode) (s : Session)
    → Follows s.stream_name s.handler before_connect (on_resolve e s)
unfolding on_resolve watch
on_resolve-Follows (some e) s = fail-Follows resolving s _ e
on_resolve-Follows none s = record {
  stage = before_tls;
  accepted = refl;
  place = refl;
  same_name = refl;
  same_handler = refl;
}

pub on_connect-Follows :
    (e : Option ErrorCode) (sni : Bool) (s : Session)
    → Follows s.stream_name s.handler before_tls (on_connect e sni s)
unfolding on_connect stop watch
on_connect-Follows (some e) sni s = fail-Follows connecting s _ e
on_connect-Follows none true s = record {
  stage = before_handshake;
  accepted = refl;
  place = refl;
  same_name = refl;
  same_handler = refl;
}
on_connect-Follows none false s = record {
  stage = over;
  accepted = refl;
  place = tt;
  same_name = refl;
  same_handler = refl;
}

pub on_tls_handshake-Follows :
    (e : Option ErrorCode) (s : Session)
    → Follows s.stream_name s.handler before_handshake (on_tls_handshake e s)
unfolding on_tls_handshake watch
on_tls_handshake-Follows (some e) s = fail-Follows tls_shaking s _ e
on_tls_handshake-Follows none s = record {
  stage = before_write;
  accepted = refl;
  place = refl;
  same_name = refl;
  same_handler = refl;
}

write_watched :
    (name : Bytes) (h : Bool) (m : Bytes)
    → m ≡ subscription name
    → watch name h before_write (write m ∷ []) ≡ some before_read
unfolding watch watch_one
write_watched name h m same = ground (arith, (beq_iff m (subscription name)).1 same)

pub on_handshake-Follows :
    (e : Option ErrorCode) (s : Session)
    → Follows s.stream_name s.handler before_write (on_handshake e s)
unfolding on_handshake watch
on_handshake-Follows (some e) s = fail-Follows shaking s _ e
on_handshake-Follows none s = record {
  stage = before_read;
  accepted = write_watched s.stream_name s.handler (subscription s.stream_name) refl;
  place = refl;
  same_name = refl;
  same_handler = refl;
}

pub on_write-Follows :
    (e : Option ErrorCode) (s : Session)
    → Follows s.stream_name s.handler before_read (on_write e s)
unfolding on_write watch
on_write-Follows (some e) s = fail-Follows writing s _ e
on_write-Follows none s = record {
  stage = awaits_message;
  accepted = refl;
  place = refl;
  same_name = refl;
  same_handler = refl;
}

read_watched :
    (name : Bytes) (h : Bool) (m : Bytes)
    → watch name h awaits_message ((if h then call_handler m ∷ [] else []) ++ read ∷ [])
      ≡ some awaits_message
unfolding watch
read_watched name true m = refl
read_watched name false m = refl

pub on_read-Follows :
    (e : Option ErrorCode) (m : Bytes) (s : Session)
    → Follows s.stream_name s.handler awaits_message (on_read e m s)
unfolding on_read watch
on_read-Follows (some closed) m s = record {
  stage = awaits_message;
  accepted = refl;
  place = tt;
  same_name = refl;
  same_handler = refl;
}
on_read-Follows (some operation_aborted) m s = record {
  stage = awaits_message;
  accepted = refl;
  place = tt;
  same_name = refl;
  same_handler = refl;
}
on_read-Follows (some (other text)) m s = record {
  stage = over;
  accepted = refl;
  place = tt;
  same_name = refl;
  same_handler = refl;
}
on_read-Follows none m s = record {
  stage = awaits_message;
  accepted = read_watched s.stream_name s.handler m;
  place = refl;
  same_name = refl;
  same_handler = refl;
}
