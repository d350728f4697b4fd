-- ===== src/BinanceSocket/Connection/Once.antt =====
-- How much a connection writes.
use exchange_connectivity.Base.{
  ◌≡◌, ◌≢◌, ◌⊎◌, inl, inr, refl, sym, ap, ◌∙◌, subst, Bool, false, List, [], ◌∷◌, ◌++◌, append-nil,
  append_assoc, take, Option, none, some, arith,
}
use exchange_connectivity.Base.Text.{Bytes}
use exchange_connectivity.BinanceSocket.{
  disconnected, connected, ErrorCode, Effect, write_text, create, on_control, connect, write, send,
  on_resolve, on_connect, on_ssl_handshake, on_web_socket_handshake, on_write, on_read, on_close,
  close,
}
use exchange_connectivity.BinanceSocket.Connection.{
  Event, sends, closes, shaken, written, received, controlled, Link, Stepped, texts, step, run,
  opening, sent,
}

texts-append : (xs ys : List Effect) → texts (xs ++ ys) ≡ texts xs ++ texts ys
texts-append [] ys = refl
texts-append (write_text m ∷ xs) ys = ap (λ t. m ∷ t) (texts-append xs ys)
texts-append (e ∷ xs) ys = texts-append xs ys

-- Where the connection stands: being set up, with every message in the queue; connected, with none; or behind.
abbrev Waiting : Link → List Bytes → Type 0
Waiting l queue =
    (l.set_up ≢ none)
    × (l.client.state ≡ disconnected)
    × (l.client.write_queue ≡ queue)
    × (l.writes ≡ none)
    × (l.reads ≡ false)

abbrev Ready : Link → Type 0
Ready l =
    (l.set_up ≡ none)
    × (l.client.state ≡ connected)
    × (l.client.write_queue ≡ [])
    × (l.writes ≡ none)

-- The message whose write is under way, if there is one, is the front of the queue.
abbrev pub IsFront : Option Bytes → List Bytes → Type 0
IsFront none queue = Unit
IsFront (some m) [] = ⊥
IsFront (some m) (front ∷ queue) = m ≡ front

abbrev pub HasFront : Link → Type 0
HasFront l = IsFront l.writes l.client.write_queue

abbrev Behind : Link → Type 0
Behind l = (l.set_up ≡ none) × (l.client.state ≢ connected) × HasFront l

abbrev Quiet : Stepped → Type 0
Quiet r = Behind r.0 × (texts r.1 ≡ [])

snoc-IsFront :
    (w : Option Bytes) (q : List Bytes) (m : Bytes) → IsFront w q → IsFront w (q ++ m ∷ [])
snoc-IsFront none q m h = tt
snoc-IsFront (some t) [] m h = elim h [ ]
snoc-IsFront (some t) (front ∷ q) m h = h

send-Quiet : (m : Bytes) (l : Link) → Behind l → Quiet (step (sends m) l)
unfolding step write send
send-Quiet m l h = ground (arith, snoc-IsFront l.writes l.client.write_queue m)

written-Quiet : (e : Option ErrorCode) (l : Link) → Behind l → Quiet (step (written e) l)
unfolding step write on_write
written-Quiet e l h = ground arith

step-Quiet : (e : Event) (l : Link) → Behind l → Quiet (step e l)
unfolding step on_resolve on_connect on_ssl_handshake on_web_socket_handshake on_read on_close close
    on_control
step-Quiet (sends m) l h = send-Quiet m l h
step-Quiet (written e) l h = written-Quiet e l h
step-Quiet (closes failure) l h = ground arith
step-Quiet (controlled frame) l h = ground arith
step-Quiet (received e m) l h = ground arith
step-Quiet e l h = ground arith

run-Quiet : (es : List Event) (l : Link) → Behind l → Quiet (run es l)
unfolding run
run-Quiet [] l h = (h, refl)
run-Quiet (e ∷ es) l h =
    let (h', first) = step-Quiet e l h in
    let (h'', others) = run-Quiet es (step e l).0 h' in
    (h'', cc (texts-append (step e l).1 (run es (step e l).0).1, first, others))

-- Nothing was written, or the first of the messages.
abbrev pub WroteFirst : List Bytes → Stepped → Type 0
WroteFirst messages r = ((texts r.1 ≡ []) ⊎ (texts r.1 ≡ take 1 messages)) × HasFront r.0

-- The first step writes, and nothing is written behind it.
then_quiet :
    (es : List Event) (r : Stepped) (messages : List Bytes)
    → Behind r.0
    → (texts r.1 ≡ []) ⊎ (texts r.1 ≡ take 1 messages)
    → WroteFirst messages ((run es r.0).0, r.1 ++ (run es r.0).1)
then_quiet es r messages h wrote =
    let (quiet, nothing) = run-Quiet es r.0 h in
    (
      elim wrote [
        | inl none_yet ↦ inl (cc (texts-append r.1 (run es r.0).1, nothing, none_yet))
        | inr first ↦
            inr (cc (texts-append r.1 (run es r.0).1, nothing, first, append-nil (texts r.1)))
      ],
      quiet.2,
    )

-- The first step writes nothing.
then_on :
    (r rest : Stepped) (messages : List Bytes)
    → texts r.1 ≡ []
    → WroteFirst messages rest
    → WroteFirst messages (rest.0, r.1 ++ rest.1)
then_on r rest messages nothing h = (
  elim h.0 [
    | inl none_yet ↦ inl (cc (texts-append r.1 rest.1, nothing, none_yet))
    | inr first ↦ inr (cc (texts-append r.1 rest.1, nothing, first))
  ],
  h.1,
)

sent_step : (e : Event) (es : List Event) → sent (e ∷ es) ≡ sent (e ∷ []) ++ sent es
sent_step (sends m) es = refl
sent_step e es = refl

step-Ready :
    (e : Event) (l : Link)
    → Ready l
    → (Ready (step e l).0 × (texts (step e l).1 ≡ []) × (sent (e ∷ []) ≡ []))
      ⊎ (Behind (step e l).0
          × ((texts (step e l).1 ≡ []) ⊎ (texts (step e l).1 ≡ take 1 (sent (e ∷ [])))))
unfolding step write send on_resolve on_connect on_ssl_handshake on_web_socket_handshake on_write
    on_read on_close close on_control
step-Ready e l h = ground arith

step-Waiting :
    (e : Event) (l : Link) (q : List Bytes)
    → Waiting l q
    → (Waiting (step e l).0 (q ++ sent (e ∷ [])) × (texts (step e l).1 ≡ []))
      ⊎ ((Ready (step e l).0 × (texts (step e l).1 ≡ []) × (q ≡ []) × (sent (e ∷ []) ≡ []))
          ⊎ (Behind (step e l).0 × ((texts (step e l).1 ≡ []) ⊎ (texts (step e l).1 ≡ take 1 q))))
unfolding step write send on_resolve on_connect on_ssl_handshake on_web_socket_handshake on_write
    on_read on_close close on_control
step-Waiting (shaken e) l q h = ground (arith, append-nil q)
step-Waiting e l q h = ground (arith, append-nil q)

take_longer :
    (q : List Bytes) (more : List Bytes) → (take 1 q ≡ []) ⊎ (take 1 (q ++ more) ≡ take 1 q)
take_longer [] more = inl refl
take_longer (m ∷ q) more = inr refl

-- What the first step wrote is the first of all the messages.
first_of_all :
    (written_now q more : List Bytes)
    → (written_now ≡ []) ⊎ (written_now ≡ take 1 q)
    → (written_now ≡ []) ⊎ (written_now ≡ take 1 (q ++ more))
first_of_all now q more (inl nothing) = inl nothing
first_of_all now q more (inr first) = elim (take_longer q more) [
  | inl empty ↦ inl (first ∙ empty)
  | inr same ↦ inr (first ∙ sym same)
]

run-Ready : (es : List Event) (l : Link) → Ready l → WroteFirst (sent es) (run es l)
unfolding run
run-Ready [] l h = (inl refl, ground arith)
run-Ready (e ∷ es) l h = elim (step-Ready e l h) [
  | inl (still, nothing, unsent) ↦
      then_on (step e l) (run es (step e l).0) (sent (e ∷ es)) nothing (
        subst (λ ms. WroteFirst ms (run es (step e l).0)) (sym (cc (sent_step e es, unsent)))
          (run-Ready es (step e l).0 still))
  | inr (behind, wrote) ↦ then_quiet es (step e l) (sent (e ∷ es)) behind (
      subst (λ ms. (texts (step e l).1 ≡ []) ⊎ (texts (step e l).1 ≡ take 1 ms))
        (sym (sent_step e es)) (first_of_all (texts (step e l).1) (sent (e ∷ [])) (sent es) wrote))
]

run-Waiting :
    (es : List Event) (l : Link) (q : List Bytes)
    → Waiting l q
    → WroteFirst (q ++ sent es) (run es l)
unfolding run
run-Waiting [] l q h = (inl refl, ground arith)
run-Waiting (e ∷ es) l q h = elim (step-Waiting e l q h) [
  | inl (still, nothing) ↦ then_on (step e l) (run es (step e l).0) (q ++ sent (e ∷ es)) nothing (
      subst (λ ms. WroteFirst ms (run es (step e l).0))
        (append_assoc q (sent (e ∷ [])) (sent es) ∙ ap (λ ms. q ++ ms) (sym (sent_step e es)))
        (run-Waiting es (step e l).0 (q ++ sent (e ∷ [])) still))
  | inr (inl (ready, nothing, empty, unsent)) ↦
      then_on (step e l) (run es (step e l).0) (q ++ sent (e ∷ es)) nothing (
        subst (λ ms. WroteFirst ms (run es (step e l).0)) (sym (cc (sent_step e es, unsent, empty)))
          (run-Ready es (step e l).0 ready))
  | inr (inr (behind, wrote)) ↦
      then_quiet es (step e l) (q ++ sent (e ∷ es)) behind
        (first_of_all (texts (step e l).1) q (sent (e ∷ es)) wrote)
]

-- Over any ends of operations and calls of `send` and `close`, in any order, a connection writes nothing or just
-- the first message that it is given, once; while the write of a message is under way, that message is the front of the queue.
pub first_message_only :
    (message_handler error_handler : Bool) (host port target : Bytes) (es : List Event)
    → let r = run es (opening message_handler error_handler host port target) in
      ((texts r.1 ≡ []) ⊎ (texts r.1 ≡ take 1 (sent es))) × HasFront r.0
unfolding create connect
first_message_only message_handler error_handler host port target es =
    run-Waiting es (opening message_handler error_handler host port target) []
      (λ e. absurd (cc e), refl, refl, refl, refl)
