-- ===== src/WebSocket/Client.antt =====
-- web_socket_client/web_socket_client.cpp: `WebSocketClient`, which owns the session. The sessions
-- are numbered as they are made, and what the client posts to one carries its number.
use exchange_connectivity.Base.{
  ℕ, ◌+◌, ◌≡◌, refl, ap, ap₂, ◌∙◌, Bool, List, [], ◌∷◌, ◌++◌, Option, none, some, arith, ◌==◌,
  if◌then◌else◌,
}
use exchange_connectivity.Base.Text.{Bytes}

pub data Post : Type 0 where
  start_session : ℕ → Bool → Post
  send_session : ℕ → Bytes → Post
  stop_session : ℕ → Post

pub record Client : Type 0 where
  pub session : Option ℕ
  -- How many sessions were made.
  pub created : ℕ

abbrev Posts : Type 0
Posts = Client × List Post

pub create : Client
create = record { session = none; created = 0 }

-- `stop`, which the destructor calls.
pub stop : Client → Posts
stop c = elim c.session [
  | none ↦ (c, [])
  | some k ↦ (record c { session = none }, stop_session k ∷ [])
]

-- The second argument is whether the handler that is given can be called.
pub start : Bool → Client → Posts
unfolding stop
start handler c =
    let (c', posts) = stop c in
    (
      record c' { session = some c'.created; created = c'.created + 1 },
      posts ++ start_session c'.created handler ∷ [],
    )

pub send : Bytes → Client → Posts
send message c = elim c.session [ none ↦ (c, []) | some k ↦ (c, send_session k message ∷ []) ]

pub data Call : Type 0 where
  starts : Bool → Call
  sends : Bytes → Call
  stops : Call

unfoldable pub step : Call → Client → Posts
step (starts h) c = start h c
step (sends m) c = send m c
step stops c = stop c

unfoldable pub run : List Call → Client → Posts
unfolding step
run [] c = (c, [])
run (k ∷ ks) c =
    let (c', posts) = step k c in let (c'', others) = run ks c' in (c'', posts ++ others)

-- An observer of the posts. It has the number of the session that is open and the number of the
-- next one, and it refuses a start while one is open or with a number that was used, and a message or
-- a stop for any session but the open one.
pub watch : Option ℕ → ℕ → List Post → Option (Option ℕ × ℕ)
watch s n [] = some (s, n)
watch none n (start_session k h ∷ es) =
    let rest = watch (some k) (n + 1) es in if k == n then rest else none
watch (some j) n (send_session k m ∷ es) =
    let rest = watch (some j) n es in if k == j then rest else none
watch (some j) n (stop_session k ∷ es) = let rest = watch none n es in if k == j then rest else none
watch none n (send_session k m ∷ es) = none
watch none n (stop_session k ∷ es) = none
watch (some j) n (start_session k h ∷ es) = none

watch-append :
    (s t : Option ℕ) (n i : ℕ) (xs ys : List Post)
    → watch s n xs ≡ some (t, i)
    → watch s n (xs ++ ys) ≡ watch t i ys
unfolding watch
watch-append s t n i [] ys e =
    let same : s ≡ t = cc in let count : n ≡ i = cc in ap₂ (λ a b. watch a b ys) same count
watch-append none t n i (start_session k h ∷ xs) ys e =
    ground (arith, watch-append (some k) t (n + 1) i xs ys)
watch-append (some j) t n i (send_session k m ∷ xs) ys e =
    ground (arith, watch-append (some j) t n i xs ys)
watch-append (some j) t n i (stop_session k ∷ xs) ys e =
    ground (arith, watch-append none t n i xs ys)
watch-append none t n i (send_session k m ∷ xs) ys e = cc
watch-append none t n i (stop_session k ∷ xs) ys e = cc
watch-append (some j) t n i (start_session k h ∷ xs) ys e = cc

abbrev Watched : Client → Posts → Type 0
Watched c r = watch c.session c.created r.1 ≡ some (r.0.session, r.0.created)

step-Watched : (k : Call) (c : Client) → Watched c (step k c)
unfolding step start send stop watch
step-Watched (starts h) c = ground arith
step-Watched (sends m) c = ground arith
step-Watched stops c = ground arith

run-Watched : (ks : List Call) (c : Client) → Watched c (run ks c)
unfolding run watch
run-Watched [] c = refl
run-Watched (k ∷ ks) c =
    let c' = (step k c).0 in
    watch-append c.session c'.session c.created c'.created (step k c).1 (run ks c').1
      (step-Watched k c)
    ∙ run-Watched ks c'

stop-none : (c : Client) → (stop c).0.session ≡ none
unfolding stop
stop-none c = ground arith

-- Over any calls of a new client and its destruction, each session has a number of its own and is
-- started once; a message goes only to the session that is open; no session starts while another is
-- open; and none is open at the end.
pub one_session :
    (ks : List Call)
    → let (c, posts) = run ks create in
      let (last, others) = stop c in watch none 0 (posts ++ others) ≡ some (none, last.created)
unfolding create step
one_session ks =
    let c = (run ks create).0 in
    watch-append none c.session 0 c.created (run ks create).1 (stop c).1 (run-Watched ks create)
    ∙ (step-Watched stops c ∙ ap (λ (s : Option ℕ). some (s, (stop c).0.created)) (stop-none c))
