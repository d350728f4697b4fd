-- ===== src/Pools/Ring/Threads/Linear.antt =====
-- Runs of the two threads, and the bounded queue that their calls are compared with.
use exchange_connectivity.Base.{ℕ, ◌%◌, ◌≢◌, refl, sym, subst, List, [], ◌∷◌}
use exchange_connectivity.Pools.Ring.{RingBuffer, create}
use exchange_connectivity.Pools.Ring.Slots.{slots_apart}
use exchange_connectivity.Pools.Ring.Queue.{contents, create-IsRing, contents-create}
use exchange_connectivity.Pools.Ring.Threads.{
  Producer, no_push, reload_read, write_slot, publish_write, Consumer, no_pop, reload_write,
  read_slot, publish_read, Threads, Turn, push_call, producer_turn, pop_call, consumer_turn, turn,
  run_turns, at_rest,
}
use exchange_connectivity.Pools.Ring.Threads.Queue.{Follows, Follows-append}
use exchange_connectivity.Pools.Ring.Threads.Shared.{IsShared}
use exchange_connectivity.Pools.Ring.Threads.Steps.{
  Steps, push_step-Steps, pop_step-Steps, call_push-Steps, call_pop-Steps,
}

module _ {A : Type 0} (capacity : ℕ) (blank : A) where
  turn-Steps :
      (e : Turn A) (t : Threads A)
      → IsShared capacity blank t.ring t.producer t.consumer
      → Steps capacity blank t (turn capacity blank e t)
  unfolding turn
  turn-Steps (push_call x) t v = call_push-Steps capacity blank x t.producer t v refl
  turn-Steps producer_turn t v = push_step-Steps capacity blank t.producer t v refl
  turn-Steps pop_call t v = call_pop-Steps capacity blank t.consumer t v refl
  turn-Steps consumer_turn t v = pop_step-Steps capacity blank t.consumer t v refl

  run_turns-Steps :
      (es : List (Turn A)) (t : Threads A)
      → IsShared capacity blank t.ring t.producer t.consumer
      → Steps capacity blank t (run_turns capacity blank es t)
  unfolding run_turns
  run_turns-Steps [] t v = record { sound = v; follows = refl }
  run_turns-Steps (e ∷ es) t v =
      let first = turn-Steps e t v in
      let others = run_turns-Steps es (turn capacity blank e t).0 first.sound in
      record {
        sound = others.sound;
        follows = Follows-append capacity _ _ _ _ _ first.follows others.follows;
      }

  -- The next access of the producer to a slot, and that of the consumer, are at different slots.
  abbrev pub Apart : Producer A → Consumer A → RingBuffer A → Type 0
  Apart (write_slot x) read_slot r = r.write_cursor % capacity ≢ r.read_cursor % capacity
  Apart p c r = Unit

  Shared-Apart :
      (r : RingBuffer A) (p : Producer A) (c : Consumer A)
      → IsShared capacity blank r p c
      → Apart p c r
  Shared-Apart r (write_slot x) read_slot v =
      λ e. slots_apart capacity r.read_cursor r.write_cursor v.popping v.pushing (sym e)
  Shared-Apart r no_push c v = tt
  Shared-Apart r (reload_read x) c v = tt
  Shared-Apart r (publish_write x) c v = tt
  Shared-Apart r (write_slot x) no_pop v = tt
  Shared-Apart r (write_slot x) reload_write v = tt
  Shared-Apart r (write_slot x) (publish_read y) v = tt

  -- Over any interleaving of the steps of one thread that pushes and one that pops, the calls return, in the
  -- order in which they take effect, what they would on a first-in first-out queue of the same capacity: an
  -- element is accepted while there is room, and refused only when there is none; what is taken is the oldest
  -- element, and nothing is found only when the queue is empty. The ring holds what is left in the queue. And the
  -- threads are never about to write and to read the same slot.
  pub run_turns-Follows :
      (es : List (Turn A))
      → let (t, outcomes) = run_turns capacity blank es (at_rest capacity blank) in
        Follows capacity outcomes [] (contents capacity blank t.ring)
        × Apart t.producer t.consumer t.ring
  run_turns-Follows es =
      let start : IsShared capacity blank (create capacity blank) no_push no_pop = record {
        is_ring = create-IsRing capacity blank;
        pushing = tt;
        popping = tt;
      } in
      let done = run_turns-Steps es (at_rest capacity blank) start in
      let t = (run_turns capacity blank es (at_rest capacity blank)).0 in
      (
        subst
            (λ q.
              Follows capacity (run_turns capacity blank es (at_rest capacity blank)).1 q
                (contents capacity blank t.ring))
            (contents-create capacity blank) done.follows,
        Shared-Apart t.ring t.producer t.consumer done.sound,
      )
