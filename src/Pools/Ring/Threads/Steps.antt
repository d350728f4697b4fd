-- ===== src/Pools/Ring/Threads/Steps.antt =====
-- One step of either thread, from and to what holds between two steps.
use exchange_connectivity.Base.{
  ℕ, ◌+◌, ◌-◌, ◌%◌, ◌≡◌, refl, sym, ap, ◌∙◌, subst, Bool-cases, inl, inr, List, [], ◌∷◌, leb, arith,
}
use exchange_connectivity.Pools.Ring.Slots.{window, window-set, get_or-set_self}
use exchange_connectivity.Pools.Ring.Queue.{contents, taken_front}
use exchange_connectivity.Pools.Ring.Threads.{
  Producer, no_push, reload_read, write_slot, publish_write, Consumer, no_pop, reload_write,
  read_slot, publish_read, Threads, Outcome, begin_push, begin_pop, push_step, pop_step, call_push,
  call_pop,
}
use exchange_connectivity.Pools.Ring.Threads.Queue.{Follows}
use exchange_connectivity.Pools.Ring.Threads.Shared.{
  IsRing-read, IsRing-reads, IsRing-set, IsRing-write, IsRing-writes, IsShared, Popping-cached,
  Popping-later, Popping-set, Pushing-cached, Pushing-later, contents_empty, contents_full,
  contents_room, published, slot_within, begin_push-Pushing, begin_pop-Popping,
}

module _ {A : Type 0} (capacity : ℕ) (blank : A) where
  pub record Steps (t : Threads A) (u : Threads A × List (Outcome A)) : Type 0 where
    pub sound : IsShared capacity blank u.0.ring u.0.producer u.0.consumer
    pub follows :
        Follows capacity u.1 (contents capacity blank t.ring) (contents capacity blank u.0.ring)

  same_producer :
      (t : Threads A) {p : Producer A}
      → IsShared capacity blank t.ring p t.consumer
      → t.producer ≡ p
      → Steps t (t, [])
  same_producer t v e = record {
    sound = subst (λ p. IsShared capacity blank t.ring p t.consumer) (sym e) v;
    follows = refl;
  }

  same_consumer :
      (t : Threads A) {c : Consumer A}
      → IsShared capacity blank t.ring t.producer c
      → t.consumer ≡ c
      → Steps t (t, [])
  same_consumer t v e = record {
    sound = subst (λ c. IsShared capacity blank t.ring t.producer c) (sym e) v;
    follows = refl;
  }

  pub push_step-Steps :
      (p : Producer A) (t : Threads A)
      → IsShared capacity blank t.ring p t.consumer
      → t.producer ≡ p
      → Steps t (push_step capacity blank p t)
  unfolding push_step
  push_step-Steps no_push t v e = same_producer t v e
  push_step-Steps (reload_read x) t v e =
      let r = t.ring in
      let ring = IsRing-reads capacity blank r v.is_ring in
      let popping = Popping-cached capacity blank t.consumer r r.read_cursor v.popping in
      elim (Bool-cases (leb capacity (r.write_cursor - r.read_cursor))) [
        | inl full ↦ rw full (record {
          sound = record { is_ring = ring; pushing = tt; popping = popping };
          follows = (
            contents capacity blank r,
            (contents_full capacity blank r v.is_ring full, refl),
            refl,
          );
        })
        | inr room ↦ rw room (record {
          sound = record {
            is_ring = ring;
            pushing = ground (arith, room, v.is_ring);
            popping = popping;
          };
          follows = refl;
        })
      ]
  push_step-Steps (write_slot x) t v e =
      let r = t.ring in
      let n = r.write_cursor - r.read_cursor in
      let at_slot =
        get_or-set_self r.buffer (r.write_cursor % capacity) x blank
          (slot_within capacity blank r v.is_ring v.pushing) in
      record {
        sound = record {
          is_ring = IsRing-set capacity blank r (r.write_cursor % capacity) x v.is_ring;
          pushing = (v.pushing, at_slot);
          popping = Popping-set capacity blank t.consumer r x v.pushing v.popping;
        };
        follows = sym (
            window-set capacity blank r.buffer r.read_cursor n r.write_cursor x
              (omega (arith, v.is_ring.behind)) v.pushing);
      }
  push_step-Steps (publish_write x) t v e =
      let r = t.ring in
      let (room, same) = v.pushing in
      record {
        sound = record {
          is_ring = IsRing-write capacity blank r v.is_ring room;
          pushing = tt;
          popping = Popping-later capacity blank t.consumer r v.popping;
        };
        follows = (
          _,
          (contents_room capacity blank r v.is_ring room, refl),
          sym (published capacity blank r x v.is_ring same),
        );
      }

  pub pop_step-Steps :
      (c : Consumer A) (t : Threads A)
      → IsShared capacity blank t.ring t.producer c
      → t.consumer ≡ c
      → Steps t (pop_step capacity blank c t)
  unfolding pop_step
  pop_step-Steps no_pop t v e = same_consumer t v e
  pop_step-Steps reload_write t v e =
      let r = t.ring in
      let ring = IsRing-writes capacity blank r v.is_ring in
      let pushing = Pushing-cached capacity blank t.producer r r.write_cursor v.pushing in
      elim (Bool-cases (leb r.write_cursor r.read_cursor)) [
        | inl empty ↦ rw empty (record {
          sound = record { is_ring = ring; pushing = pushing; popping = tt };
          follows =
              (contents capacity blank r, (contents_empty capacity blank r empty, refl), refl);
        })
        | inr some_left ↦ rw some_left (record {
          sound = record { is_ring = ring; pushing = pushing; popping = ground (arith, some_left) };
          follows = refl;
        })
      ]
  pop_step-Steps read_slot t v e = record {
    sound = record { is_ring = v.is_ring; pushing = v.pushing; popping = (v.popping, refl) };
    follows = refl;
  }
  pop_step-Steps (publish_read x) t v e =
      let r = t.ring in
      let (behind, same) = v.popping in
      let left =
        window capacity blank r.buffer (r.read_cursor + 1) (r.write_cursor - (r.read_cursor + 1)) in
      record {
        sound = record {
          is_ring = IsRing-read capacity blank r v.is_ring behind;
          pushing = Pushing-later capacity blank t.producer r v.pushing;
          popping = tt;
        };
        follows = (left, taken_front capacity blank r behind ∙ ap (λ y. y ∷ left) same, refl);
      }

  pub call_push-Steps :
      (x : A) (p : Producer A) (t : Threads A)
      → IsShared capacity blank t.ring p t.consumer
      → t.producer ≡ p
      → Steps t (call_push capacity blank x p t, [])
  unfolding call_push begin_push
  call_push-Steps x no_push t v e = record {
    sound = record {
      is_ring = v.is_ring;
      pushing = begin_push-Pushing capacity blank x t.ring v.is_ring;
      popping = v.popping;
    };
    follows = refl;
  }
  call_push-Steps x (reload_read y) t v e = same_producer t v e
  call_push-Steps x (write_slot y) t v e = same_producer t v e
  call_push-Steps x (publish_write y) t v e = same_producer t v e

  pub call_pop-Steps :
      (c : Consumer A) (t : Threads A)
      → IsShared capacity blank t.ring t.producer c
      → t.consumer ≡ c
      → Steps t (call_pop capacity blank c t, [])
  unfolding call_pop begin_pop
  call_pop-Steps no_pop t v e = record {
    sound = record {
      is_ring = v.is_ring;
      pushing = v.pushing;
      popping = begin_pop-Popping capacity blank t.ring v.is_ring;
    };
    follows = refl;
  }
  call_pop-Steps reload_write t v e = same_consumer t v e
  call_pop-Steps read_slot t v e = same_consumer t v e
  call_pop-Steps (publish_read y) t v e = same_consumer t v e
