-- ===== src/Wfmpscq/Concurrent/Consuming.antt =====
-- The steps of the consumer of src/wfmpscq.c.
use librtipc.Prelude.{
  ℕ, ◌+◌, ◌%◌, ◌<◌, ◌≡◌, ◌≢◌, refl, sym, ap, ◌∙◌, arith, some, List, [], ◌∷◌, ◌++◌, append_assoc,
  update_self,
}
use native.Mathlib.Nat.{zero-add}
use mathlib.Core.Path.{subst}
use librtipc.Memory.{Bytes}
use librtipc.Memory.Slots.{load, load_congr}
use librtipc.Ring.{after, after-lt, after-injective, contents-front}
use librtipc.Wfmpscq.{Queue}
use librtipc.Wfmpscq.Concurrent.{Producer, Consumer, Message, System, turns, released}
use librtipc.Wfmpscq.Concurrent.Steps.{Turn}
use librtipc.Wfmpscq.Concurrent.Rings.{
  Ring, ring_of, held, PutSoFar, RingInv, First, TakenSoFar, rings-update,
}

module _ (n size : ℕ) where
  pub record Inv (s : System) : Type 0 where
    pub rings : (i : ℕ) → RingInv n size (ring_of s i)
    pub taken : TakenSoFar (ring_of s) s.consumer

  -- A head that moves on leaves the producer room.
  room :
      {r : Ring}
      → RingInv n size r
      → r.queue.head ≢ r.queue.tail
      → after n r.queue.tail ≢ after n r.queue.head
  room {r} v ne e = ne (sym (after-injective n r.queue.tail r.queue.head v.tail_in v.head_in e))

  put_part-kept :
      {r : Ring}
      → RingInv n size r
      → r.queue.head ≢ r.queue.tail
      → (q : Queue) → q.tail ≡ r.queue.tail
      → after n q.tail ≢ q.head
      → (g : List Message) (p : Producer) → PutSoFar n size r p
      → PutSoFar n size (record r { queue = q; got = g }) p
  put_part-kept v ne q same ok g Producer.idle h = tt
  put_part-kept v ne q same ok g (Producer.counting payload) h = ok
  put_part-kept {r} v ne q same ok g (Producer.copying payload id k) h =
      (ok, λ j l. ap (λ t. r.bytes t j) same ∙ h.1 j l)
  put_part-kept {r} v ne q same ok g (Producer.stamping payload id) h =
      (ok, λ j l. ap (λ t. r.bytes t j) same ∙ h.1 j l)
  put_part-kept {r} v ne q same ok g (Producer.publishing payload id) h =
      ((ok, λ j l. ap (λ t. r.bytes t j) same ∙ h.0.1 j l), ap r.ids same ∙ h.1)

  -- The first message is taken.
  take-RingInv :
      {r : Ring}
      → RingInv n size r
      → (out : Bytes) (msg_id : ℕ) → r.queue.head ≢ r.queue.tail
      → r.ids r.queue.head ≡ msg_id
      → ((j : ℕ) → j < size → out j ≡ r.bytes r.queue.head j)
      → RingInv n size (record r {
        queue = record r.queue { head = (r.queue.head + 1) % n };
        got = r.got ++ (record { id = msg_id; body = load out 0 size } ∷ []);
      })
  take-RingInv {r} v out msg_id ne e copied = record {
    head_in = after-lt n r.queue.head v.head_in;
    tail_in = v.tail_in;
    put_part =
        put_part-kept v ne (record r.queue { head = (r.queue.head + 1) % n }) refl (room v ne)
          (r.got ++ (record { id = msg_id; body = load out 0 size } ∷ [])) r.producer v.put_part;
    flow =
        v.flow
        ∙ ap (λ c. r.got ++ c) (contents-front n _ r.queue.head r.queue.tail v.head_in v.tail_in ne)
        ∙ sym (append_assoc r.got _ _)
        ∙ ap
            (λ m.
              (r.got ++ (m ∷ []))
              ++ held n size
                  (record r { queue = record r.queue { head = (r.queue.head + 1) % n } }))
            same;
  }
    where
      body : load (r.bytes r.queue.head) 0 size ≡ load out 0 size
      body = sym (load_congr out (r.bytes r.queue.head) 0 0 size (λ j l. rw zero-add (copied j l)))

      same :
          ◌≡◌ {A = Message}
            (record { id = r.ids r.queue.head; body = load (r.bytes r.queue.head) 0 size })
            (record { id = msg_id; body = load out 0 size })
      same = λ i. record { id = e i; body = body i }

  module _ {s : System} (v : Inv s) where
    -- What the consumer knows, where it stands
    pub at : {c : Consumer} → s.consumer ≡ c → TakenSoFar (ring_of s) c
    at e = subst (TakenSoFar (ring_of s)) e v.taken

    turned : (c : Consumer) → TakenSoFar (ring_of s) c → Inv (turns s c)
    turned c own = record { rings = v.rings; taken = own }

    release-Inv :
        (out : Bytes) (q msg_id : ℕ)
        → TakenSoFar (ring_of s) (Consumer.copying out q msg_id size)
        → Inv (released n size s out q msg_id)
    release-Inv out q msg_id k = record {
      rings =
          rings-update (RingInv n size) (ring_of s) (ring_of (released n size s out q msg_id)) q
            (record (ring_of s q) {
              queue = record (s.queues q) { head = ((s.queues q).head + 1) % n };
              got = s.got q ++ (record { id = msg_id; body = load out 0 size } ∷ []);
            })
            (rw (update_self, update_self) refl) (λ j ne. ground arith)
            (take-RingInv (v.rings q) out msg_id k.0.0 k.0.1 k.1) v.rings;
      taken = tt;
    }

    -- Every step of the consumer keeps the invariant.
    pub Turn-Inv : (num_writer : ℕ) {t : System} → Turn n size num_writer s t → Inv t
    Turn-Inv num_writer (Turn.begin_scan out e) = record {
      rings = v.rings;
      taken = λ k q. absurd (cc q);
    }
    Turn-Inv num_writer (Turn.pass_ring out i min_id q e l f) =
        turned (Consumer.scanning out (i + 1) min_id q) (at e)
    Turn-Inv num_writer (Turn.find_ring out i min_id q e l f) =
        turned (Consumer.weighing out i min_id q) (f, at e)
    Turn-Inv num_writer (Turn.improve out i min_id q e f) =
        turned (Consumer.scanning out (i + 1) (s.ids i (s.queues i).head) (some i)) (λ k q.
          subst (λ k. First (ring_of s) k (s.ids i (s.queues i).head)) (cc q) ((at e).0, refl))
    Turn-Inv num_writer (Turn.pass_id out i min_id q e f) =
        turned (Consumer.scanning out (i + 1) min_id q) (at e).1
    Turn-Inv num_writer (Turn.find_nothing out min_id e) = turned Consumer.idle tt
    Turn-Inv num_writer (Turn.choose out min_id q e) =
        turned (Consumer.copying out q min_id 0) (at e q refl, λ j l. elim l [ ])
    Turn-Inv num_writer (Turn.begin_turn out e) = record { rings = v.rings; taken = tt }
    Turn-Inv num_writer (Turn.pass_turn out rounds e f) = record { rings = v.rings; taken = tt }
    Turn-Inv num_writer (Turn.find_turn out rounds e f) = record { rings = v.rings; taken = f }
    Turn-Inv num_writer (Turn.turn_empty out e) = turned Consumer.idle tt
    Turn-Inv num_writer (Turn.name out q e) =
        turned (Consumer.copying out q (s.ids q (s.queues q).head) 0)
          ((at e, refl), λ j l. elim l [ ])
    Turn-Inv num_writer (Turn.take_byte out q msg_id k e l) =
        let own = at e in turned _ (own.0, λ j b. let before = own.1 j in ground (arith, before))
    Turn-Inv num_writer (Turn.release out q msg_id e) = release-Inv out q msg_id (at e)
