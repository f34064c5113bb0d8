-- ===== src/Wfmpscq/Concurrent/Producing.antt =====
-- The steps of a producer of src/wfmpscq.c on its ring.
use librtipc.Prelude.{
  ℕ, ◌+◌, ◌%◌, ◌≡◌, ◌≢◌, refl, sym, ap, ap₂, ◌∙◌, arith, [], ◌∷◌, ◌++◌, append_assoc, update,
  update_self, update-ne,
}
use native.Mathlib.Nat.{zero-add}
use librtipc.Memory.{Bytes}
use librtipc.Memory.Slots.{load, load_congr}
use librtipc.Ring.{after-lt, contents-keep, contents-store}
use mathlib.Core.Path.{subst}
use librtipc.Wfmpscq.{to_uint}
use librtipc.Wfmpscq.Concurrent.{Producer, Message, System}
use librtipc.Wfmpscq.Concurrent.Steps.{Move}
use librtipc.Wfmpscq.Concurrent.Rings.{Ring, ring_of, Copied, PutSoFar, RingInv, Stays, Stays-refl}

module _ (n size : ℕ) where
  -- A step on a ring that keeps it in order and its first message where it is.
  pub record Kept (r r' : Ring) : Type 0 where
    pub inv : RingInv n size r'
    pub stays : Stays r r'

  module _ {r : Ring} (v : RingInv n size r) where
    -- The producer goes on.
    stands : (p : Producer) → PutSoFar n size r p → Kept r (record r { producer = p })
    stands p own = record {
      inv = record { head_in = v.head_in; tail_in = v.tail_in; put_part = own; flow = v.flow };
      stays = record {
        same_head = refl;
        used = λ ne. ne;
        same_id = λ ne. refl;
        same_bytes = λ ne. refl;
      };
    }

    -- The slot at the tail changes, which is none of those in use.
    writes :
        (p : Producer) (ids : ℕ → ℕ) (bytes : ℕ → Bytes)
        → ((k : ℕ) → k ≢ r.queue.tail → (ids k ≡ r.ids k) × (bytes k ≡ r.bytes k))
        → PutSoFar n size (record r { producer = p; ids = ids; bytes = bytes }) p
        → Kept r (record r { producer = p; ids = ids; bytes = bytes })
    writes p ids bytes away own = record {
      inv = record {
        head_in = v.head_in;
        tail_in = v.tail_in;
        put_part = own;
        flow =
            v.flow
            ∙ ap (λ c. r.got ++ c)
                (sym (
                  contents-keep n _ r.queue.head r.queue.tail _ v.head_in v.tail_in (λ k ne.
                    let same = away k ne in
                    λ i. record { id = same.0 i; body = load (same.1 i) 0 size })));
      };
      stays = record {
        same_head = refl;
        used = λ ne. ne;
        same_id = λ ne. (away r.queue.head ne).0;
        same_bytes = λ ne. (away r.queue.head ne).1;
      };
    }

    byte :
        (payload : Bytes) (id k : ℕ)
        → Copied n size r payload k
        → Kept r (record r {
          producer = Producer.copying payload id (k + 1);
          bytes = update r.bytes r.queue.tail (update (r.bytes r.queue.tail) k (payload k));
        })
    byte payload id k own =
        writes (Producer.copying payload id (k + 1)) r.ids
          (update r.bytes r.queue.tail (update (r.bytes r.queue.tail) k (payload k)))
          (λ j ne. (refl, update-ne r.bytes r.queue.tail _ j (λ e. ne (sym e))))
          (own.0, λ j b. ground (arith, own.1 j))

    id_set :
        (payload : Bytes) (id : ℕ)
        → Copied n size r payload size
        → Kept r (record r {
          producer = Producer.publishing payload id;
          ids = update r.ids r.queue.tail id;
        })
    id_set payload id own =
        writes (Producer.publishing payload id) (update r.ids r.queue.tail id) r.bytes
          (λ j ne. (update-ne r.ids r.queue.tail id j (λ e. ne (sym e)), refl))
          (own, update_self r.ids r.queue.tail id)

    publishes :
        (payload : Bytes) (id : ℕ)
        → PutSoFar n size r (Producer.publishing payload id)
        → Kept r (record r {
          producer = Producer.idle;
          queue = record r.queue { tail = (r.queue.tail + 1) % n };
          sent = r.sent ++ (record { id = id; body = load payload 0 size } ∷ []);
        })
    publishes payload id own = record {
      inv = record {
        head_in = v.head_in;
        tail_in = after-lt n r.queue.tail v.tail_in;
        put_part = tt;
        flow =
            ap₂ ◌++◌ v.flow (ap (λ m. m ∷ []) same)
            ∙ append_assoc r.got _ _
            ∙ ap (λ c. r.got ++ c)
                (sym (
                  contents-store n _ r.queue.head r.queue.tail _ v.head_in v.tail_in own.0.0
                    (λ i ne. refl)));
      };
      stays = record {
        same_head = refl;
        used = λ ne e. own.0.0 (sym e);
        same_id = λ ne. refl;
        same_bytes = λ ne. refl;
      };
    }
      where
        body : load payload 0 size ≡ load (r.bytes r.queue.tail) 0 size
        body =
            sym (
              load_congr (r.bytes r.queue.tail) payload 0 0 size (λ j l. rw zero-add (own.0.1 j l)))

        same :
            ◌≡◌ {A = Message}
              (record { id = id; body = load payload 0 size })
              (record { id = r.ids r.queue.tail; body = load (r.bytes r.queue.tail) 0 size })
        same = λ i. record { id = sym own.1 i; body = body i }

  -- Of a step on ring `i`, that is all that happens.
  pub record OnRing (s : System) (i : ℕ) (t : System) : Type 0 where
    pub ring : Ring
    pub kept : Kept (ring_of s i) ring
    pub here : ring_of t i ≡ ring
    pub away : (j : ℕ) → j ≢ i → ring_of t j ≡ ring_of s j
    pub same_consumer : t.consumer ≡ s.consumer

  pub Move-OnRing :
      (num_writer : ℕ) {s : System} (i : ℕ)
      → RingInv n size (ring_of s i)
      → {t : System} → Move n size num_writer s i t
      → OnRing s i t
  Move-OnRing num_writer {s} i v (Move.refuse e f) = record {
    ring = ring_of s i;
    kept = record { inv = v; stays = Stays-refl (ring_of s i) };
    here = refl;
    away = λ j ne. refl;
    same_consumer = refl;
  }
  Move-OnRing num_writer {s} i v (Move.count_again payload e) = record {
    ring = ring_of s i;
    kept = record { inv = v; stays = Stays-refl (ring_of s i) };
    here = refl;
    away = λ j ne. refl;
    same_consumer = refl;
  }
  Move-OnRing num_writer {s} i v (Move.begin_enqueue payload e f) = record {
    ring = record (ring_of s i) { producer = Producer.counting payload };
    kept = stands v (Producer.counting payload) f;
    here = rw (update_self) refl;
    away = λ j ne. ground arith;
    same_consumer = refl;
  }
  Move-OnRing num_writer {s} i v (Move.count payload e) = record {
    ring = record (ring_of s i) { producer = Producer.copying payload (to_uint s.id_cnt) 0 };
    kept =
        stands v (Producer.copying payload (to_uint s.id_cnt) 0)
          (subst (PutSoFar n size (ring_of s i)) e v.put_part, λ j l. elim l [ ]);
    here = rw (update_self) refl;
    away = λ j ne. ground arith;
    same_consumer = refl;
  }
  Move-OnRing num_writer {s} i v (Move.copy_byte payload id k e l) = record {
    ring = record (ring_of s i) {
      producer = Producer.copying payload id (k + 1);
      bytes =
          update (s.bytes i) (s.queues i).tail (update (s.bytes i (s.queues i).tail) k (payload k));
    };
    kept = byte v payload id k (subst (PutSoFar n size (ring_of s i)) e v.put_part);
    here = rw (update_self, update_self) refl;
    away = λ j ne. ground arith;
    same_consumer = refl;
  }
  Move-OnRing num_writer {s} i v (Move.copied payload id e) = record {
    ring = record (ring_of s i) { producer = Producer.stamping payload id };
    kept =
        stands v (Producer.stamping payload id)
          (subst (PutSoFar n size (ring_of s i)) e v.put_part);
    here = rw (update_self) refl;
    away = λ j ne. ground arith;
    same_consumer = refl;
  }
  Move-OnRing num_writer {s} i v (Move.stamp payload id e) = record {
    ring = record (ring_of s i) {
      producer = Producer.publishing payload id;
      ids = update (s.ids i) (s.queues i).tail id;
    };
    kept = id_set v payload id (subst (PutSoFar n size (ring_of s i)) e v.put_part);
    here = rw (update_self, update_self) refl;
    away = λ j ne. ground arith;
    same_consumer = refl;
  }
  Move-OnRing num_writer {s} i v (Move.publish payload id e) = record {
    ring = record (ring_of s i) {
      producer = Producer.idle;
      queue = record (s.queues i) { tail = ((s.queues i).tail + 1) % n };
      sent = s.sent i ++ (record { id = id; body = load payload 0 size } ∷ []);
    };
    kept = publishes v payload id (subst (PutSoFar n size (ring_of s i)) e v.put_part);
    here = rw (update_self, update_self, update_self) refl;
    away = λ j ne. ground arith;
    same_consumer = refl;
  }
