-- ===== src/Spscq/Concurrent/Safety.antt =====
-- What every interleaving of the producer and the consumer keeps.
use mathlib.Core.Path.{subst}
use native.Mathlib.Nat.{le_trans, zero-add}
use librtipc.Prelude.{
  ℕ, ◌+◌, ◌*◌, ◌%◌, ◌<◌, ◌≤◌, ◌≡◌, ◌≢◌, refl, ap, ap₂, sym, ◌∙◌, List, [], ◌∷◌, ◌++◌, append_assoc,
  arith, length,
}
use librtipc.Memory.{Bytes}
use librtipc.Memory.Slots.{load, load_congr, load-update_ne, byte-update_ne}
use librtipc.Ring.{
  contents, after, after-lt, contents-empty, contents-front, contents-store, contents-keep,
  after-injective, length-contents, used-lt,
}
use librtipc.Spscq.Concurrent.{
  Producer, Consumer, System, Step, refuse, begin_put, put_byte, publish, find_empty, begin_take,
  take_byte, release, with_byte, published, released, initial, Reach, start, later,
}

module _ (n size : ℕ) where
  -- the messages in the ring, oldest first
  abbrev pub in_flight : System → List (List ℕ)
  in_flight s = contents n (λ i. load s.slots (i * size) size) s.head s.next_slot

  abbrev PutSoFar : System → Producer → Type 0
  PutSoFar s Producer.idle = Unit {0}
  PutSoFar s (Producer.copying payload k) =
      (after n s.next_slot ≢ s.head)
      × ((j : ℕ) → j < k → s.slots (s.next_slot * size + j) ≡ payload j)

  abbrev TakenSoFar : System → Consumer → Type 0
  TakenSoFar s Consumer.idle = Unit {0}
  TakenSoFar s (Consumer.copying out k) =
      (s.head ≢ s.next_slot) × (k ≤ size) × ((j : ℕ) → j < k → out j ≡ s.slots (s.head * size + j))

  pub record Inv (s : System) : Type 0 where
    pub head_in : s.head < n
    pub next_in : s.next_slot < n
    pub put_part : PutSoFar s s.producer
    pub take_part : TakenSoFar s s.consumer
    pub flow : s.sent ≡ s.got ++ in_flight s

  pub Inv-initial : (mem : Bytes) → 0 < n → Inv (initial n size mem)
  Inv-initial mem h = record {
    head_in = h;
    next_in = h;
    put_part = tt;
    take_part = tt;
    flow = sym (contents-empty n _ 0 0 refl);
  }

  -- What the other process does to the ring leaves a copy in progress alone.
  keep_put :
      (s t : System) (p : Producer)
      → t.next_slot ≡ s.next_slot
      → t.slots ≡ s.slots
      → (after n s.next_slot ≢ s.head → after n s.next_slot ≢ t.head)
      → PutSoFar s p
      → PutSoFar t p
  keep_put s t Producer.idle a b c h = tt
  keep_put s t (Producer.copying payload k) a b c h = rw (a, b) (c h.0, h.1)

  keep_taken :
      (s t : System) (c : Consumer)
      → t.head ≡ s.head
      → (s.head ≢ s.next_slot → s.head ≢ t.next_slot)
      → ((j : ℕ)
          → j < size
          → s.head ≢ s.next_slot
          → t.slots (s.head * size + j) ≡ s.slots (s.head * size + j))
      → TakenSoFar s c
      → TakenSoFar t c
  keep_taken s t Consumer.idle a b c h = tt
  keep_taken s t (Consumer.copying out k) a b c h =
      rw a (b h.0, h.1, λ j l. h.2 j l ∙ sym (c j (le_trans l h.1) h.0))

  module _ {s : System} (v : Inv s) where
    put_byte-Inv :
        (payload : Bytes) (k : ℕ)
        → PutSoFar s (Producer.copying payload k)
        → k < size
        → Inv (with_byte n size s payload k)
    put_byte-Inv payload k p lt = record {
      head_in = v.head_in;
      next_in = v.next_in;
      put_part = (p.0, λ j h. ground (arith, p.1 j));
      take_part =
          keep_taken s (with_byte n size s payload k) s.consumer refl (λ h. h)
            (λ j l ne. byte-update_ne s.slots s.next_slot s.head k j (payload k) size ne lt l)
            v.take_part;
      flow =
          v.flow
          ∙ ap (λ c. s.got ++ c)
              (sym (
                contents-keep n _ s.head s.next_slot _ v.head_in v.next_in
                  (λ i ne. load-update_ne s.slots s.next_slot i k (payload k) size ne lt)));
    }

    publish-Inv :
        (payload : Bytes)
        → PutSoFar s (Producer.copying payload size)
        → Inv (published n size s payload)
    publish-Inv payload p = record {
      head_in = v.head_in;
      next_in = after-lt n s.next_slot v.next_in;
      put_part = tt;
      take_part =
          keep_taken s (published n size s payload) s.consumer refl (λ _ e. p.0 (sym e))
            (λ j l ne. refl) v.take_part;
      flow =
          ap₂ ◌++◌ v.flow (
            ap (λ m. m ∷ [])
              (sym (load_congr s.slots payload _ 0 size (λ j l. rw zero-add (p.1 j l)))))
          ∙ append_assoc s.got _ _
          ∙ ap (λ c. s.got ++ c)
              (sym
                (contents-store n _ s.head s.next_slot _ v.head_in v.next_in p.0 (λ i ne. refl)));
    }

    release-Inv :
        (out : Bytes) → TakenSoFar s (Consumer.copying out size) → Inv (released n size s out)
    release-Inv out c = record {
      head_in = after-lt n s.head v.head_in;
      next_in = v.next_in;
      put_part =
          keep_put s (released n size s out) s.producer refl refl
            (λ _ e. c.0 (sym (after-injective n s.next_slot s.head v.next_in v.head_in e)))
            v.put_part;
      take_part = tt;
      flow =
          v.flow
          ∙ ap (λ c. s.got ++ c) (contents-front n _ s.head s.next_slot v.head_in v.next_in c.0)
          ∙ sym (append_assoc s.got _ _)
          ∙ ap (λ m. (s.got ++ (m ∷ [])) ++ in_flight (record s { head = (s.head + 1) % n }))
              (sym (load_congr out s.slots 0 _ size (λ j l. rw zero-add (c.2 j l))));
    }

  -- Every step of either process keeps the invariant.
  pub Step-Inv : {s t : System} → Step n size s t → Inv s → Inv t
  Step-Inv (refuse e f) v = v
  Step-Inv (find_empty e f) v = v
  Step-Inv (begin_put payload e f) v = record {
    head_in = v.head_in;
    next_in = v.next_in;
    put_part = (f, λ j h. elim h [ ]);
    take_part = v.take_part;
    flow = v.flow;
  }
  Step-Inv {s} (put_byte payload k e f) v =
      put_byte-Inv v payload k (subst (PutSoFar s) e v.put_part) f
  Step-Inv {s} (publish payload e) v = publish-Inv v payload (subst (PutSoFar s) e v.put_part)
  Step-Inv (begin_take out e f) v = record {
    head_in = v.head_in;
    next_in = v.next_in;
    put_part = v.put_part;
    take_part = (f, omega arith, λ j h. elim h [ ]);
    flow = v.flow;
  }
  Step-Inv {s} (take_byte out k e f) v = record {
    head_in = v.head_in;
    next_in = v.next_in;
    put_part = v.put_part;
    take_part =
        let c = subst (TakenSoFar s) e v.take_part in
        (c.0, omega arith, λ j h. ground (arith, c.2 j));
    flow = v.flow;
  }
  Step-Inv {s} (release out e) v = release-Inv v out (subst (TakenSoFar s) e v.take_part)

  pub Reach-Inv : {mem : Bytes} {s : System} → 0 < n → Reach n size mem s → Inv s
  Reach-Inv {mem} h start = Inv-initial mem h
  Reach-Inv h (later r st) = Step-Inv st (Reach-Inv h r)

  -- In every interleaving of the producer and the consumer, over at least one slot, what has been
  -- dequeued and then what is in the ring is exactly what has been enqueued, whole messages in
  -- their order; and the ring holds fewer messages than slots.
  pub fifo :
      {mem : Bytes} {s : System}
      → 0 < n
      → Reach n size mem s
      → (s.sent ≡ s.got ++ in_flight s) × (length (in_flight s) < n)
  fifo {s} h r = (
    inv.flow,
    rw (length-contents n _ s.head s.next_slot)
        (used-lt n s.head s.next_slot inv.head_in inv.next_in),
  )
    where
      inv : Inv s
      inv = Reach-Inv h r
