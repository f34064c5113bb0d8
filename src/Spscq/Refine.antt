-- ===== src/Spscq/Refine.antt =====
-- The functions of src/spscq.c, used alone, as operations on a list of messages.
use librtipc.Prelude.{
  ℕ, ◌+◌, ◌-◌, ◌*◌, ◌%◌, ◌<◌, ◌≡◌, ◌⊎◌, ◌≢◌, ap, ◌∙◌, List, [], ◌∷◌, ◌++◌, arith, ==_of_ne, length,
}
use librtipc.Status.{ok, received}
use librtipc.Memory.{Bytes}
use librtipc.Memory.Slots.{load, load-memcpy, load-memcpy_ne}
use librtipc.Ring.{
  contents, used, after, contents-empty, contents-front, contents-store, length-contents, used-lt,
  used-full, used-after, after-lt,
}
use librtipc.Fifo
use librtipc.Spscq.{Descriptor, Segment, enqueue, dequeue}

-- Both indices name slots.
pub record IsValid (qd : Descriptor) (q : Segment) : Type 0 where
  pub head_in : q.head < qd.num_slots
  pub next_in : q.next_slot < qd.num_slots

-- the messages in the queue, oldest first
unfoldable pub messages : Descriptor → Segment → List (List ℕ)
messages qd q =
    contents qd.num_slots (λ i. load q.slots (i * qd.slot_size) qd.slot_size) q.head q.next_slot

pub enqueue-IsValid :
    {qd : Descriptor} {q : Segment} (payload : Bytes)
    → IsValid qd q
    → IsValid qd (enqueue qd payload q).1
unfolding enqueue
enqueue-IsValid {qd} {q} payload v = ground (arith, after-lt qd.num_slots q.next_slot v.next_in)

pub dequeue-IsValid :
    {qd : Descriptor} {q : Segment} (payload : Bytes)
    → IsValid qd q
    → IsValid qd (dequeue qd payload q).2
unfolding dequeue
dequeue-IsValid {qd} {q} payload v = ground (arith, after-lt qd.num_slots q.head v.head_in)

module _ {qd : Descriptor} {q : Segment} (v : IsValid qd q) (payload : Bytes) where
  abbrev slot : ℕ → List ℕ
  slot i = load q.slots (i * qd.slot_size) qd.slot_size

  length-messages : length (messages qd q) ≡ used qd.num_slots q.head q.next_slot
  unfolding messages
  length-messages = length-contents qd.num_slots _ q.head q.next_slot

  messages-enqueue :
      (q.next_slot + 1) % qd.num_slots ≢ q.head
      → messages qd (enqueue qd payload q).1 ≡ messages qd q ++ (load payload 0 qd.slot_size ∷ [])
  unfolding messages enqueue
  messages-enqueue more = rw (==_of_ne _ _ more) (
      contents-store qd.num_slots _ q.head q.next_slot _ v.head_in v.next_in more
        (λ i ne. load-memcpy_ne q.slots q.next_slot i payload 0 qd.slot_size ne)
      ∙ ap (λ m. messages qd q ++ (m ∷ []))
          (load-memcpy q.slots (q.next_slot * qd.slot_size) payload 0 qd.slot_size))

  -- With both indices in range, `spscq_enqueue` returns -1 and leaves the messages as they are
  -- exactly when the queue holds `num_slots - 1` of them; otherwise it returns 0 and appends the
  -- message.
  pub enqueue_refines :
      let (s, q') = enqueue qd payload q in
      (s, messages qd q')
      ≡ Fifo.put (qd.num_slots - 1) (load payload 0 qd.slot_size) (messages qd q)
  unfolding enqueue Fifo.put
  enqueue_refines = ground (
    arith,
    messages-enqueue,
    length-messages,
    used-full qd.num_slots q.head q.next_slot v.head_in v.next_in,
    used-after qd.num_slots q.head q.next_slot v.head_in v.next_in,
    used-lt qd.num_slots q.head (after qd.num_slots q.next_slot) v.head_in
        (after-lt qd.num_slots q.next_slot v.next_in),
  )

  -- With both indices in range, `spscq_dequeue` returns -1 exactly when the queue is empty;
  -- otherwise it takes the oldest message into the buffer. Unless it returns 0 it leaves queue and
  -- buffer alone.
  pub dequeue_refines :
      let (s, out, q') = dequeue qd payload q in
      ((received s (load out 0 qd.slot_size), messages qd q') ≡ Fifo.take (messages qd q))
      × ((s ≡ ok) ⊎ ((out ≡ payload) × (q' ≡ q)))
  unfolding dequeue Fifo.take messages
  dequeue_refines = ground (
    arith,
    contents-empty qd.num_slots slot q.head q.next_slot,
    contents-front qd.num_slots slot q.head q.next_slot v.head_in v.next_in,
    load-memcpy payload 0 q.slots (q.head * qd.slot_size) qd.slot_size,
  )
