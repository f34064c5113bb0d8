-- ===== src/Spscq.antt =====
-- src/spscq.c and include/spscq.h: a queue with one producer and one consumer over a ring of slots
-- in shared memory. The functions here run alone; `Concurrent` interleaves them.
pub mod Refine
pub mod Concurrent
use librtipc.Prelude.{ℕ, ◌+◌, ◌*◌, ◌%◌, ◌==◌, if◌then◌else◌, Option}
use librtipc.Object.{Segments, World, get as get_object, obtain, release as release_object}
use librtipc.Status.{Status, ok, fail}
use librtipc.Memory.{Bytes, memcpy}

-- `spscq_d_t`; `q` is the address of the segment. The operations take the segment beside it.
pub record Descriptor : Type 0 where
  pub obj_id : ℕ
  pub q : ℕ
  pub slot_size : ℕ
  pub num_slots : ℕ

-- `spscq_head_t` after its fields `lock` and `init`, which are those of `Object.Shared`, and the
-- slots that follow it in the segment
pub record Segment : Type 0 where
  pub head : ℕ
  pub next_slot : ℕ
  pub slots : Bytes

-- `spscq_enqueue`: the message is the first `slot_size` bytes at `payload`.
unfoldable pub enqueue : Descriptor → Bytes → Segment → Status × Segment
enqueue qd payload q = if (q.next_slot + 1) % qd.num_slots == q.head then (fail, q) else (
  ok,
  record q {
    slots = memcpy q.slots (q.next_slot * qd.slot_size) payload 0 qd.slot_size;
    next_slot = (q.next_slot + 1) % qd.num_slots;
  },
)

-- `spscq_dequeue`: the second part of the result is the caller's buffer.
unfoldable pub dequeue : Descriptor → Bytes → Segment → Status × Bytes × Segment
dequeue qd payload q = if q.head == q.next_slot then (fail, payload, q) else (
  ok,
  memcpy payload 0 q.slots (q.head * qd.slot_size) qd.slot_size,
  record q { head = (q.head + 1) % qd.num_slots },
)

-- `qd->q->head = 0; qd->q->next_slot = 0;`
unfoldable pub setup : Segment → Segment
setup q = record q { head = 0; next_slot = 0 }

-- `spscq_get`; `sizeof(spscq_head_t)` is 16.
unfoldable pub get :
    (S : Segments)
    → ℕ
    → Descriptor
    → (obj_id slot_size num_slots : ℕ) → World S Segment
    → Option (Status × Descriptor × World S Segment)
unfolding setup get_object obtain
get S fuel qd obj_id slot_size num_slots w =
    let qd' : Descriptor = record qd {
      obj_id = obj_id;
      slot_size = slot_size;
      num_slots = num_slots;
    } in
    obtain S qd' (λ a. record qd' { q = a })
      (get_object S fuel setup (16 + num_slots * slot_size) obj_id w)

-- `spscq_release`
unfoldable pub release : (S : Segments) → Descriptor → World S Segment → Status × World S Segment
unfolding release_object
release S qd w = release_object S qd.obj_id w
