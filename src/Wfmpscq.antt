-- ===== src/Wfmpscq.antt =====
-- src/wfmpscq.c and include/wfmpscq.h: several producers, each with a ring of its own, and one
-- consumer that takes the message with the least id, or goes round the rings. The functions run
-- alone.
pub mod Minimum
pub mod Entries
pub mod Fifo
pub mod Concurrent
use librtipc.Prelude.{
  ℕ, zero, suc, ◌+◌, ◌-◌, ◌*◌, ◌%◌, ◌^◌, Bool, ◌==◌, ltb, ◌&&◌, true, false, if◌then◌else◌, Option,
  none, some, update,
}
use librtipc.Status.{Status, ok, fail}
use librtipc.Atomic.{faa64u}
use librtipc.Memory.{Bytes, memcpy}
use librtipc.Object.{Segments, World, get as get_object, obtain, release as release_object}

-- `enum wfmpscq_deqstrategy`; any other value of the C type is `other`.
pub data Strategy : Type 0 where
  id_absolute : Strategy
  round_robin : Strategy
  other : Strategy

-- `wfmpscq_d_t`; `mem` is the address of the segment.
pub record Descriptor : Type 0 where
  pub obj_id : ℕ
  pub mem : ℕ
  pub writer_id : ℕ
  pub num_writer : ℕ
  pub dqstrat : Strategy
  pub node_data_size : ℕ
  pub num_slots : ℕ

-- `wfmpscq_queue_d_t`
pub record Queue : Type 0 where
  pub head : ℕ
  pub tail : ℕ

-- `wfmpscq_head_t` after its fields `lock` and `init`, which are those of `Object.Shared`; the
-- rings; the ids of the slots (`wfmpscq_slot_t`), ring after ring; and the messages.
pub record Segment : Type 0 where
  pub id_cnt : ℕ
  pub queues : ℕ → Queue
  pub ids : ℕ → ℕ
  pub payloads : Bytes

-- 0xffffffff: `MAXID`, and the word that -1 is as an int
abbrev pub max_id : ℕ
max_id = 2 ^ 32 - 1

-- `unsigned int x = …` of a value of 64 bits
abbrev pub to_uint : ℕ → ℕ
to_uint x = x % 2 ^ 32

-- `wfmpscq_enqueue`. The flag says whether `atomic_faa64u` is compiled for 64 bits.
unfoldable pub enqueue : Bool → Descriptor → Bytes → Segment → Status × Segment
unfolding faa64u
enqueue amd64 qd payload s =
    let queue = s.queues qd.writer_id in
    let tail_next = (queue.tail + 1) % qd.num_slots in
    let (counted, id_cnt) = faa64u amd64 s.id_cnt 1 in
    let slot_idx = queue.tail in
    let offset = qd.writer_id * qd.num_slots * qd.node_data_size + slot_idx * qd.node_data_size in
    if tail_next == queue.head then (fail, s) else (
      ok,
      record {
        id_cnt = id_cnt;
        queues =
            update s.queues qd.writer_id (record queue { tail = (queue.tail + 1) % qd.num_slots });
        ids = update s.ids (qd.writer_id * qd.num_slots + slot_idx) (to_uint counted);
        payloads = memcpy s.payloads offset payload 0 qd.node_data_size;
      },
    )

-- The id of the first used slot of ring `i`
abbrev pub head_id : Descriptor → Segment → ℕ → ℕ
head_id qd s i = to_uint (s.ids (i * qd.num_slots + (s.queues i).head))

-- The test of the first loop of `wfmpscq_dequeue`
abbrev pub improves : Descriptor → Segment → ℕ → ℕ → Bool
improves qd s i min_id =
    (if (s.queues i).head == (s.queues i).tail then false else true) && ltb (head_id qd s i) min_id

-- The first loop of `wfmpscq_dequeue`, from ring `i` on with the given number of rings left; gives
-- `min_id` and `queue_id`, `none` being -1.
unfoldable pub find_min : Descriptor → Segment → (rings : ℕ) → (i : ℕ) → ℕ → Option ℕ → ℕ × Option ℕ
find_min qd s zero i min_id queue_id = (min_id, queue_id)
find_min qd s (suc k) i min_id queue_id =
    find_min qd s k (i + 1) (if improves qd s i min_id then head_id qd s i else min_id)
      (if improves qd s i min_id then some i else queue_id)

-- The second loop, with its static variable `lastqueue`; gives that and `queue_id`.
unfoldable pub find_next : Descriptor → Segment → (rings : ℕ) → (lastqueue : ℕ) → ℕ × Option ℕ
find_next qd s zero lastqueue = (lastqueue, none)
find_next qd s (suc k) lastqueue =
    let next = (lastqueue + 1) % qd.num_writer in
    let rest = find_next qd s k next in
    if (s.queues next).head == (s.queues next).tail then rest else (next, some next)

-- What a call of `wfmpscq_dequeue` gives back: the int that it returns, as a word, the caller's
-- buffer, `lastqueue` and the segment.
pub record Dequeued : Type 0 where
  pub ret : ℕ
  pub out : Bytes
  pub lastqueue : ℕ
  pub segment : Segment

-- From `if (queue_id == -1)` on.
unfoldable pub take_from : Descriptor → Option ℕ → ℕ → Bytes → ℕ → Segment → Dequeued
take_from qd none msg_id out lastqueue s = record {
  ret = max_id;
  out = out;
  lastqueue = lastqueue;
  segment = s;
}
take_from qd (some queue_id) msg_id out lastqueue s =
    let head = (s.queues queue_id).head in
    let offset = queue_id * qd.num_slots * qd.node_data_size + head * qd.node_data_size in
    record {
      ret = msg_id;
      out = memcpy out 0 s.payloads offset qd.node_data_size;
      lastqueue = lastqueue;
      segment = record s {
        queues =
            update s.queues queue_id
              (record (s.queues queue_id) { head = (head + 1) % qd.num_slots });
      };
    }

-- `wfmpscq_dequeue`. Going round the rings it reads the id of a slot also when it has found no ring,
-- at an index below the array; that value is not used, and the read is left out.
unfoldable pub dequeue_by : Strategy → Descriptor → Bytes → ℕ → Segment → Dequeued
dequeue_by id_absolute qd out lastqueue s =
    let (min_id, queue_id) = find_min qd s qd.num_writer 0 max_id none in
    take_from qd queue_id min_id out lastqueue s
dequeue_by round_robin qd out lastqueue s =
    let (last, queue_id) = find_next qd s qd.num_writer lastqueue in
    take_from qd queue_id (head_id qd s last) out last s
dequeue_by other qd out lastqueue s = record {
  ret = max_id;
  out = out;
  lastqueue = lastqueue;
  segment = s;
}

unfoldable pub dequeue : Descriptor → Bytes → ℕ → Segment → Dequeued
unfolding dequeue_by find_min find_next take_from
dequeue qd out lastqueue s = dequeue_by qd.dqstrat qd out lastqueue s

-- The loop of `wfmpscq_get` over the rings
unfoldable pub clear_queues : (rings : ℕ) → (i : ℕ) → (ℕ → Queue) → ℕ → Queue
clear_queues zero i qs = qs
clear_queues (suc k) i qs = clear_queues k (i + 1) (update qs i (record { head = 0; tail = 0 }))

unfoldable pub setup : ℕ → Segment → Segment
unfolding clear_queues
setup num_writer s = record s { id_cnt = 0; queues = clear_queues num_writer 0 s.queues }

-- `wfmpscq_get`; `wfmpscq_head_t` is 16 bytes, `wfmpscq_queue_d_t` and `wfmpscq_slot_t` are 8.
unfoldable pub get :
    (S : Segments)
    → ℕ
    → Descriptor
    → (obj_id num_writer writer_id : ℕ) → Strategy
    → (node_data_size num_slots : ℕ) → World S Segment
    → Option (Status × Descriptor × World S Segment)
unfolding setup get_object obtain
get S fuel qd obj_id num_writer writer_id dqstrat node_data_size num_slots w =
    let qd' : Descriptor = record {
      obj_id = obj_id;
      mem = qd.mem;
      writer_id = writer_id;
      num_writer = num_writer;
      dqstrat = dqstrat;
      node_data_size = node_data_size;
      num_slots = num_slots;
    } in
    let size =
      16 + num_writer * 8 + num_writer * num_slots * 8 + num_writer * num_slots * node_data_size in
    obtain S qd' (λ a. record qd' { mem = a }) (get_object S fuel (setup num_writer) size obj_id w)

-- `wfmpscq_release`
unfoldable pub release : (S : Segments) → Descriptor → World S Segment → Status × World S Segment
unfolding release_object
release S qd w = release_object S qd.obj_id w
