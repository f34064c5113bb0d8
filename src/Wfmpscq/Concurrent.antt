-- ===== src/Wfmpscq/Concurrent.antt =====
-- src/wfmpscq.c under its producers and its consumer, one shared access at a time: `wfmpscq_enqueue` of
-- any number of processes, each with a ring of its own, and `wfmpscq_dequeue` of one. Slot `k` of ring
-- `i` has the id `ids i k` and the bytes `bytes i k`. Memory is sequentially consistent.
pub mod Steps
pub mod Rings
pub mod Producing
pub mod Consuming
pub mod Safety
pub mod Order
pub mod Seen
pub mod Oldest
pub mod Turns
pub mod WaitFree
pub mod Bounded
use librtipc.Prelude.{ℕ, ◌+◌, ◌%◌, ◌++◌, List, [], ◌∷◌, Option, none, some, update}
use librtipc.Memory.{Bytes}
use librtipc.Memory.Slots.{load}
use librtipc.Wfmpscq.{Queue, to_uint}

-- Where a producer stands in `wfmpscq_enqueue`.
pub data Producer : Type 0 where
  idle : Producer
  counting : (payload : Bytes) → Producer  -- before `atomic_faa64u`; its ring has room
  copying : (payload : Bytes) (id k : ℕ) → Producer  -- `k` bytes are copied
  stamping : (payload : Bytes) (id : ℕ) → Producer  -- before `slot_ptr->id = id`
  publishing : (payload : Bytes) (id : ℕ) → Producer  -- before the ring gets its new tail

-- Where the consumer stands in `wfmpscq_dequeue`; `q` is `queue_id`, `none` being -1.
pub data Consumer : Type 0 where
  idle : Consumer
  scanning : (out : Bytes) (i min_id : ℕ) (q : Option ℕ) → Consumer  -- head of the first loop
  weighing : (out : Bytes) (i min_id : ℕ) (q : Option ℕ) → Consumer  -- ring `i` is not empty: before its id
  turning : (out : Bytes) (rounds : ℕ) → Consumer  -- head of the second loop
  naming : (out : Bytes) (q : ℕ) → Consumer  -- after the second loop, before `msg_id` is read
  copying : (out : Bytes) (q msg_id k : ℕ) → Consumer  -- `k` bytes are copied

-- A message with its id
pub record Message : Type 0 where
  pub id : ℕ
  pub body : List ℕ

-- The segment, the static variable `lastqueue`, where the processes stand; and the history: for each ring
-- the messages that have been enqueued and those that have been dequeued, and what was in it when the last
-- dequeue began; and what `lastqueue` was then.
pub record System : Type 0 where
  pub id_cnt : ℕ
  pub queues : ℕ → Queue
  pub ids : ℕ → ℕ → ℕ
  pub bytes : ℕ → ℕ → Bytes
  pub lastqueue : ℕ
  pub producers : ℕ → Producer
  pub consumer : Consumer
  pub sent : ℕ → List Message
  pub got : ℕ → List Message
  pub seen : ℕ → List Message
  pub from : ℕ

-- As `wfmpscq_get` sets the segment up; slots are whatever they were.
abbrev pub initial : (ℕ → ℕ → ℕ) → (ℕ → ℕ → Bytes) → System
initial ids bytes = record {
  id_cnt = 0;
  queues = λ i. record { head = 0; tail = 0 };
  ids = ids;
  bytes = bytes;
  lastqueue = 0;
  producers = λ i. Producer.idle;
  consumer = Consumer.idle;
  sent = λ i. [];
  got = λ i. [];
  seen = λ i. [];
  from = 0;
}

-- Producer `i` goes on to `p`, the consumer to `c`.
abbrev pub goes : System → ℕ → Producer → System
goes s i p = record s { producers = update s.producers i p }

abbrev pub turns : System → Consumer → System
turns s c = record s { consumer = c }

-- `id = atomic_faa64u(&(qd->mem->id_cnt), 1)`
abbrev pub counted : System → ℕ → Bytes → System
counted s i payload = record (goes s i (Producer.copying payload (to_uint s.id_cnt) 0)) {
  id_cnt = s.id_cnt + 1;
}

abbrev pub byte_copied : System → ℕ → Bytes → ℕ → ℕ → System
byte_copied s i payload id k =
    let t = (s.queues i).tail in
    record (goes s i (Producer.copying payload id (k + 1))) {
      bytes = update s.bytes i (update (s.bytes i) t (update (s.bytes i t) k (payload k)));
    }

abbrev pub stamped : System → ℕ → Bytes → ℕ → System
stamped s i payload id = record (goes s i (Producer.publishing payload id)) {
  ids = update s.ids i (update (s.ids i) (s.queues i).tail id);
}

module _ (num_slots size : ℕ) where
  -- The message that is in slot `k` of ring `i`
  abbrev pub message : System → ℕ → ℕ → Message
  message s i k = record { id = s.ids i k; body = load (s.bytes i k) 0 size }

  abbrev pub published : System → ℕ → Bytes → ℕ → System
  published s i payload id =
      let q = s.queues i in
      record (goes s i Producer.idle) {
        queues = update s.queues i (record q { tail = (q.tail + 1) % num_slots });
        sent = update s.sent i (s.sent i ++ (record { id = id; body = load payload 0 size } ∷ []));
      }

  -- `qd->queues[queue_id].head = (head + 1) % (qd->numSlots)`
  abbrev pub released : System → Bytes → ℕ → ℕ → System
  released s out i msg_id =
      let q = s.queues i in
      record (turns s Consumer.idle) {
        queues = update s.queues i (record q { head = (q.head + 1) % num_slots });
        got = update s.got i (s.got i ++ (record { id = msg_id; body = load out 0 size } ∷ []));
      }
