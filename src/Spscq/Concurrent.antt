-- ===== src/Spscq/Concurrent.antt =====
-- The queue of src/spscq.c under its producer and its consumer, one shared access at a time:
-- `spscq_enqueue` tests, copies the message byte by byte, and moves `next_slot`; `spscq_dequeue`
-- tests, copies out byte by byte, and moves `head`. Each index has one writer, so a test reads only
-- one variable that may change. Memory is sequentially consistent, which the barriers of the source
-- are there for.
pub mod Safety
use librtipc.Prelude.{ℕ, ◌+◌, ◌*◌, ◌%◌, ◌<◌, ◌≡◌, ◌≢◌, List, [], ◌∷◌, ◌++◌, update}
use librtipc.Memory.{Bytes}
use librtipc.Memory.Slots.{load}

-- Where `spscq_enqueue` stands: outside, or copying `payload` with `k` bytes copied.
pub data Producer : Type 0 where
  idle : Producer
  copying : (payload : Bytes) (k : ℕ) → Producer

-- Where `spscq_dequeue` stands: outside, or copying into `out` with `k` bytes copied.
pub data Consumer : Type 0 where
  idle : Consumer
  copying : (out : Bytes) (k : ℕ) → Consumer

-- The segment, where the two processes stand, and the history: the messages whose enqueue and those
-- whose dequeue has returned 0.
pub record System : Type 0 where
  pub head : ℕ
  pub next_slot : ℕ
  pub slots : Bytes
  pub producer : Producer
  pub consumer : Consumer
  pub sent : List (List ℕ)
  pub got : List (List ℕ)

module _ (num_slots slot_size : ℕ) where
  -- `dstptr[k] = srcptr[k]` in the next free slot
  abbrev pub with_byte : System → Bytes → ℕ → System
  with_byte s payload k = record s {
    slots = update s.slots (s.next_slot * slot_size + k) (payload k);
    producer = Producer.copying payload (k + 1);
  }

  -- `qd->q->next_slot = (qd->q->next_slot + 1) % qd->numSlots`
  abbrev pub published : System → Bytes → System
  published s payload = record s {
    next_slot = (s.next_slot + 1) % num_slots;
    producer = Producer.idle;
    sent = s.sent ++ (load payload 0 slot_size ∷ []);
  }

  -- `dstptr[k] = srcptr[k]` from the first used slot
  abbrev pub with_read : System → Bytes → ℕ → System
  with_read s out k = record s {
    consumer = Consumer.copying (update out k (s.slots (s.head * slot_size + k))) (k + 1);
  }

  -- `qd->q->head = (qd->q->head + 1) % qd->numSlots`
  abbrev pub released : System → Bytes → System
  released s out = record s {
    head = (s.head + 1) % num_slots;
    consumer = Consumer.idle;
    got = s.got ++ (load out 0 slot_size ∷ []);
  }

  pub data Step (s : System) : System → Type 0 where
    -- the producer
    refuse : s.producer ≡ Producer.idle → (s.next_slot + 1) % num_slots ≡ s.head → Step s s
    begin_put :
        (payload : Bytes)
        → s.producer ≡ Producer.idle
        → (s.next_slot + 1) % num_slots ≢ s.head
        → Step s (record s { producer = Producer.copying payload 0 })
    put_byte :
        (payload : Bytes) (k : ℕ)
        → s.producer ≡ Producer.copying payload k
        → k < slot_size
        → Step s (with_byte s payload k)
    publish :
        (payload : Bytes)
        → s.producer ≡ Producer.copying payload slot_size
        → Step s (published s payload)
    -- the consumer
    find_empty : s.consumer ≡ Consumer.idle → s.head ≡ s.next_slot → Step s s
    begin_take :
        (out : Bytes)
        → s.consumer ≡ Consumer.idle
        → s.head ≢ s.next_slot
        → Step s (record s { consumer = Consumer.copying out 0 })
    take_byte :
        (out : Bytes) (k : ℕ)
        → s.consumer ≡ Consumer.copying out k
        → k < slot_size
        → Step s (with_read s out k)
    release : (out : Bytes) → s.consumer ≡ Consumer.copying out slot_size → Step s (released s out)

  -- The segment as `spscq_get` sets it up; the bytes of the slots are whatever they were.
  abbrev pub initial : Bytes → System
  initial mem = record {
    head = 0;
    next_slot = 0;
    slots = mem;
    producer = Producer.idle;
    consumer = Consumer.idle;
    sent = [];
    got = [];
  }

  pub data Reach (mem : Bytes) : System → Type 0 where
    start : Reach mem (initial mem)
    later : {s t : System} → Reach mem s → Step s t → Reach mem t
