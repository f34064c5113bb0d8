-- ===== src/Wfmpscq/Concurrent/Steps.antt =====
-- The steps of the producers and of the consumer of src/wfmpscq.c.
use librtipc.Prelude.{ℕ, suc, ◌+◌, ◌%◌, ◌<◌, ◌≡◌, ◌≢◌, Option, none, some, List, update}
use librtipc.Memory.{Bytes}
use librtipc.Ring.{contents}
use librtipc.Wfmpscq.{max_id}
use librtipc.Wfmpscq.Concurrent.{
  Producer, Consumer, Message, System, initial, goes, turns, counted, byte_copied, stamped, message,
  published, released,
}

module _ (num_slots size num_writer : ℕ) where
  -- The messages in ring `i`, oldest first
  abbrev pub in_flight : System → ℕ → List Message
  in_flight s i =
      contents num_slots (message num_slots size s i) (s.queues i).head (s.queues i).tail

  -- The consumer begins a dequeue.
  abbrev pub begun : System → Consumer → System
  begun s c = record s { consumer = c; seen = in_flight s; from = s.lastqueue }

  -- `(lastqueue + 1) % qd->numWriter`
  abbrev pub next_queue : System → ℕ
  next_queue s = (s.lastqueue + 1) % num_writer

  -- A step of producer `i`
  pub data Move (s : System) (i : ℕ) : System → Type 0 where
    refuse :
        s.producers i ≡ Producer.idle
        → ((s.queues i).tail + 1) % num_slots ≡ (s.queues i).head
        → Move s i s
    begin_enqueue :
        (payload : Bytes)
        → s.producers i ≡ Producer.idle
        → ((s.queues i).tail + 1) % num_slots ≢ (s.queues i).head
        → Move s i (goes s i (Producer.counting payload))
    count :
        (payload : Bytes)
        → s.producers i ≡ Producer.counting payload
        → Move s i (counted s i payload)
    -- An attempt of `atomic_faa64u` whose exclusive store fails, which only that of arch/arm makes
    count_again : (payload : Bytes) → s.producers i ≡ Producer.counting payload → Move s i s
    copy_byte :
        (payload : Bytes) (id k : ℕ)
        → s.producers i ≡ Producer.copying payload id k
        → k < size
        → Move s i (byte_copied s i payload id k)
    copied :
        (payload : Bytes) (id : ℕ)
        → s.producers i ≡ Producer.copying payload id size
        → Move s i (goes s i (Producer.stamping payload id))
    stamp :
        (payload : Bytes) (id : ℕ)
        → s.producers i ≡ Producer.stamping payload id
        → Move s i (stamped s i payload id)
    publish :
        (payload : Bytes) (id : ℕ)
        → s.producers i ≡ Producer.publishing payload id
        → Move s i (published num_slots size s i payload id)

  -- A step of the consumer, which may take either strategy at each call.
  pub data Turn (s : System) : System → Type 0 where
    -- the strategy by ids
    begin_scan :
        (out : Bytes)
        → s.consumer ≡ Consumer.idle
        → Turn s (begun s (Consumer.scanning out 0 max_id none))
    pass_ring :
        (out : Bytes) (i min_id : ℕ) (q : Option ℕ)
        → s.consumer ≡ Consumer.scanning out i min_id q
        → i < num_writer
        → (s.queues i).head ≡ (s.queues i).tail
        → Turn s (turns s (Consumer.scanning out (i + 1) min_id q))
    find_ring :
        (out : Bytes) (i min_id : ℕ) (q : Option ℕ)
        → s.consumer ≡ Consumer.scanning out i min_id q
        → i < num_writer
        → (s.queues i).head ≢ (s.queues i).tail
        → Turn s (turns s (Consumer.weighing out i min_id q))
    improve :
        (out : Bytes) (i min_id : ℕ) (q : Option ℕ)
        → s.consumer ≡ Consumer.weighing out i min_id q
        → s.ids i (s.queues i).head < min_id
        → Turn s (turns s (Consumer.scanning out (i + 1) (s.ids i (s.queues i).head) (some i)))
    pass_id :
        (out : Bytes) (i min_id : ℕ) (q : Option ℕ)
        → s.consumer ≡ Consumer.weighing out i min_id q
        → ¬ (s.ids i (s.queues i).head < min_id)
        → Turn s (turns s (Consumer.scanning out (i + 1) min_id q))
    find_nothing :
        (out : Bytes) (min_id : ℕ)
        → s.consumer ≡ Consumer.scanning out num_writer min_id none
        → Turn s (turns s Consumer.idle)
    choose :
        (out : Bytes) (min_id q : ℕ)
        → s.consumer ≡ Consumer.scanning out num_writer min_id (some q)
        → Turn s (turns s (Consumer.copying out q min_id 0))
    -- the strategy that goes round the rings
    begin_turn :
        (out : Bytes)
        → s.consumer ≡ Consumer.idle
        → Turn s (begun s (Consumer.turning out num_writer))
    pass_turn :
        (out : Bytes) (rounds : ℕ)
        → s.consumer ≡ Consumer.turning out (suc rounds)
        → (s.queues (next_queue s)).head ≡ (s.queues (next_queue s)).tail
        → Turn s (record (turns s (Consumer.turning out rounds)) { lastqueue = next_queue s })
    find_turn :
        (out : Bytes) (rounds : ℕ)
        → s.consumer ≡ Consumer.turning out (suc rounds)
        → (s.queues (next_queue s)).head ≢ (s.queues (next_queue s)).tail
        → Turn s
            (record (turns s (Consumer.naming out (next_queue s))) { lastqueue = next_queue s })
    turn_empty :
        (out : Bytes) → s.consumer ≡ Consumer.turning out 0 → Turn s (turns s Consumer.idle)
    name :
        (out : Bytes) (q : ℕ)
        → s.consumer ≡ Consumer.naming out q
        → Turn s (turns s (Consumer.copying out q (s.ids q (s.queues q).head) 0))
    -- the message
    take_byte :
        (out : Bytes) (q msg_id k : ℕ)
        → s.consumer ≡ Consumer.copying out q msg_id k
        → k < size
        → Turn s (
            turns s
              (Consumer.copying (update out k (s.bytes q (s.queues q).head k)) q msg_id (k + 1)))
    release :
        (out : Bytes) (q msg_id : ℕ)
        → s.consumer ≡ Consumer.copying out q msg_id size
        → Turn s (released num_slots size s out q msg_id)

  pub data Step (s : System) : System → Type 0 where
    produces : {t : System} (i : ℕ) → i < num_writer → Move s i t → Step s t
    consumes : {t : System} → Turn s t → Step s t

  pub data Reach : System → Type 0 where
    start : (ids : ℕ → ℕ → ℕ) (bytes : ℕ → ℕ → Bytes) → Reach (initial ids bytes)
    later : {s t : System} → Reach s → Step s t → Reach t
