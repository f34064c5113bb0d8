-- ===== src/Lfmpscq/Concurrent/Steps.antt =====
-- The steps of the producers and of the consumer of src/lfmpscq.c.
use librtipc.Prelude.{ℕ, suc, ◌+◌, ◌%◌, ◌<◌, ◌≡◌, ◌≢◌, none, some, List, [], ◌∷◌, ◌++◌, update}
use librtipc.Memory.{Bytes}
use librtipc.Lfmpscq.Concurrent.{
  Producer, Consumer, System, goes, slot_taken, byte_copied, ended, announced, helped, linked,
  swung, head_moved, next_cleared, slot_freed, initial,
}

module _ (num_slots size max_user : ℕ) where
  pub data Step (s : System) : System → Type 0 where
    -- producer `i`
    begin_enqueue :
        (i : ℕ) (payload : Bytes)
        → i < max_user
        → s.producers i ≡ Producer.idle
        → Step s (goes s i (Producer.searching payload num_slots))
    give_up :
        (i : ℕ) (payload : Bytes)
        → i < max_user
        → s.producers i ≡ Producer.searching payload 0
        → Step s (goes s i Producer.idle)
    skip_slot :
        (i : ℕ) (payload : Bytes) (rounds : ℕ)
        → i < max_user
        → s.producers i ≡ Producer.searching payload (suc rounds)
        → (s.nodes (s.search i)).used ≢ 0
        → Step s (record (goes s i (Producer.searching payload rounds)) {
          search = update s.search i ((s.search i + 1) % num_slots);
        })
    take_slot :
        (i : ℕ) (payload : Bytes) (rounds : ℕ)
        → i < max_user
        → s.producers i ≡ Producer.searching payload (suc rounds)
        → (s.nodes (s.search i)).used ≡ 0
        → Step s (slot_taken s i payload)
    copy_byte :
        (i : ℕ) (payload : Bytes) (n k : ℕ)
        → i < max_user
        → s.producers i ≡ Producer.copying payload n k
        → k < size
        → Step s (byte_copied s i payload n k)
    copied :
        (i : ℕ) (payload : Bytes) (n : ℕ)
        → i < max_user
        → s.producers i ≡ Producer.copying payload n size
        → Step s (goes s i (Producer.ending payload n))
    end_node :
        (i : ℕ) (payload : Bytes) (n : ℕ)
        → i < max_user
        → s.producers i ≡ Producer.ending payload n
        → Step s (ended s i payload n)
    read_tail :
        (i : ℕ) (payload : Bytes) (n : ℕ)
        → i < max_user
        → s.producers i ≡ Producer.looping payload n
        → Step s (goes s i (Producer.announcing payload n s.tail))
    announce :
        (i : ℕ) (payload : Bytes) (n t : ℕ)
        → i < max_user
        → s.producers i ≡ Producer.announcing payload n t
        → Step s (announced s i payload n t)
    tail_moved :
        (i : ℕ) (payload : Bytes) (n t : ℕ)
        → i < max_user
        → s.producers i ≡ Producer.checking payload n t
        → s.tail ≢ t
        → Step s (goes s i (Producer.looping payload n))
    tail_same :
        (i : ℕ) (payload : Bytes) (n t : ℕ)
        → i < max_user
        → s.producers i ≡ Producer.checking payload n t
        → s.tail ≡ t
        → Step s (goes s i (Producer.reading payload n t))
    read_next :
        (i : ℕ) (payload : Bytes) (n t t_next : ℕ)
        → i < max_user
        → s.producers i ≡ Producer.reading payload n t
        → (s.nodes t).next ≡ some t_next
        → Step s (goes s i (Producer.helping payload n t t_next))
    read_end :
        (i : ℕ) (payload : Bytes) (n t : ℕ)
        → i < max_user
        → s.producers i ≡ Producer.reading payload n t
        → (s.nodes t).next ≡ none
        → Step s (goes s i (Producer.linking payload n t))
    help :
        (i : ℕ) (payload : Bytes) (n t t_next : ℕ)
        → i < max_user
        → s.producers i ≡ Producer.helping payload n t t_next
        → Step s (helped s i payload n t t_next)
    link :
        (i : ℕ) (payload : Bytes) (n t : ℕ)
        → i < max_user
        → s.producers i ≡ Producer.linking payload n t
        → (s.nodes t).next ≡ none
        → Step s (linked size s i payload n t)
    link_failed :
        (i : ℕ) (payload : Bytes) (n t : ℕ)
        → i < max_user
        → s.producers i ≡ Producer.linking payload n t
        → (s.nodes t).next ≢ none
        → Step s (goes s i (Producer.looping payload n))
    swing :
        (i n t : ℕ) → i < max_user → s.producers i ≡ Producer.swinging n t → Step s (swung s i n t)
    -- the consumer
    read_head :
        (out : Bytes)
        → s.consumer ≡ Consumer.idle
        → Step s (record s { consumer = Consumer.at_head out s.head })
    find_empty :
        (out : Bytes) (h : ℕ)
        → s.consumer ≡ Consumer.at_head out h
        → (s.nodes h).next ≡ none
        → Step s (record s { consumer = Consumer.idle })
    find_first :
        (out : Bytes) (h x : ℕ)
        → s.consumer ≡ Consumer.at_head out h
        → (s.nodes h).next ≡ some x
        → Step s (record s { consumer = Consumer.copying out h x 0 })
    take_byte :
        (out : Bytes) (h x k : ℕ)
        → s.consumer ≡ Consumer.copying out h x k
        → k < size
        → Step s (record s { consumer = Consumer.copying (update out k (s.bytes x k)) h x (k + 1) })
    move_head :
        (out : Bytes) (h x : ℕ)
        → s.consumer ≡ Consumer.copying out h x size
        → Step s (head_moved size s out h x)
    finish : s.consumer ≡ Consumer.sweeping [] → Step s (record s { consumer = Consumer.idle })
    begin_node :
        (r : ℕ) (rest : List ℕ)
        → s.consumer ≡ Consumer.sweeping (r ∷ rest)
        → Step s (record s { consumer = Consumer.comparing r rest 0 })
    keep_node :
        (r : ℕ) (rest : List ℕ) (k : ℕ)
        → s.consumer ≡ Consumer.comparing r rest k
        → k < max_user
        → s.hazards k ≡ some r
        → Step s (record s { consumer = Consumer.sweeping rest; retired = s.retired ++ (r ∷ []) })
    next_hazard :
        (r : ℕ) (rest : List ℕ) (k : ℕ)
        → s.consumer ≡ Consumer.comparing r rest k
        → k < max_user
        → s.hazards k ≢ some r
        → Step s (record s { consumer = Consumer.comparing r rest (k + 1) })
    no_hazard :
        (r : ℕ) (rest : List ℕ)
        → s.consumer ≡ Consumer.comparing r rest max_user
        → Step s (record s { consumer = Consumer.clearing r rest })
    clear_next :
        (r : ℕ) (rest : List ℕ)
        → s.consumer ≡ Consumer.clearing r rest
        → Step s (next_cleared s r rest)
    free_slot :
        (r : ℕ) (rest : List ℕ)
        → s.consumer ≡ Consumer.freeing r rest
        → Step s (slot_freed s r rest)

  -- Runs in which `Allowed` holds of each step
  pub data Reach (Allowed : (s t : System) → Step s t → Type 0) : System → Type 0 where
    start : (search : ℕ → ℕ) (bytes : ℕ → Bytes) → Reach Allowed (initial search bytes)
    later : {s t : System} → Reach Allowed s → (st : Step s t) → Allowed s t st → Reach Allowed t
