-- ===== src/Lfmpscq/Concurrent.antt =====
-- src/lfmpscq.c under its producers and its consumer, one shared access at a time: `lfmpscq_enqueue` of
-- any number of processes, each with a shared (hazard) index of its own, and `lfmpscq_dequeue` of one.
-- Slot `k` is `nodes k`, and its byte `j` is `bytes k j`. Memory is sequentially consistent.
pub mod Steps
pub mod Invariant
pub mod Frame
pub mod Producing
pub mod Tail
pub mod Consuming
pub mod Head
pub mod Moves
pub mod Safety
use librtipc.Prelude.{
  ℕ, zero, suc, ◌+◌, ◌%◌, ◌<◌, ◌≡◌, ◌≢◌, Option, none, some, List, [], ◌∷◌, ◌++◌, update, ◌==◌,
  if◌then◌else◌,
}
use librtipc.Memory.{Bytes}
use librtipc.Memory.Slots.{load}
use librtipc.Atomic.{cas32}
use librtipc.Lfmpscq.{Node}

-- Where a producer stands in `lfmpscq_enqueue`. `n` is `node_idx`.
pub data Producer : Type 0 where
  idle : Producer
  searching : (payload : Bytes) (rounds : ℕ) → Producer  -- head of the loop of `getFreeSlot`
  copying : (payload : Bytes) (n k : ℕ) → Producer  -- `k` bytes are copied
  ending : (payload : Bytes) (n : ℕ) → Producer  -- before `node_ptr->next = UNDEFINED_NODE`
  looping : (payload : Bytes) (n : ℕ) → Producer  -- head of the loop
  announcing : (payload : Bytes) (n t : ℕ) → Producer  -- before `*(shared_idx) = t`
  checking : (payload : Bytes) (n t : ℕ) → Producer  -- before `if (qd->q->tail != t)`
  reading : (payload : Bytes) (n t : ℕ) → Producer  -- before `t_next = t_ptr->next`
  helping : (payload : Bytes) (n t t_next : ℕ) → Producer  -- before the exchange of `tail` in the loop
  linking : (payload : Bytes) (n t : ℕ) → Producer  -- before the exchange of `t_ptr->next`
  swinging : (n t : ℕ) → Producer  -- before the exchange of `tail` after the loop

-- Where the consumer stands in `lfmpscq_dequeue` and `RetireNode`. `todo` and `rest` are what is left of
-- `TmpList`.
pub data Consumer : Type 0 where
  idle : Consumer
  at_head : (out : Bytes) (h : ℕ) → Consumer  -- before `h_next = h_ptr->next`
  copying : (out : Bytes) (h x k : ℕ) → Consumer  -- `k` bytes are copied
  sweeping : (todo : List ℕ) → Consumer  -- head of the outer loop
  comparing : (r : ℕ) (rest : List ℕ) (k : ℕ) → Consumer  -- head of the inner loop
  clearing : (r : ℕ) (rest : List ℕ) → Consumer  -- before `node_ptr->next = UNDEFINED_NODE`
  freeing : (r : ℕ) (rest : List ℕ) → Consumer  -- before `node_ptr->used = 0`

-- The segment; the static variable `i` of `getFreeSlot` of each producer; the processes; `RList`; and
-- the history: the messages that have been linked, and those that have been taken.
pub record System : Type 0 where
  pub head : ℕ
  pub tail : ℕ
  pub hazards : ℕ → Option ℕ
  pub nodes : ℕ → Node
  pub bytes : ℕ → Bytes
  pub search : ℕ → ℕ
  pub producers : ℕ → Producer
  pub consumer : Consumer
  pub retired : List ℕ
  pub sent : List (List ℕ)
  pub got : List (List ℕ)

-- Process `i` goes on to `p`.
abbrev pub goes : System → ℕ → Producer → System
goes s i p = record s { producers = update s.producers i p }

-- What the steps make of the state, those that change shared data.
abbrev pub slot_taken : System → ℕ → Bytes → System
slot_taken s i payload = record (goes s i (Producer.copying payload (s.search i) 0)) {
  nodes = update s.nodes (s.search i) (record (s.nodes (s.search i)) { used = 1 });
}

abbrev pub byte_copied : System → ℕ → Bytes → ℕ → ℕ → System
byte_copied s i payload n k = record (goes s i (Producer.copying payload n (k + 1))) {
  bytes = update s.bytes n (update (s.bytes n) k (payload k));
}

abbrev pub ended : System → ℕ → Bytes → ℕ → System
ended s i payload n = record (goes s i (Producer.looping payload n)) {
  nodes = update s.nodes n (record (s.nodes n) { next = none });
}

abbrev pub announced : System → ℕ → Bytes → ℕ → ℕ → System
announced s i payload n t = record (goes s i (Producer.checking payload n t)) {
  hazards = update s.hazards i (some t);
}

abbrev pub helped : System → ℕ → Bytes → ℕ → ℕ → ℕ → System
helped s i payload n t t_next = record (goes s i (Producer.looping payload n)) {
  tail = (cas32 s.tail t t_next).1;
}

-- The exchange of `t_ptr->next` that succeeds
abbrev pub linked : ℕ → System → ℕ → Bytes → ℕ → ℕ → System
linked size s i payload n t = record (goes s i (Producer.swinging n t)) {
  nodes = update s.nodes t (record (s.nodes t) { next = some n });
  sent = s.sent ++ (load payload 0 size ∷ []);
}

abbrev pub swung : System → ℕ → ℕ → ℕ → System
swung s i n t = record (goes s i Producer.idle) { tail = (cas32 s.tail t n).1 }

-- `qd->q->head = h_next`, and the copy of the retire list
abbrev pub head_moved : ℕ → System → Bytes → ℕ → ℕ → System
head_moved size s out h x = record s {
  head = x;
  consumer = Consumer.sweeping (s.retired ++ (h ∷ []));
  retired = [];
  got = s.got ++ (load out 0 size ∷ []);
}

abbrev pub next_cleared : System → ℕ → List ℕ → System
next_cleared s r rest = record s {
  nodes = update s.nodes r (record (s.nodes r) { next = none });
  consumer = Consumer.freeing r rest;
}

abbrev pub slot_freed : System → ℕ → List ℕ → System
slot_freed s r rest = record s {
  nodes = update s.nodes r (record (s.nodes r) { used = 0 });
  consumer = Consumer.sweeping rest;
}

-- As `lfmpscq_get` sets the segment up; free slots and bytes are whatever they were.
abbrev pub initial : (ℕ → ℕ) → (ℕ → Bytes) → System
initial search bytes = record {
  head = 0;
  tail = 0;
  hazards = λ i. none;
  nodes =
      λ k. if k == 0 then record { used = 1; next = none } else record { used = 0; next = none };
  bytes = bytes;
  search = search;
  producers = λ i. Producer.idle;
  consumer = Consumer.idle;
  retired = [];
  sent = [];
  got = [];
}
