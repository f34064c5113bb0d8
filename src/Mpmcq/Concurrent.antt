-- ===== src/Mpmcq/Concurrent.antt =====
-- src/mpmcq.c under any number of users, one shared access at a time: each enqueues and dequeues with
-- two shared (hazard) indexes and a retire list of its own. Slot `k` is `nodes k`, and its byte `j` is
-- `bytes k j`. Memory is sequentially consistent.
pub mod Steps
pub mod Invariant
pub mod Frame
pub mod Local
pub mod Slots
pub mod Freeing
pub mod Tail
pub mod Linking
pub mod Head
pub mod Moves
pub mod Dequeuing
pub mod Safety
use librtipc.Prelude.{
  ℕ, ◌+◌, ◌*◌, ◌≡◌, Option, none, some, List, [], ◌∷◌, ◌++◌, update, ◌==◌, if◌then◌else◌,
}
use librtipc.Memory.{Bytes}
use librtipc.Memory.Slots.{load}
use librtipc.Lfmpscq.{Node}

-- What follows a run of `TryRetire`: the search of `mpmcq_enqueue`, the loop of `mpmcq_dequeue`, or, in
-- `RetireNode`, the return of `mpmcq_dequeue` with the message that it has taken.
pub data After : Type 0 where
  enqueues : (payload : Bytes) → After
  dequeues : (out : Bytes) → After
  returns : (out : Bytes) (taken : List ℕ) → After

-- Where a user stands. `todo` and `rest` are what is left of `TmpList`.
pub data User : Type 0 where
  idle : User
  -- `TryRetire`
  sweeping : (a : After) (todo : List ℕ) → User  -- head of the outer loop
  comparing : (a : After) (r : ℕ) (rest : List ℕ) (k : ℕ) → User  -- head of the inner loop
  clearing : (a : After) (r : ℕ) (rest : List ℕ) → User  -- before `node_ptr->next = UNDEFINED_NODE`
  freeing : (a : After) (r : ℕ) (rest : List ℕ) → User  -- before `node_ptr->used = 0`
  -- `mpmcq_enqueue`; `n` is `node_idx`, `t` is `t_idx`
  searching : (payload : Bytes) (rounds : ℕ) → User  -- head of the loop of `getFreeSlot`
  copying : (payload : Bytes) (n k : ℕ) → User  -- `k` bytes are copied
  ending : (payload : Bytes) (n : ℕ) → User  -- before `node_ptr->next = UNDEFINED_NODE`
  looping : (payload : Bytes) (n : ℕ) → User  -- head of the loop
  announcing : (payload : Bytes) (n t : ℕ) → User  -- before `*(shared_idx) = t_idx`
  checking : (payload : Bytes) (n t : ℕ) → User  -- before `if(qd->q->tail != t_idx)`
  reading : (payload : Bytes) (n t : ℕ) → User  -- before `t_next = t_ptr->next`
  helping : (payload : Bytes) (n t t_next : ℕ) → User  -- before the exchange of `tail` in the loop
  linking : (payload : Bytes) (n t : ℕ) → User  -- before the exchange of `t_ptr->next`
  swinging : (n t : ℕ) → User  -- before the exchange of `tail` after the loop
  -- `mpmcq_dequeue`; `h`, `t` and `x` are `h_idx`, `t_idx` and `h_next_idx`
  starting : (out : Bytes) → User  -- head of the loop
  saving : (out : Bytes) (h : ℕ) → User  -- before `*shared_idx0 = h_idx`
  verifying : (out : Bytes) (h : ℕ) → User  -- before the first `if (qd->q->head != h_idx)`
  locating : (out : Bytes) (h : ℕ) → User  -- before `t_idx = qd->q->tail`
  following : (out : Bytes) (h t : ℕ) → User  -- before `h_next_idx = h_ptr->next`
  saving_next : (out : Bytes) (h t : ℕ) (x : Option ℕ) → User  -- before `*shared_idx1 = h_next_idx`
  verifying_next : (out : Bytes) (h t : ℕ) (x : Option ℕ) → User  -- before the second test of `head`
  correcting : (out : Bytes) (h x : ℕ) → User  -- before the exchange of `tail`
  moving : (out : Bytes) (h x : ℕ) → User  -- before the exchange of `head`
  fetching : (out : Bytes) (h x k : ℕ) (taken : List ℕ) → User  -- `k` bytes are copied

-- The segment; the static variable `i` of `getFreeSlot`, the place and the `RList` of each user; and the
-- history: the messages in the order in which they were linked, and in which they were taken, and what both
-- were when user `i` last read the successor of the head.
pub record System : Type 0 where
  pub head : ℕ
  pub tail : ℕ
  pub hazards : ℕ → Option ℕ
  pub nodes : ℕ → Node
  pub bytes : ℕ → Bytes
  pub search : ℕ → ℕ
  pub users : ℕ → User
  pub retired : ℕ → List ℕ
  pub sent : List (List ℕ)
  pub taken : List (List ℕ)
  pub seen : ℕ → List (List ℕ) × List (List ℕ)

-- The two shared indexes of user `i`
abbrev pub hazard0 : ℕ → ℕ
hazard0 i = 2 * i

abbrev pub hazard1 : ℕ → ℕ
hazard1 i = 2 * i + 1

-- As `mpmcq_get` sets the segment up; free slots and bytes are whatever they were.
abbrev pub initial : (ℕ → ℕ) → (ℕ → Bytes) → System
initial search bytes = record {
  head = 0;
  tail = 0;
  hazards = λ i. none;
  nodes =
      λ k. if k == 0 then record { used = 1; next = none } else record { used = 0; next = none };
  bytes = bytes;
  search = search;
  users = λ i. User.idle;
  retired = λ i. [];
  sent = [];
  taken = [];
  seen = λ i. ([], []);
}

-- Where a user goes on after `TryRetire`; `mpmcq_enqueue` then looks at `num_slots` slots at most.
abbrev pub resumes : ℕ → After → User
resumes num_slots (After.enqueues payload) = User.searching payload num_slots
resumes num_slots (After.dequeues out) = User.starting out
resumes num_slots (After.returns out taken) = User.idle

-- User `i` goes on to `p`.
abbrev pub goes : System → ℕ → User → System
goes s i p = record s { users = update s.users i p }

-- User `i` copies its retire list and empties it; a node `h` that it retires is the last one.
abbrev pub sweeps : System → ℕ → After → List ℕ → System
sweeps s i a todo = record (goes s i (User.sweeping a todo)) { retired = update s.retired i [] }

abbrev pub kept : System → ℕ → After → ℕ → List ℕ → System
kept s i a r rest = record (goes s i (User.sweeping a rest)) {
  retired = update s.retired i (s.retired i ++ (r ∷ []));
}

abbrev pub next_cleared : System → ℕ → After → ℕ → List ℕ → System
next_cleared s i a r rest = record (goes s i (User.freeing a r rest)) {
  nodes = update s.nodes r (record (s.nodes r) { next = none });
}

abbrev pub slot_freed : System → ℕ → After → ℕ → List ℕ → System
slot_freed s i a r rest = record (goes s i (User.sweeping a rest)) {
  nodes = update s.nodes r (record (s.nodes r) { used = 0 });
}

abbrev pub slot_taken : System → ℕ → Bytes → System
slot_taken s i payload = record (goes s i (User.copying payload (s.search i) 0)) {
  nodes = update s.nodes (s.search i) (record (s.nodes (s.search i)) { used = 1 });
}

abbrev pub byte_copied : System → ℕ → Bytes → ℕ → ℕ → System
byte_copied s i payload n k = record (goes s i (User.copying payload n (k + 1))) {
  bytes = update s.bytes n (update (s.bytes n) k (payload k));
}

abbrev pub ended : System → ℕ → Bytes → ℕ → System
ended s i payload n = record (goes s i (User.looping payload n)) {
  nodes = update s.nodes n (record (s.nodes n) { next = none });
}

-- Shared index `q` is set.
abbrev pub announced : System → ℕ → User → ℕ → Option ℕ → System
announced s i p q x = record (goes s i p) { hazards = update s.hazards q x }

-- The successor of the head is read.
abbrev pub followed : System → ℕ → Bytes → ℕ → ℕ → System
followed s i out h t = record (goes s i (User.saving_next out h t (s.nodes h).next)) {
  seen = update s.seen i (s.sent, s.taken);
}

-- The exchange of `t_ptr->next` that succeeds
abbrev pub linked : ℕ → System → ℕ → Bytes → ℕ → ℕ → System
linked size s i payload n t = record (goes s i (User.swinging n t)) {
  nodes = update s.nodes t (record (s.nodes t) { next = some n });
  sent = s.sent ++ (load payload 0 size ∷ []);
}

-- The exchange of `head` that succeeds; the message is the one that slot `x` then holds.
abbrev pub head_moved : ℕ → System → ℕ → Bytes → ℕ → ℕ → System
head_moved size s i out h x =
    record (goes s i (User.fetching out h x 0 (load (s.bytes x) 0 size))) {
      head = x;
      taken = s.taken ++ (load (s.bytes x) 0 size ∷ []);
    }
