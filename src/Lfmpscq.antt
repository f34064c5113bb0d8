-- ===== src/Lfmpscq.antt =====
-- src/lfmpscq.c and include/lfmpscq.h: a linked list of slots with a dummy node at its head, several
-- producers and one consumer; hazard indexes keep a slot from being reused while somebody looks at
-- it. The functions run alone: a waiting loop sees only its own writes. `none` is the index -1.
pub mod Chain
pub mod Slots
pub mod Refine
pub mod Sweep
pub mod Dequeue
pub mod Setup
pub mod Rounds
pub mod Concurrent
use librtipc.Prelude.{
  ℕ, zero, suc, ◌+◌, ◌-◌, ◌*◌, ◌%◌, Bool, true, false, ◌==◌, if◌then◌else◌, Option, none, some,
  List, [], ◌∷◌, ◌++◌, update,
}
use librtipc.Status.{Status, ok, fail}
use librtipc.Atomic.{cas32}
use librtipc.Memory.{Bytes, memcpy}
use librtipc.Object.{Segments, World, get as get_object, obtain, release as release_object}

-- `lfmpscq_d_t`; `q` is the address of the segment.
pub record Descriptor : Type 0 where
  pub obj_id : ℕ
  pub q : ℕ
  pub user_id : ℕ
  pub node_data_size : ℕ
  pub num_slots : ℕ
  pub max_user : ℕ

-- `lfmpscq_slot_head_t`
pub record Node : Type 0 where
  pub used : ℕ
  pub next : Option ℕ

-- `lfmpscq_head_t` after its fields `lock` and `init`, which are those of `Object.Shared`; the shared
-- indexes; the heads of the slots; and the bytes behind them, `node_data_size` for each slot.
pub record Segment : Type 0 where
  pub head : ℕ
  pub tail : ℕ
  pub shared_idxs : ℕ → Option ℕ
  pub nodes : ℕ → Node
  pub payloads : Bytes

-- What a process keeps for itself: `RList`, whose length is `RCnt`, and the static variable `i` of
-- `getFreeSlot`.
pub record Local : Type 0 where
  pub retired : List ℕ
  pub search : ℕ

-- `getFreeSlot`, with the rounds that are left; gives the slot, `i` and the heads.
unfoldable pub get_free_slot : ℕ → ℕ → ℕ → (ℕ → Node) → Option ℕ × ℕ × (ℕ → Node)
unfolding cas32
get_free_slot n zero i nodes = (none, i, nodes)
get_free_slot n (suc rounds) i nodes =
    let (won, word) = cas32 (nodes i).used 0 1 in
    let rest = get_free_slot n rounds ((i + 1) % n) nodes in
    if won == 0 then rest else (some i, i, update nodes i (record (nodes i) { used = word }))

-- A test of two indexes
abbrev pub same_index : Option ℕ → ℕ → Bool
same_index none j = false
same_index (some i) j = i == j

-- The loop of `lfmpscq_enqueue`, with fuel; `none` when the rounds are used up.
unfoldable pub append : ℕ → Descriptor → ℕ → Segment → Option Segment
unfolding cas32
append zero qd node_idx s = none
append (suc fuel) qd node_idx s =
    let t = s.tail in
    let s' : Segment = record s { shared_idxs = update s.shared_idxs qd.user_id (some t) } in
    let again = append fuel qd node_idx s' in
    let linked : Segment = record s' {
      nodes = update s'.nodes t (record (s'.nodes t) { next = some node_idx });
      tail = (cas32 s'.tail t node_idx).1;
    } in
    if s'.tail == t
    then (elim (s'.nodes t).next [
      | some t_next ↦ append fuel qd node_idx (record s' { tail = (cas32 s'.tail t t_next).1 })
      | none ↦ some linked
    ])
    else again

-- The end of `lfmpscq_enqueue`: what the loop has made of the segment.
appended : Local → ℕ → Option Segment → Option (Status × Segment × Local)
appended l i none = none
appended l i (some s') = some (ok, s', record l { search = i })

-- `lfmpscq_enqueue` after the search for a slot
unfoldable pub enqueue_in :
    ℕ
    → Descriptor
    → Bytes
    → Segment
    → Local
    → Option ℕ × ℕ × (ℕ → Node)
    → Option (Status × Segment × Local)
unfolding append appended
enqueue_in fuel qd payload s l (none, i, nodes) =
    some (fail, record s { nodes = nodes }, record l { search = i })
enqueue_in fuel qd payload s l (some k, i, nodes) = appended l i (
    append fuel qd k (record s {
      payloads = memcpy s.payloads (k * qd.node_data_size) payload 0 qd.node_data_size;
      nodes = update nodes k (record (nodes k) { next = none });
    }))

-- `lfmpscq_enqueue`
unfoldable pub enqueue :
    ℕ → Descriptor → Bytes → Segment → Local → Option (Status × Segment × Local)
unfolding enqueue_in get_free_slot
enqueue fuel qd payload s l =
    enqueue_in fuel qd payload s l (get_free_slot qd.num_slots qd.num_slots l.search s.nodes)

-- The inner loop of `RetireNode`: is the index among the first `users` shared ones?
unfoldable pub is_shared : (users : ℕ) → (ℕ → Option ℕ) → ℕ → Bool
is_shared zero shared r = false
is_shared (suc k) shared r = if same_index (shared k) r then true else is_shared k shared r

-- The outer loop of `RetireNode` over the copy of the list; gives the new list and the heads.
unfoldable pub sweep : ℕ → (ℕ → Option ℕ) → List ℕ → List ℕ → (ℕ → Node) → List ℕ × (ℕ → Node)
unfolding is_shared
sweep users shared [] kept nodes = (kept, nodes)
sweep users shared (r ∷ rs) kept nodes =
    sweep users shared rs (if is_shared users shared r then kept ++ (r ∷ []) else kept) (
      if is_shared users shared r then nodes else update nodes r (record { used = 0; next = none }))

-- `RetireNode`
unfoldable pub retire_node : Descriptor → ℕ → Segment → Local → Segment × Local
unfolding sweep
retire_node qd node_idx s l =
    let (kept, nodes) = sweep qd.max_user s.shared_idxs (l.retired ++ (node_idx ∷ [])) [] s.nodes in
    (record s { nodes = nodes }, record l { retired = kept })

-- `lfmpscq_dequeue` after the read of the successor of the head
unfoldable pub dequeue_at :
    Descriptor → Bytes → Segment → Local → Option ℕ → Status × Bytes × Segment × Local
unfolding retire_node
dequeue_at qd out s l none = (fail, out, s, l)
dequeue_at qd out s l (some h_next) =
    let copied = memcpy out 0 s.payloads (h_next * qd.node_data_size) qd.node_data_size in
    let (s', l') = retire_node qd s.head (record s { head = h_next }) l in (ok, copied, s', l')

-- `lfmpscq_dequeue`; the second part of the result is the caller's buffer.
unfoldable pub dequeue : Descriptor → Bytes → Segment → Local → Status × Bytes × Segment × Local
unfolding dequeue_at
dequeue qd out s l = dequeue_at qd out s l (s.nodes s.head).next

-- The loops of `lfmpscq_get` over the shared indexes and over the slots from 1 on
unfoldable pub clear_idxs : ℕ → ℕ → (ℕ → Option ℕ) → ℕ → Option ℕ
clear_idxs zero i idxs = idxs
clear_idxs (suc k) i idxs = clear_idxs k (i + 1) (update idxs i none)

unfoldable pub clear_nodes : ℕ → ℕ → (ℕ → Node) → ℕ → Node
clear_nodes zero i nodes = nodes
clear_nodes (suc k) i nodes =
    clear_nodes k (i + 1) (update nodes i (record { used = 0; next = none }))

unfoldable pub setup : (max_user num_slots : ℕ) → Segment → Segment
unfolding clear_idxs clear_nodes
setup max_user num_slots s = record {
  head = 0;
  tail = 0;
  shared_idxs = clear_idxs max_user 0 s.shared_idxs;
  nodes = clear_nodes (num_slots - 1) 1 (update s.nodes 0 (record { used = 1; next = none }));
  payloads = s.payloads;
}

-- `lfmpscq_get`; both heads are 16 and 8 bytes, an int is 4. With `init` it gives the process new
-- lists; it does not reset `RCnt`, which is 0 when the process starts.
unfoldable pub get :
    (S : Segments)
    → ℕ
    → Descriptor
    → (obj_id user_id node_data_size num_slots max_user : ℕ) → World S Segment
    → Option (Status × Descriptor × World S Segment)
unfolding setup get_object obtain
get S fuel qd obj_id user_id node_data_size num_slots max_user w =
    let qd' : Descriptor = record {
      obj_id = obj_id;
      q = qd.q;
      user_id = user_id;
      node_data_size = node_data_size;
      num_slots = num_slots;
      max_user = max_user;
    } in
    obtain S qd' (λ a. record qd' { q = a })
      (get_object S fuel (setup max_user num_slots)
        (16 + max_user * 4 + num_slots * (node_data_size + 8)) obj_id w)

-- `lfmpscq_release`
unfoldable pub release : (S : Segments) → Descriptor → World S Segment → Status × World S Segment
unfolding release_object
release S qd w = release_object S qd.obj_id w
