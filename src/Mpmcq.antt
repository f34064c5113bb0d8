-- ===== src/Mpmcq.antt =====
-- src/mpmcq.c and include/mpmcq.h: a linked list of slots with a dummy node at its head, any number
-- of producers and consumers, two hazard indexes for each user. The file repeats functions of
-- src/lfmpscq.c (`getFreeSlot`, the loop of the enqueue, the two loops of the retirement and of the
-- set-up): the model takes them from `Lfmpscq`, with the numbers of shared indexes of this file. The
-- third field of a slot, `id`, is neither read nor written. The functions run alone here: a waiting
-- loop sees only its own writes.
pub mod Rounds
pub mod Refine
pub mod Concurrent
use librtipc.Prelude.{
  ℕ, zero, suc, ◌+◌, ◌*◌, Bool, ◌==◌, if◌then◌else◌, Option, none, some, List, [], ◌∷◌, ◌++◌,
  update,
}
use librtipc.Status.{Status, ok, fail}
use librtipc.Atomic.{cas32}
use librtipc.Memory.{Bytes, memcpy}
use librtipc.Object.{Segments, World, get as get_object, obtain, release as release_object}
use librtipc.Lfmpscq
use librtipc.Lfmpscq.{Node, Segment, Local, sweep, enqueue_in}

-- `NUM_SHAREDIDX`
abbrev pub num_sharedidx : ℕ
num_sharedidx = 2

-- `mpmcq_d_t`; `q` is the address of the segment.
pub record Descriptor : Type 0 where
  pub obj_id : ℕ
  pub init : ℕ
  pub q : ℕ
  pub user_id : ℕ
  pub node_data_size : ℕ
  pub num_slots : ℕ
  pub max_user : ℕ

-- The same sizes for the functions that the two files share, with the index of the user's first
-- shared index and the number of all of them.
abbrev pub as_lfmpscq : Descriptor → Lfmpscq.Descriptor
as_lfmpscq qd = record {
  obj_id = qd.obj_id;
  q = qd.q;
  user_id = num_sharedidx * qd.user_id;
  node_data_size = qd.node_data_size;
  num_slots = qd.num_slots;
  max_user = num_sharedidx * qd.max_user;
}

-- `TryRetire`: each node of the retire list is kept if a shared index names it, and freed if not.
unfoldable pub try_retire : Descriptor → Segment → Local → Segment × Local
unfolding sweep
try_retire qd s l =
    let (kept, nodes) = sweep (num_sharedidx * qd.max_user) s.shared_idxs l.retired [] s.nodes in
    (record s { nodes = nodes }, record l { retired = kept })

-- `RetireNode`
unfoldable pub retire_node : Descriptor → ℕ → Segment → Local → Segment × Local
unfolding try_retire
retire_node qd node_idx s l = try_retire qd s (record l { retired = l.retired ++ (node_idx ∷ []) })

-- `getFreeSlot`, with the number of rounds that are left
unfoldable pub get_free_slot : Descriptor → ℕ → Segment → Local → Option ℕ × ℕ × (ℕ → Node)
unfolding Lfmpscq.get_free_slot
get_free_slot qd rounds s l = Lfmpscq.get_free_slot qd.num_slots rounds l.search s.nodes

-- `mpmcq_enqueue`, with fuel for its loop; `none` when that is used up.
unfoldable pub enqueue :
    ℕ → Descriptor → Bytes → Segment → Local → Option (Status × Segment × Local)
unfolding try_retire get_free_slot enqueue_in
enqueue fuel qd payload s l =
    let (s', l') = try_retire qd s l in
    enqueue_in fuel (as_lfmpscq qd) payload s' l' (get_free_slot qd qd.num_slots s' l')

-- With the two shared indexes of the user set
abbrev pub announced : Descriptor → Segment → Option ℕ → Segment
announced qd s h_next = record s {
  shared_idxs =
      update (update s.shared_idxs (num_sharedidx * qd.user_id) (some s.head))
        (num_sharedidx * qd.user_id + 1) h_next;
}

-- The loop of `mpmcq_dequeue`, with fuel. The result says how it is left: with -1, or with the old
-- head and its successor. The two tests of `head` against the value just read do not fail while no
-- other process moves, and are written all the same.
unfoldable pub take_head : ℕ → Descriptor → Segment → Option (Option (ℕ × ℕ) × Segment)
unfolding cas32
take_head zero qd s = none
take_head (suc fuel) qd s =
    let h_idx = s.head in
    let t_idx = s.tail in
    let s0 : Segment = record s {
      shared_idxs = update s.shared_idxs (num_sharedidx * qd.user_id) (some h_idx);
    } in
    let again0 = take_head fuel qd s0 in
    let s1 : Segment = announced qd s (s.nodes h_idx).next in
    let again1 = take_head fuel qd s1 in
    if s0.head == h_idx
    then (if s1.head == h_idx
        then (elim (s.nodes h_idx).next [
          | none ↦ some (none, s1)
          | some h_next ↦
              let helped =
                take_head fuel qd (record s1 { tail = (cas32 s1.tail t_idx h_next).1 }) in
              let (won, head) = cas32 s1.head h_idx h_next in
              let lost = take_head fuel qd (record s1 { head = head }) in
              if h_idx == t_idx
              then helped
              else if won == 0
              then lost
              else some (some (h_idx, h_next), record s1 { head = head })
        ])
        else again1)
    else again0

-- `mpmcq_dequeue` after its loop; the second part of the result is the caller's buffer.
unfoldable pub finish :
    Descriptor
    → Bytes
    → Local
    → Option (Option (ℕ × ℕ) × Segment)
    → Option (Status × Bytes × Segment × Local)
unfolding retire_node
finish qd out l none = none
finish qd out l (some (none, s)) = some (fail, out, s, l)
finish qd out l (some (some (h_idx, h_next), s)) =
    let copied = memcpy out 0 s.payloads (h_next * qd.node_data_size) qd.node_data_size in
    let (s', l') = retire_node qd h_idx s l in some (ok, copied, s', l')

-- `mpmcq_dequeue`
unfoldable pub dequeue :
    ℕ → Descriptor → Bytes → Segment → Local → Option (Status × Bytes × Segment × Local)
unfolding try_retire take_head finish
dequeue fuel qd out s l =
    let (s', l') = try_retire qd s l in finish qd out l' (take_head fuel qd s')

-- What `mpmcq_get` sets up in a new segment
unfoldable pub setup : Descriptor → Segment → Segment
unfolding Lfmpscq.setup
setup qd s = Lfmpscq.setup (num_sharedidx * qd.max_user) qd.num_slots s

-- The end of `mpmcq_get`: a descriptor whose field `init` is 0 gets new lists, which are empty.
unfoldable pub init_local : Descriptor → Local → Descriptor × Local
init_local qd l =
    if qd.init == 0 then (record qd { init = 1 }, record l { retired = [] }) else (qd, l)

-- `mpmcq_get` up to the set-up of the segment; the two heads are 16 and 12 bytes, an int is 4.
unfoldable pub get_shared :
    (S : Segments)
    → ℕ
    → Descriptor
    → (obj_id user_id node_data_size num_slots max_user : ℕ) → World S Segment
    → Option (Status × Descriptor × World S Segment)
unfolding setup get_object obtain
get_shared S fuel qd obj_id user_id node_data_size num_slots max_user w =
    let qd' : Descriptor = record qd {
      obj_id = obj_id;
      user_id = user_id;
      node_data_size = node_data_size;
      num_slots = num_slots;
      max_user = max_user;
    } in
    obtain S qd' (λ a. record qd' { q = a })
      (get_object S fuel (setup qd')
        (16 + num_sharedidx * max_user * 4 + num_slots * (node_data_size + 12)) obj_id w)

-- Then, unless it has returned -1, the set-up of the lists.
unfoldable pub with_local :
    {S : Segments}
    → Local
    → Option (Status × Descriptor × World S Segment)
    → Option (Status × Descriptor × Local × World S Segment)
unfolding init_local
with_local l none = none
with_local l (some (fail, qd, w)) = some (fail, qd, l, w)
with_local l (some (ok, qd, w)) = let (qd', l') = init_local qd l in some (ok, qd', l', w)

-- `mpmcq_get`
unfoldable pub get :
    (S : Segments)
    → ℕ
    → Descriptor
    → (obj_id user_id node_data_size num_slots max_user : ℕ) → World S Segment
    → Local
    → Option (Status × Descriptor × Local × World S Segment)
unfolding get_shared with_local
get S fuel qd obj_id user_id node_data_size num_slots max_user w l =
    with_local l (get_shared S fuel qd obj_id user_id node_data_size num_slots max_user w)

-- `mpmcq_release`
unfoldable pub release : (S : Segments) → Descriptor → World S Segment → Status × World S Segment
unfolding release_object
release S qd w = release_object S qd.obj_id w
