-- ===== src/Tests/Mpmcq.antt =====
-- The queue of src/mpmcq.c with four slots of one byte and two users.
use librtipc.Prelude.{
  ◌≡◌, ◌+◌, refl, arith, [], ◌∷◌, none, some, ◌==◌, update, ℕ, List, if◌then◌else◌, ltb,
}
use mathlib.Core.Option
use librtipc.Status.{ok, received}
use librtipc.Atomic.{cas32}
use librtipc.Memory.{Bytes, memcpy}
use librtipc.Memory.Slots.{load}
use librtipc.Lfmpscq
use librtipc.Lfmpscq.{Segment, Local, sweep, is_shared, enqueue_in, append}
use librtipc.Lfmpscq.Refine.{Inv, AllUsed}
use librtipc.Mpmcq.{
  Descriptor, enqueue, dequeue, try_retire, retire_node, get_free_slot, take_head, finish,
}
use librtipc.Mpmcq.Rounds.{Ended, take_head-ends}
use librtipc.Mpmcq.Refine.{
  Appended, Taken, enqueue-appends_last, dequeue-takes_first, enqueue-dequeue,
}

abbrev user_one : Descriptor
user_one = record {
  obj_id = 2;
  init = 1;
  q = 64;
  user_id = 1;
  node_data_size = 1;
  num_slots = 4;
  max_user = 2;
}

-- The list is 0, 2; node 1 is retired, and shared by the second index of user 0.
abbrev listed : Segment
listed = record {
  head = 0;
  tail = 2;
  shared_idxs = λ i. if i == 1 then some 1 else none;
  nodes = λ k. record { used = if ltb k 3 then 1 else 0; next = if k == 0 then some 2 else none };
  payloads = λ a. 10 + a;
}

abbrev own : Local
own = record { retired = 1 ∷ []; search = 0 }

listed-Inv : Inv listed own (2 ∷ [])
listed-Inv = record {
  chain = (refl, refl);
  last = refl;
  distinct = ((omega arith, tt), (tt, tt));
  in_use = (refl, (refl, tt));
  retired_in_use = (refl, tt);
  apart = ((omega arith, (omega arith, tt)), tt);
}

abbrev message : Bytes
message = λ a. 7 + a

enqueue-appends_last_example :
    Appended
      (AllUsed user_one.num_slots (try_retire user_one listed own).0.nodes)
      1
      user_one
      message
      listed
      own
      (2 ∷ [])
enqueue-appends_last_example =
    enqueue-appends_last 0 user_one message listed own (2 ∷ []) listed-Inv (omega arith)

dequeue-takes_first_example : Taken 1 user_one message listed own (2 ∷ [])
dequeue-takes_first_example = dequeue-takes_first 0 user_one message listed own (2 ∷ []) listed-Inv

-- Node 1 is kept, since user 0 shares it, and so is node 0, which user 1 shares itself.
kept_now :
    Option.map {B = ℕ × List ℕ}
      (λ r. (r.2.head, r.3.retired))
      (dequeue 1 user_one message listed own)
    ≡ some (2, 1 ∷ 0 ∷ [])
unfolding dequeue try_retire retire_node take_head finish sweep is_shared cas32
kept_now = refl

-- The list is empty.
abbrev empty : Segment
empty = record {
  head = 2;
  tail = 2;
  shared_idxs = λ i. none;
  nodes = λ k. record { used = if k == 2 then 1 else 0; next = none };
  payloads = λ a. 10 + a;
}

abbrev fresh : Local
fresh = record { retired = []; search = 0 }

empty-Inv : Inv empty fresh []
empty-Inv = record {
  chain = refl;
  last = refl;
  distinct = (tt, tt);
  in_use = (refl, tt);
  retired_in_use = tt;
  apart = tt;
}

-- User 1 puts a message into slot 0.
abbrev filled : Segment
filled = record {
  head = 2;
  tail = (cas32 2 2 0).1;
  shared_idxs = update (λ i. none) 2 (some 2);
  nodes =
      update
        (update (update empty.nodes 0 (record { used = (cas32 0 0 1).1; next = none })) 0
          (record { used = (cas32 0 0 1).1; next = none }))
        2 (record { used = 1; next = some 0 });
  payloads = memcpy empty.payloads 0 message 0 1;
}

puts : enqueue 1 user_one message empty fresh ≡ some (ok, filled, fresh)
unfolding enqueue try_retire sweep get_free_slot Lfmpscq.get_free_slot enqueue_in append cas32
puts = refl

enqueue-dequeue_example :
    Option.map (λ r. received r.0 (load r.1 0 1)) (dequeue 1 user_one message filled fresh)
    ≡ some (some (load message 0 1))
enqueue-dequeue_example =
    enqueue-dequeue 0 0 user_one message message empty filled fresh fresh empty-Inv puts

-- The tail is behind: node 2 is linked, and the tail still at the head.
abbrev behind : Segment
behind = record listed { tail = 0 }

take_head-ends_example : Ended 2 user_one behind (2 ∷ [])
take_head-ends_example =
    take_head-ends 0 user_one behind (2 ∷ []) (refl, refl) ((omega arith, tt), (tt, tt))
