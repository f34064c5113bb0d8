-- ===== src/Tests/Lfmpscq.antt =====
-- The queue of src/lfmpscq.c with four slots of one byte and two users.
use librtipc.Prelude.{
  Option, inr, ℕ, ◌≡◌, ◌+◌, refl, arith, [], ◌∷◌, none, some, ◌==◌, if◌then◌else◌, ltb,
}
use librtipc.Memory.{Bytes}
use librtipc.Lfmpscq.{Descriptor, Segment, Local, is_shared, sweep, retire_node, append}
use librtipc.Lfmpscq.Chain.{last_of}
use librtipc.Lfmpscq.Rounds.{Linked, append-ends}
use librtipc.Lfmpscq.Refine.{Inv, Enqueued, AllUsed, enqueue-appends}
use librtipc.Lfmpscq.Dequeue.{Dequeued, dequeue-takes}

abbrev user_one : Descriptor
user_one = record {
  obj_id = 2;
  q = 64;
  user_id = 1;
  node_data_size = 1;
  num_slots = 4;
  max_user = 2;
}

-- The list is 0, 2; node 1 is retired, and shared by user 0.
abbrev listed : Segment
listed = record {
  head = 0;
  tail = 2;
  shared_idxs = λ i. if i == 0 then some 1 else none;
  nodes = λ k. record { used = if ltb k 3 then 1 else 0; next = if k == 0 then some 2 else none };
  payloads = λ a. 10 + a;
}

abbrev own : Local
own = record { retired = 1 ∷ []; search = 0 }

listed-Inv : Inv listed own (2 ∷ [])
listed-Inv = record {
  chain = (refl, refl);
  last = refl;
  distinct = ((omega arith, tt), (tt, tt));
  in_use = (refl, (refl, tt));
  retired_in_use = (refl, tt);
  apart = ((omega arith, (omega arith, tt)), tt);
}

abbrev message : Bytes
message = λ a. 7 + a

enqueue-appends_example :
    Enqueued user_one listed-Inv message (AllUsed user_one.num_slots listed.nodes) 1
enqueue-appends_example = enqueue-appends user_one listed-Inv message 0 (omega arith)

dequeue-takes_example : Dequeued user_one message listed own (2 ∷ [])
dequeue-takes_example = dequeue-takes user_one message listed own (2 ∷ []) listed-Inv

retired_now : (retire_node user_one 0 listed own).1.retired ≡ 1 ∷ []
unfolding retire_node sweep is_shared
retired_now = refl

-- The tail is behind: node 2 is linked, and the tail still at node 0.
abbrev behind : Segment
behind = record listed { tail = 0 }

append-ends_example :
    (idxs : ℕ → Option ℕ) × (append 2 user_one 3 behind
      ≡ some (Linked behind (last_of behind.head (2 ∷ [])) 3 idxs))
append-ends_example = append-ends 0 user_one 3 behind (2 ∷ []) (refl, refl) (inr refl)
