-- ===== src/Lfmpscq/Dequeue.antt =====
-- `lfmpscq_dequeue` and `RetireNode` of src/lfmpscq.c, used by one process at a time.
use librtipc.Prelude.{ℕ, ◌*◌, ◌≡◌, refl, ap, ◌∙◌, List, [], ◌∷◌, ◌++◌, All, some, true}
use librtipc.Status.{Status, ok, fail, received}
use librtipc.Fifo
use librtipc.Memory.{Bytes, memcpy}
use librtipc.Memory.Slots.{load, load-memcpy}
use librtipc.Lfmpscq.{Descriptor, Node, Segment, Local, is_shared, retire_node, dequeue, dequeue_at}
use librtipc.Lfmpscq.Slots.{sweep-shared}
use librtipc.Lfmpscq.Refine.{Inv, messages}
use librtipc.Lfmpscq.Sweep.{swept, swept-Inv, tail-Beside}

module _ (qd : Descriptor) (out : Bytes) (s : Segment) (l : Local) (xs : List ℕ) where
  -- What `lfmpscq_dequeue` comes to.
  pub record Dequeued : Type 0 where
    pub status : Status
    pub got : Bytes
    pub next : Segment
    pub own : Local
    pub nodes : List ℕ
    pub returns : dequeue qd out s l ≡ (status, got, next, own)
    pub inv : Inv next own nodes
    pub takes :
        (received status (load got 0 qd.node_data_size), messages qd next nodes)
        ≡ Fifo.take (messages qd s xs)

module _ (qd : Descriptor) {s : Segment} {l : Local} {x : ℕ} {xs : List ℕ}
    (v : Inv s l (x ∷ xs)) where
  abbrev kept : List ℕ × (ℕ → Node)
  kept = swept qd.max_user (tail-Beside v)

  retire_at-moved :
      retire_node qd s.head (record s { head = x }) l
      ≡ (record s { head = x; nodes = kept.1 }, record l { retired = kept.0 })
  unfolding retire_node
  retire_at-moved = refl

-- Alone on a list, slots and retired nodes in order (`Inv`), `lfmpscq_dequeue` gives the oldest
-- message, or fails when there is none; and list, slots and retired nodes stay in order.
pub dequeue-takes :
    (qd : Descriptor) (out : Bytes) (s : Segment) (l : Local) (xs : List ℕ)
    → Inv s l xs
    → Dequeued qd out s l xs
unfolding Fifo.take
dequeue-takes qd out s l [] v = record {
  status = fail;
  got = out;
  next = s;
  own = l;
  nodes = [];
  returns = unfold dequeue dequeue_at in ap (dequeue_at qd out s l) v.chain;
  inv = v;
  takes = refl;
}
dequeue-takes qd out s l (x ∷ xs) v = record {
  status = ok;
  got = memcpy out 0 s.payloads (x * qd.node_data_size) qd.node_data_size;
  next = record s { head = x; nodes = (kept qd v).1 };
  own = record l { retired = (kept qd v).0 };
  nodes = xs;
  returns =
      unfold dequeue dequeue_at in
      (ap (dequeue_at qd out s l) v.chain.0
        ∙ ap
            (λ r. (ok, memcpy out 0 s.payloads (x * qd.node_data_size) qd.node_data_size, r.0, r.1))
            (retire_at-moved qd v));
  inv = swept-Inv qd.max_user (tail-Beside v) l.search;
  takes =
      ap (λ m. (some m, messages qd s xs))
        (load-memcpy out 0 s.payloads (x * qd.node_data_size) qd.node_data_size);
}

-- After `RetireNode`, a node that is still retired is one of the shared indexes.
pub retire_node-shared :
    (qd : Descriptor) (k : ℕ) (s : Segment) (l : Local)
    → All (λ r. is_shared qd.max_user s.shared_idxs r ≡ true) (retire_node qd k s l).1.retired
unfolding retire_node
retire_node-shared qd k s l =
    sweep-shared qd.max_user s.shared_idxs (l.retired ++ (k ∷ [])) [] s.nodes tt
