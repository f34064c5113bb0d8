-- ===== src/Mpmcq/Refine.antt =====
-- The functions of src/mpmcq.c, used by one process at a time, as operations on a list of messages.
use mathlib.Core.Option
use mathlib.Core.Path.{subst}
use librtipc.Prelude.{
  ℕ, suc, ◌*◌, ◌<◌, ◌≡◌, ◌≢◌, ◌⊎◌, inl, inr, refl, ap, sym, ◌∙◌, List, [], ◌∷◌, ◌++◌, Option, none,
  some,
}
use librtipc.Status.{Status, ok, fail, received}
use librtipc.Fifo
use librtipc.Memory.{Bytes, memcpy}
use librtipc.Memory.Slots.{load, load-memcpy}
use librtipc.Lfmpscq
use librtipc.Lfmpscq.{Segment, Local}
use librtipc.Lfmpscq.Chain.{All-last}
use librtipc.Lfmpscq.Refine.{Inv, Enqueued, enqueue-outcome, AllUsed, messages}
use librtipc.Lfmpscq.Slots.{get_free_slot-full}
use librtipc.Lfmpscq.Sweep.{swept-Inv, Inv-Beside, tail-Beside}
use librtipc.Mpmcq.Rounds.{take_head-none, take_head-some}
use librtipc.Mpmcq.{
  Descriptor, as_lfmpscq, try_retire, retire_node, get_free_slot, enqueue, announced, finish,
  dequeue,
}

-- `TryRetire` keeps the list in order.
try_retire-Inv :
    (qd : Descriptor) {s : Segment} {l : Local} {xs : List ℕ}
    → Inv s l xs
    → Inv (try_retire qd s l).0 (try_retire qd s l).1 xs
unfolding try_retire
try_retire-Inv qd {l = l} v = swept-Inv (2 * qd.max_user) (Inv-Beside v) l.search

-- The list does not depend on the shared indexes.
announced-Inv :
    (qd : Descriptor) (h_next : Option ℕ) {s : Segment} {l : Local} {xs : List ℕ}
    → Inv s l xs
    → Inv (announced qd s h_next) l xs
announced-Inv qd h_next v = record {
  chain = v.chain;
  last = v.last;
  distinct = v.distinct;
  in_use = v.in_use;
  retired_in_use = v.retired_in_use;
  apart = v.apart;
}

-- The tail of a list in order is behind the head.
tail-behind : {s : Segment} {l : Local} {x : ℕ} {xs : List ℕ} → Inv s l (x ∷ xs) → s.head ≢ s.tail
tail-behind {s} {x = x} {xs = xs} v e =
    All-last (λ k. k ≢ s.head) x xs v.distinct.0 (sym (e ∙ v.last))

-- What `mpmcq_enqueue` comes to; if it returns -1, then `Full`.
pub record Appended (Full : Type 0) (fuel : ℕ) (qd : Descriptor) (payload : Bytes) (s : Segment)
    (l : Local) (xs : List ℕ) : Type 0 where
  pub status : Status
  pub next : Segment
  pub own : Local
  pub nodes : List ℕ
  pub returns : enqueue fuel qd payload s l ≡ some (status, next, own)
  pub inv : Inv next own nodes
  pub holds :
      ((status ≡ fail)
        × (messages (as_lfmpscq qd) next nodes ≡ messages (as_lfmpscq qd) s xs)
        × Full)
      ⊎ ((status ≡ ok)
          × (messages (as_lfmpscq qd) next nodes
              ≡ messages (as_lfmpscq qd) s xs ++ (load payload 0 qd.node_data_size ∷ [])))

-- One round of the loop is enough, where `Full` holds if the search finds no slot.
enqueue-outcome_last :
    (Full : Type 0) (fuel : ℕ) (qd : Descriptor) (payload : Bytes) (s : Segment) (l : Local)
    (xs : List ℕ)
    → Inv s l xs
    → ((Lfmpscq.get_free_slot qd.num_slots qd.num_slots
            (try_retire qd s l).1.search
            (try_retire qd s l).0.nodes).0
          ≡ none
        → Full)
    → Appended Full (suc fuel) qd payload s l xs
enqueue-outcome_last Full fuel qd payload s l xs v full = record {
  status = e.status;
  next = e.next;
  own = e.own;
  nodes = e.nodes;
  returns = unfold enqueue get_free_slot in (sym returned ∙ e.returns);
  inv = e.inv;
  holds = unfold try_retire in e.holds;
}
  where
    e : Enqueued (as_lfmpscq qd) (try_retire-Inv qd v) payload Full (suc fuel)
    e = enqueue-outcome (as_lfmpscq qd) (try_retire-Inv qd v) payload Full full fuel

    returned :
        Lfmpscq.enqueue
          (suc fuel)
          (as_lfmpscq qd)
          payload
          (try_retire qd s l).0
          (try_retire qd s l).1
        ≡ enqueue (suc fuel) qd payload s l
    returned = unfold enqueue get_free_slot Lfmpscq.enqueue in refl

-- Alone on a list, slots and retired nodes in order (`Inv`), the search within the slots, one round of the
-- loop is enough: `mpmcq_enqueue` returns, either -1 with the same messages, and then every slot was in use
-- after `TryRetire`, or 0 with the message behind all others; and list, slots and retired nodes stay in
-- order.
pub enqueue-appends_last :
    (fuel : ℕ) (qd : Descriptor) (payload : Bytes) (s : Segment) (l : Local) (xs : List ℕ)
    → Inv s l xs
    → l.search < qd.num_slots
    → Appended (AllUsed qd.num_slots (try_retire qd s l).0.nodes) (suc fuel) qd payload s l xs
enqueue-appends_last fuel qd payload s l xs v inside =
    enqueue-outcome_last (AllUsed qd.num_slots (try_retire qd s l).0.nodes) fuel qd payload s l xs v
      (get_free_slot-full qd.num_slots (try_retire qd s l).1.search (try_retire qd s l).0.nodes
        (unfold try_retire in inside))

-- What `mpmcq_dequeue` comes to.
pub record Taken (fuel : ℕ) (qd : Descriptor) (out : Bytes) (s : Segment) (l : Local) (xs : List ℕ)
    : Type 0 where
  pub status : Status
  pub got : Bytes
  pub next : Segment
  pub own : Local
  pub nodes : List ℕ
  pub returns : dequeue fuel qd out s l ≡ some (status, got, next, own)
  pub inv : Inv next own nodes
  pub takes :
      (received status (load got 0 qd.node_data_size), messages (as_lfmpscq qd) next nodes)
      ≡ Fifo.take (messages (as_lfmpscq qd) s xs)

-- Alone on a list, slots and retired nodes in order (`Inv`), one round of the loop is enough:
-- `mpmcq_dequeue` returns, with the oldest message, or with -1 when there is none; and list, slots and
-- retired nodes stay in order.
pub dequeue-takes_first :
    (fuel : ℕ) (qd : Descriptor) (out : Bytes) (s : Segment) (l : Local) (xs : List ℕ)
    → Inv s l xs
    → Taken (suc fuel) qd out s l xs
unfolding Fifo.take try_retire
dequeue-takes_first fuel qd out s l [] v = record {
  status = fail;
  got = out;
  next = announced qd (try_retire qd s l).0 none;
  own = (try_retire qd s l).1;
  nodes = [];
  returns =
      unfold dequeue finish in
      ap (finish qd out (try_retire qd s l).1)
        (take_head-none fuel qd (try_retire qd s l).0 (try_retire-Inv qd v).chain);
  inv = announced-Inv qd none (try_retire-Inv qd v);
  takes = refl;
}
dequeue-takes_first fuel qd out s l (x ∷ xs) v = record {
  status = ok;
  got = memcpy out 0 s.payloads (x * qd.node_data_size) qd.node_data_size;
  next = (retire_node qd s.head moved l1).0;
  own = (retire_node qd s.head moved l1).1;
  nodes = xs;
  returns =
      unfold dequeue finish in
      ap (finish qd out l1) (
        take_head-some fuel qd (try_retire qd s l).0 x (try_retire-Inv qd v).chain.0
          (tail-behind (try_retire-Inv qd v)));
  inv =
      unfold retire_node in
      swept-Inv (2 * qd.max_user) (tail-Beside (announced-Inv qd (some x) (try_retire-Inv qd v)))
        l.search;
  takes =
      unfold retire_node in
      ap (λ m. (some m, messages (as_lfmpscq qd) s xs))
        (load-memcpy out 0 s.payloads (x * qd.node_data_size) qd.node_data_size);
}
  where
    l1 : Local
    l1 = (try_retire qd s l).1

    moved : Segment
    moved = record (announced qd (try_retire qd s l).0 (some x)) { head = x }

-- On an empty list in order, what `mpmcq_enqueue` has taken, `mpmcq_dequeue` gives back.
pub enqueue-dequeue :
    (fuel fuel' : ℕ) (qd : Descriptor) (payload out : Bytes) (s s' : Segment) (l l' : Local)
    → Inv s l []
    → enqueue (suc fuel) qd payload s l ≡ some (ok, s', l')
    → Option.map
        (λ r. received r.0 (load r.1 0 qd.node_data_size))
        (dequeue (suc fuel') qd out s' l')
      ≡ some (some (load payload 0 qd.node_data_size))
unfolding Fifo.take
enqueue-dequeue fuel fuel' qd payload out s s' l l' v e =
    subst
      (λ r.
        Option.map (λ r. received r.0 (load r.1 0 qd.node_data_size))
          (dequeue (suc fuel') qd out r.1 r.2)
        ≡ some (some (load payload 0 qd.node_data_size)))
      same
      (ap (Option.map (λ r. received r.0 (load r.1 0 qd.node_data_size))) d.returns
        ∙ ap some (ap (λ r. r.0) (d.takes ∙ ap Fifo.take one)))
  where
    a : Appended (Unit {0}) (suc fuel) qd payload s l []
    a = enqueue-outcome_last (Unit {0}) fuel qd payload s l [] v (λ e. tt)

    d : Taken (suc fuel') qd out a.next a.own a.nodes
    d = dequeue-takes_first fuel' qd out a.next a.own a.nodes a.inv

    same : ◌≡◌ {A = Status × Segment × Local} (a.status, a.next, a.own) (ok, s', l')
    same = cc (sym a.returns ∙ e)

    one : messages (as_lfmpscq qd) a.next a.nodes ≡ load payload 0 qd.node_data_size ∷ []
    one = elim a.holds [
      | inl (failed, m, full) ↦ absurd (cc (ap (λ r. r.0) same))
      | inr (done, m) ↦ m
    ]
