-- ===== src/Lfmpscq/Refine.antt =====
-- The list of src/lfmpscq.c as a list of messages, and `lfmpscq_enqueue`, used by one process at a
-- time.
use librtipc.Prelude.{
  ℕ, suc, ◌*◌, ◌<◌, ◌≡◌, ◌≢◌, ◌⊎◌, inl, inr, refl, ap, ap₂, sym, ◌∙◌, arith, List, [], ◌∷◌, ◌++◌,
  All, map, map-append, map_congr, Option, none, some, update,
}
use mathlib.Core.Path.{subst}
use librtipc.Status.{Status, ok, fail}
use librtipc.Memory.{Bytes, memcpy}
use librtipc.Memory.Slots.{load, load-memcpy, load-memcpy_ne}
use librtipc.Lfmpscq.{
  Descriptor, Node, Segment, Local, get_free_slot, append, appended, enqueue_in, enqueue,
}
use librtipc.Lfmpscq.Chain.{
  IsChain, IsChain-snoc, IsChain-last, last_of, last_of-snoc, Distinct, Distinct-snoc, All-map,
  All-map2, All-snoc, All-last,
}
use librtipc.Lfmpscq.Slots.{Taken, Search, get_free_slot-Search, get_free_slot-full}

-- `xs` are the nodes of the list behind the dummy node at the head.
pub record Inv (s : Segment) (l : Local) (xs : List ℕ) : Type 0 where
  pub chain : IsChain s.nodes s.head xs
  pub last : s.tail ≡ last_of s.head xs
  pub distinct : Distinct (s.head ∷ xs)
  pub in_use : All (λ k. (s.nodes k).used ≡ 1) (s.head ∷ xs)
  pub retired_in_use : All (λ r. (s.nodes r).used ≡ 1) l.retired
  pub apart : All (λ r. All (λ k. k ≢ r) (s.head ∷ xs)) l.retired

-- Every slot is in use.
abbrev pub AllUsed : ℕ → (ℕ → Node) → Type 0
AllUsed num_slots nodes = (k : ℕ) → k < num_slots → (nodes k).used ≢ 0

-- The messages of the list, oldest first.
abbrev pub messages : Descriptor → Segment → List ℕ → List (List ℕ)
messages qd s xs = map (λ k. load s.payloads (k * qd.node_data_size) qd.node_data_size) xs

-- Nodes in use are not a free one.
not-free :
    (nodes : ℕ → Node) (k : ℕ) (xs : List ℕ)
    → (nodes k).used ≡ 0
    → All (λ x. (nodes x).used ≡ 1) xs
    → All (λ x. x ≢ k) xs
not-free nodes k xs e h = All-map _ _ (λ x u q. absurd (cc (ap (λ y. (nodes y).used) q))) xs h

-- One round of the loop of `lfmpscq_enqueue` links the node, if the tail is the last node.
pub append-once :
    (fuel : ℕ) (qd : Descriptor) (k : ℕ) (s : Segment)
    → (s.nodes s.tail).next ≡ none
    → append (suc fuel) qd k s
      ≡ some (record s {
        shared_idxs = update s.shared_idxs qd.user_id (some s.tail);
        nodes = update s.nodes s.tail (record (s.nodes s.tail) { next = some k });
        tail = k;
      })
unfolding append
append-once fuel qd k s e = ground arith

module _ (qd : Descriptor) {s : Segment} {l : Local} {xs : List ℕ} (v : Inv s l xs)
    (payload : Bytes) where
  -- What a successful `lfmpscq_enqueue` makes of the segment, with slot `k`.
  abbrev prepared : ℕ → ℕ → Node
  prepared k =
      update (update s.nodes k (record (s.nodes k) { used = 1 })) k
        (record (update s.nodes k (record (s.nodes k) { used = 1 }) k) { next = none })

  abbrev linked : ℕ → Segment
  linked k = record s {
    shared_idxs = update s.shared_idxs qd.user_id (some s.tail);
    nodes = update (prepared k) s.tail (record (prepared k s.tail) { next = some k });
    tail = k;
    payloads = memcpy s.payloads (k * qd.node_data_size) payload 0 qd.node_data_size;
  }

  module _ (k : ℕ) (free : (s.nodes k).used ≡ 0) where
    fresh : All (λ x. x ≢ k) (s.head ∷ xs)
    fresh = not-free s.nodes k (s.head ∷ xs) free v.in_use

    tail-ne : s.tail ≢ k
    tail-ne = λ e. All-last _ s.head xs fresh (sym v.last ∙ e)

    used-linked : (j : ℕ) → (s.nodes j).used ≡ 1 → ((linked k).nodes j).used ≡ 1
    used-linked j u = ground arith

    next-linked : (j : ℕ) → j ≢ s.tail → j ≢ k → ((linked k).nodes j).next ≡ (s.nodes j).next
    next-linked j a b = ground arith

    linked-Inv : (i : ℕ) → Inv (linked k) (record l { search = i }) (xs ++ (k ∷ []))
    linked-Inv i = record {
      chain =
          IsChain-snoc s.nodes (linked k).nodes s.head k xs v.chain v.distinct
            (λ j a b. next-linked j (λ e. a (e ∙ v.last)) b) fresh
            (subst (λ t. ((linked k).nodes t).next ≡ some k) v.last (ground arith))
            (ground (arith, tail-ne));
      last = sym (last_of-snoc s.head k xs);
      distinct = Distinct-snoc (s.head ∷ xs) k v.distinct fresh;
      in_use =
          All-snoc _ (s.head ∷ xs) k (All-map _ _ used-linked (s.head ∷ xs) v.in_use)
            (ground (arith, tail-ne));
      retired_in_use = All-map _ _ used-linked l.retired v.retired_in_use;
      apart =
          All-map2 _ _ _
            (λ r a u.
              All-snoc _ (s.head ∷ xs) k a (λ e. absurd (cc (ap (λ y. (s.nodes y).used) e))))
            l.retired v.apart v.retired_in_use;
    }

    -- The messages are those that were there, and then the new one.
    messages-linked :
        messages qd (linked k) (xs ++ (k ∷ []))
        ≡ messages qd s xs ++ (load payload 0 qd.node_data_size ∷ [])
    messages-linked =
        map-append _ xs (k ∷ [])
        ∙ ap₂ ◌++◌
            (map_congr _ _ xs (
              All-map _ _ (λ x ne. load-memcpy_ne s.payloads k x payload 0 qd.node_data_size ne) xs
                fresh.1))
            (ap (λ m. m ∷ [])
              (load-memcpy s.payloads (k * qd.node_data_size) payload 0 qd.node_data_size))

  -- What `lfmpscq_enqueue` comes to; if it returns -1, then `Full`.
  pub record Enqueued (Full : Type 0) (fuel : ℕ) : Type 0 where
    pub status : Status
    pub next : Segment
    pub own : Local
    pub nodes : List ℕ
    pub returns : enqueue fuel qd payload s l ≡ some (status, next, own)
    pub inv : Inv next own nodes
    pub holds :
        ((status ≡ fail) × (messages qd next nodes ≡ messages qd s xs) × Full)
        ⊎ ((status ≡ ok)
            × (messages qd next nodes
                ≡ messages qd s xs ++ (load payload 0 qd.node_data_size ∷ [])))

  with_slot :
      (fuel k i : ℕ) (nodes : ℕ → Node)
      → Taken s.nodes k nodes
      → enqueue_in (suc fuel) qd payload s l (some k, i, nodes)
        ≡ some (ok, linked k, record l { search = i })
  unfolding enqueue_in appended
  with_slot fuel k i nodes h =
      ap (λ n. enqueue_in (suc fuel) qd payload s l (some k, i, n)) h.marks
      ∙ ap (appended l i) (append-once fuel qd k readied end)
    where
      readied : Segment
      readied = record s {
        payloads = memcpy s.payloads (k * qd.node_data_size) payload 0 qd.node_data_size;
        nodes = prepared k;
      }

      end : (prepared k s.tail).next ≡ none
      end = ground (
        arith,
        subst (λ t. (s.nodes t).next ≡ none) (sym v.last) (IsChain-last s.nodes s.head xs v.chain),
      )

  -- One round of the loop is enough, where `Full` holds if the search finds no slot.
  pub enqueue-outcome :
      (Full : Type 0)
      → ((get_free_slot qd.num_slots qd.num_slots l.search s.nodes).0 ≡ none → Full)
      → (fuel : ℕ) → Enqueued Full (suc fuel)
  enqueue-outcome Full full fuel =
      go (get_free_slot qd.num_slots qd.num_slots l.search s.nodes) refl
        (get_free_slot-Search qd.num_slots qd.num_slots l.search s.nodes)
    where
      go :
          (f : Option ℕ × ℕ × (ℕ → Node))
          → get_free_slot qd.num_slots qd.num_slots l.search s.nodes ≡ f
          → Search s.nodes f.0 f.2
          → Enqueued Full (suc fuel)
      go (none, i, nodes) e h = record {
        status = fail;
        next = s;
        own = record l { search = i };
        nodes = xs;
        returns =
            unfold enqueue enqueue_in in
            (ap (enqueue_in (suc fuel) qd payload s l) e
              ∙ ap (λ n. some (fail, record s { nodes = n }, record l { search = i })) h);
        inv = v_with i;
        holds = inl (refl, refl, full (ap (λ f. f.0) e));
      }
        where
          v_with : (i : ℕ) → Inv s (record l { search = i }) xs
          v_with i = record {
            chain = v.chain;
            last = v.last;
            distinct = v.distinct;
            in_use = v.in_use;
            retired_in_use = v.retired_in_use;
            apart = v.apart;
          }
      go (some k, i, nodes) e h = record {
        status = ok;
        next = linked k;
        own = record l { search = i };
        nodes = xs ++ (k ∷ []);
        returns =
            unfold enqueue in
            (ap (enqueue_in (suc fuel) qd payload s l) e ∙ with_slot fuel k i nodes h);
        inv = linked-Inv k h.was_free i;
        holds = inr (refl, messages-linked k h.was_free);
      }

  -- Alone on a list, slots and retired nodes in order (`Inv`), the search within the slots, one round of the
  -- loop is enough: `lfmpscq_enqueue` returns, either -1 with the same messages, and then every slot was in
  -- use, or 0 with the message behind all others; and list, slots and retired nodes stay in order.
  pub enqueue-appends :
      (fuel : ℕ) → l.search < qd.num_slots → Enqueued (AllUsed qd.num_slots s.nodes) (suc fuel)
  enqueue-appends fuel inside =
      enqueue-outcome (AllUsed qd.num_slots s.nodes)
        (get_free_slot-full qd.num_slots l.search s.nodes inside) fuel
