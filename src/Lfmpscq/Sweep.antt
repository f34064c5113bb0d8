-- ===== src/Lfmpscq/Sweep.antt =====
-- What `RetireNode` of src/lfmpscq.c does to the list when it goes through nodes that are not in it.
use librtipc.Prelude.{ℕ, ◌≡◌, ◌≢◌, inl, inr, ap, sym, ◌∙◌, List, [], ◌∷◌, ◌++◌, All, true}
use librtipc.Lfmpscq.{Node, Segment, Local, sweep, is_shared}
use librtipc.Lfmpscq.Chain.{
  IsChain, IsChain-congr, Distinct, last_of, All-map, All-map2, All-swap, All-snoc,
}
use librtipc.Lfmpscq.Slots.{sweep-keeps, sweep-All, sweep-shared}
use librtipc.Lfmpscq.Refine.{Inv}

-- The list from `head` on through `xs`, and nodes `listed` beside it.
pub record Beside (s : Segment) (head : ℕ) (xs listed : List ℕ) : Type 0 where
  pub chain : IsChain s.nodes head xs
  pub last : s.tail ≡ last_of head xs
  pub distinct : Distinct (head ∷ xs)
  pub in_use : All (λ k. (s.nodes k).used ≡ 1) (head ∷ xs)
  pub listed_in_use : All (λ r. (s.nodes r).used ≡ 1) listed
  pub apart : All (λ r. All (λ k. k ≢ r) (head ∷ xs)) listed

module _ (users : ℕ) {s : Segment} {head : ℕ} {xs listed : List ℕ}
    (v : Beside s head xs listed) where
  abbrev pub swept : List ℕ × (ℕ → Node)
  swept = sweep users s.shared_idxs listed [] s.nodes

  swept-same : (k : ℕ) → All (λ r. k ≢ r) listed → swept.1 k ≡ s.nodes k
  swept-same k h =
      sweep-keeps users s.shared_idxs listed [] s.nodes k
        (inr (All-map _ _ (λ r ne e. ne (sym e)) listed h))

  swept-chain : All (λ k. swept.1 k ≡ s.nodes k) (head ∷ xs)
  swept-chain =
      All-map _ _ swept-same (head ∷ xs) (All-swap (λ r k. k ≢ r) listed (head ∷ xs) v.apart)

  kept-shared : All (λ r. is_shared users s.shared_idxs r ≡ true) swept.0
  kept-shared = sweep-shared users s.shared_idxs listed [] s.nodes tt

  -- The list stays, and the nodes that are kept are still in use.
  pub swept-Inv :
      (search : ℕ)
      → Inv
          (record s { head = head; nodes = swept.1 })
          (record { retired = swept.0; search = search })
          xs
  swept-Inv search = record {
    chain =
        IsChain-congr s.nodes swept.1 head xs
          (All-map _ _ (λ k e. ap (λ n. n.next) e) (head ∷ xs) swept-chain) v.chain;
    last = v.last;
    distinct = v.distinct;
    in_use = All-map2 _ _ _ (λ k e u. ap (λ n. n.used) e ∙ u) (head ∷ xs) swept-chain v.in_use;
    retired_in_use =
        All-map2 _ _ _
          (λ r u h.
            ap (λ n. n.used) (sweep-keeps users s.shared_idxs listed [] s.nodes r (inl h)) ∙ u)
          swept.0
          (sweep-All users s.shared_idxs (λ r. (s.nodes r).used ≡ 1) listed [] s.nodes
            v.listed_in_use tt)
          kept-shared;
    apart =
        sweep-All users s.shared_idxs (λ r. All (λ k. k ≢ r) (head ∷ xs)) listed [] s.nodes v.apart
          tt;
  }

module _ {s : Segment} {l : Local} {xs : List ℕ} where
  -- The retired nodes lie beside the list.
  pub Inv-Beside : Inv s l xs → Beside s s.head xs l.retired
  Inv-Beside v = record {
    chain = v.chain;
    last = v.last;
    distinct = v.distinct;
    in_use = v.in_use;
    listed_in_use = v.retired_in_use;
    apart = v.apart;
  }

  -- Without its first node the list has that node beside it, too.
  pub tail-Beside : {x : ℕ} → Inv s l (x ∷ xs) → Beside s x xs (l.retired ++ (s.head ∷ []))
  tail-Beside v = record {
    chain = v.chain.1;
    last = v.last;
    distinct = v.distinct.1;
    in_use = v.in_use.1;
    listed_in_use = All-snoc _ l.retired s.head v.retired_in_use v.in_use.0;
    apart = All-snoc _ l.retired s.head (All-map _ _ (λ r a. a.1) l.retired v.apart) v.distinct.0;
  }
