-- ===== src/Lfmpscq/Rounds.antt =====
-- The loop of `lfmpscq_enqueue` in src/lfmpscq.c, and of `mpmcq_enqueue` in src/mpmcq.c, from a list whose
-- tail another process has left behind.
use librtipc.Prelude.{ℕ, suc, ◌≡◌, ◌⊎◌, inl, inr, refl, ap, ◌∙◌, arith, Option, some, List, update}
use mathlib.Core.Path.{subst}
use librtipc.Atomic.Cas.{cas32-win}
use librtipc.Lfmpscq.{Descriptor, Segment, append}
use librtipc.Lfmpscq.Refine.{append-once}
use librtipc.Lfmpscq.Chain.{IsChain, IsChain-last, last_of}

-- The tail is at the last node, or at the node before it.
abbrev pub Near : Segment → List ℕ → Type 0
Near s xs = (s.tail ≡ last_of s.head xs) ⊎ ((s.nodes s.tail).next ≡ some (last_of s.head xs))

-- Node `k` behind node `t`, the last one
abbrev pub Linked : Segment → (t k : ℕ) → (ℕ → Option ℕ) → Segment
Linked s t k idxs = record s {
  shared_idxs = idxs;
  nodes = update s.nodes t (record (s.nodes t) { next = some k });
  tail = k;
}

-- A round that does not find the tail at the last node helps it on.
append-behind :
    (fuel : ℕ) (qd : Descriptor) (k t : ℕ) (s : Segment)
    → (s.nodes s.tail).next ≡ some t
    → append (suc fuel) qd k s
      ≡ append fuel qd k
          (record s { shared_idxs = update s.shared_idxs qd.user_id (some s.tail); tail = t })
unfolding append
append-behind fuel qd k t s e = ground (arith, e, cas32-win s.tail s.tail t refl)

-- When the tail is at the last node or at the one before it, two rounds of the loop are enough: the new
-- node is then the last one and the tail is at it.
pub append-ends :
    (fuel : ℕ) (qd : Descriptor) (k : ℕ) (s : Segment) (xs : List ℕ)
    → IsChain s.nodes s.head xs
    → Near s xs
    → (idxs : ℕ → Option ℕ) × (append (suc (suc fuel)) qd k s
        ≡ some (Linked s (last_of s.head xs) k idxs))
append-ends fuel qd k s xs c (inl e) = (
  update s.shared_idxs qd.user_id (some s.tail),
  subst
      (λ t.
        append (suc (suc fuel)) qd k s
        ≡ some (Linked s t k (update s.shared_idxs qd.user_id (some s.tail))))
      e
      (append-once (suc fuel) qd k s
        (ap (λ t. (s.nodes t).next) e ∙ IsChain-last s.nodes s.head xs c)),
)
append-ends fuel qd k s xs c (inr e) = (
  _,
  append-behind (suc fuel) qd k (last_of s.head xs) s e
      ∙ append-once fuel qd k
          (record s {
            shared_idxs = update s.shared_idxs qd.user_id (some s.tail);
            tail = last_of s.head xs;
          })
          (IsChain-last s.nodes s.head xs c),
)
