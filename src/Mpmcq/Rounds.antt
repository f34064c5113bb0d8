-- ===== src/Mpmcq/Rounds.antt =====
-- The loop of `mpmcq_dequeue` in src/mpmcq.c, from a list whose tail may be behind.
use librtipc.Prelude.{
  ℕ, suc, ◌≡◌, ◌≢◌, refl, sym, ◌∙◌, arith, Option, none, some, List, [], ◌∷◌, ℕ_discrete,
}
use librtipc.Atomic.Cas.{cas32-win}
use librtipc.Lfmpscq.{Segment}
use librtipc.Lfmpscq.Chain.{IsChain, Distinct}
use librtipc.Mpmcq.{Descriptor, announced, take_head}

module _ (fuel : ℕ) (qd : Descriptor) (s : Segment) where
  -- A round on an empty list ends with -1.
  pub take_head-none :
      (s.nodes s.head).next ≡ none → take_head (suc fuel) qd s ≡ some (none, announced qd s none)
  unfolding take_head
  take_head-none e = ground (arith, e)

  -- A round that does not find the tail at the head moves the head on.
  pub take_head-some :
      (x : ℕ)
      → (s.nodes s.head).next ≡ some x
      → s.head ≢ s.tail
      → take_head (suc fuel) qd s
        ≡ some (some (s.head, x), record (announced qd s (some x)) { head = x })
  unfolding take_head
  take_head-some x e ne = ground (arith, e, ne, cas32-win s.head s.head x refl)

  -- A round that does moves the tail on.
  take_head-behind :
      (x : ℕ)
      → (s.nodes s.head).next ≡ some x
      → s.head ≡ s.tail
      → take_head (suc fuel) qd s
        ≡ take_head fuel qd (record (announced qd s (some x)) { tail = x })
  unfolding take_head
  take_head-behind x e at = ground (arith, e, at, cas32-win s.tail s.tail x refl)

-- The old head and the first node, when there is one
abbrev pub first_of : ℕ → List ℕ → Option (ℕ × ℕ)
first_of h [] = none
first_of h (x ∷ xs) = some (h, x)

-- How the loop is left.
pub record Ended (fuel : ℕ) (qd : Descriptor) (s : Segment) (xs : List ℕ) : Type 0 where
  pub next : Segment
  pub returns : take_head fuel qd s ≡ some (first_of s.head xs, next)
  pub same_nodes : next.nodes ≡ s.nodes
  pub same_payloads : next.payloads ≡ s.payloads
  pub moved : (h x : ℕ) → first_of s.head xs ≡ some (h, x) → (next.head ≡ x) × (next.tail ≢ h)

-- Wherever the tail is, two rounds of the loop are enough: it ends with -1 if the list is empty, and with
-- the old head and the first node if it is not. Then the head is at that node, the tail is not at the old
-- head, and nodes and messages are as before.
pub take_head-ends :
    (fuel : ℕ) (qd : Descriptor) (s : Segment) (xs : List ℕ)
    → IsChain s.nodes s.head xs
    → Distinct (s.head ∷ xs)
    → Ended (suc (suc fuel)) qd s xs
take_head-ends fuel qd s [] c d = record {
  next = announced qd s none;
  returns = take_head-none (suc fuel) qd s c;
  same_nodes = refl;
  same_payloads = refl;
  moved = λ h x e. absurd (cc e);
}
take_head-ends fuel qd s (x ∷ xs) c d = elim (ℕ_discrete s.head s.tail) [
  | no ne ↦ record {
    next = record (announced qd s (some x)) { head = x };
    returns = take_head-some (suc fuel) qd s x c.0 ne;
    same_nodes = refl;
    same_payloads = refl;
    moved = λ h y e. (cc e, λ q. ne (cc (e, q)));
  }
  | yes at ↦ record {
    next = record (announced qd (record (announced qd s (some x)) { tail = x }) (some x)) {
      head = x;
    };
    returns =
        take_head-behind (suc fuel) qd s x c.0 at
        ∙ take_head-some fuel qd (record (announced qd s (some x)) { tail = x }) x c.0
            (λ e. d.0.0 (sym e));
    same_nodes = refl;
    same_payloads = refl;
    moved = λ h y e. (cc e, λ q. d.0.0 (cc (e, q)));
  }
]
