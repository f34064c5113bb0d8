-- ===== src/Atomic/Cas.antt =====
-- The two ways in which `atomic_cas32` goes.
use librtipc.Prelude.{ℕ, ◌≡◌, ◌≢◌, ◌⊎◌, inl, inr, ap, arith, ℕ_discrete}
use librtipc.Atomic.{cas32}

pub cas32-win : (mem old new : ℕ) → mem ≡ old → cas32 mem old new ≡ (1, new)
unfolding cas32
cas32-win mem old new e = ground arith

pub cas32-lose : (mem old new : ℕ) → mem ≢ old → cas32 mem old new ≡ (0, mem)
unfolding cas32
cas32-lose mem old new e = ground arith

-- An exchange succeeds, or leaves the word.
pub exchanged :
    (word t x : ℕ) → ((word ≡ t) × ((cas32 word t x).1 ≡ x)) ⊎ ((cas32 word t x).1 ≡ word)
exchanged word t x = elim (ℕ_discrete word t) [
  | yes e ↦ inl (e, ap (λ r. r.1) (cas32-win word t x e))
  | no ne ↦ inr (ap (λ r. r.1) (cas32-lose word t x ne))
]
