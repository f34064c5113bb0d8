-- ===== src/Barrier/Safety.antt =====
-- What the barrier of src/barrier.c promises.
use librtipc.Prelude.{ℕ, ◌+◌, ◌^◌, ◌≤◌, ◌<◌, ◌≡◌, ◌⊎◌, arith}
use librtipc.Barrier.{Pc, outside, entering, arriving, System, Reach}
use librtipc.Barrier.Invariant.{Phase, gather, fall, shut, Inv}
use librtipc.Barrier.Moves.{Reach-Inv}

-- A user that has counted itself in `cnt` and has not yet left its call.
abbrev pub Arrived : Pc → Type 0
Arrived outside = ⊥
Arrived entering = ⊥
Arrived arriving = ⊥
Arrived _ = Unit {0}

module _ {n r : ℕ} {s : System} (i j : ℕ) (hi : i < n) (hj : j < n) where
  together :
      (p : Phase)
      → Inv n p r s.shared s.users
      → ((s.users i).rounds ≤ (s.users j).rounds)
        ⊎ (((s.users i).rounds ≡ (s.users j).rounds + 1) × Arrived (s.users j).pc)
  together gather v = ground (arith, v.fits i hi, v.fits j hj)
  together fall v = ground (arith, v.fits i hi, v.fits j hj)
  together shut v = ground (arith, v.fits i hi, v.fits j hj)

-- In every interleaving of fewer than 2 ^ 31 users, a user has passed the barrier at most once
-- more than another, and if it has, then the other has arrived at the barrier and is about to pass
-- it: nobody passes before all have arrived.
pub passes_together :
    {n : ℕ} {s : System}
    → n < 2 ^ 31
    → Reach n s
    → (i j : ℕ) → i < n
    → j < n
    → ((s.users i).rounds ≤ (s.users j).rounds)
      ⊎ (((s.users i).rounds ≡ (s.users j).rounds + 1) × Arrived (s.users j).pc)
passes_together small rs i j hi hj = let (p, r, v) = Reach-Inv small rs in together i j hi hj p v
