-- ===== src/Tests/Locks.antt =====
-- The barrier of src/barrier.c with one user, the mutex of src/mutex.c, and the flag of src/flag.c.
use librtipc.Prelude.{
  ℕ, ◌+◌, ◌≤◌, ◌<◌, ◌≡◌, ◌≢◌, ◌⊎◌, refl, arith, [], ◌∷◌, true, false, some, update, All,
}
use librtipc.Atomic.{cas32, faa32}
use librtipc.Barrier
use librtipc.Barrier.{Pc}
use librtipc.Barrier.Safety.{Arrived, passes_together}
use librtipc.Barrier.Progress.{Passes, no_deadlock}
use librtipc.Mutex
use librtipc.Mutex.{MutexData, trylock, spin_lock, unlock}
use librtipc.Mutex.Exclusion.{mutual_exclusion}
use librtipc.Flag.{FlagData, set, reset}

abbrev counted : Barrier.System
counted = record {
  shared = record { cnt = 1; fallen = 0 };
  users =
      update
        (update (update Barrier.initial.users 0 (record { pc = Pc.entering; rounds = 0 })) 0
          (record { pc = Pc.arriving; rounds = 0 }))
        0 (record { pc = Pc.waiting; rounds = 0 });
}

-- User 0 of two has counted itself; user 1 has not called.
counted-Reach : Barrier.Reach 2 counted
unfolding faa32
counted-Reach =
    Barrier.later
      (Barrier.later (Barrier.later Barrier.start (Barrier.pick 0 (omega arith) Barrier.call))
        (Barrier.pick 0 (omega arith) (Barrier.enter (omega arith))))
      (Barrier.pick 0 (omega arith) Barrier.arrive)

passes_together_example : (0 ≤ 0) ⊎ ((0 ≡ 0 + 1) × Arrived (counted.users 1).pc)
passes_together_example =
    passes_together (omega arith) counted-Reach 0 1 (omega arith) (omega arith)

-- Then user 1 calls, too.
abbrev both : Barrier.System
both = record counted { users = update counted.users 1 (record { pc = Pc.entering; rounds = 0 }) }

both-Reach : Barrier.Reach 2 both
both-Reach = Barrier.later counted-Reach (Barrier.pick 1 (omega arith) Barrier.call)

nobody_outside : (i : ℕ) → i < 2 → (both.users i).pc ≢ Pc.outside
nobody_outside i h = ground arith

no_deadlock_example : (i : ℕ) × (i < 2) × Passes 2 both i ((both.users i).rounds + 1)
no_deadlock_example = no_deadlock (omega arith) (omega arith) both-Reach nobody_outside

-- Process 5 holds the mutex, and process 6 has tried in vain.
abbrev held : Mutex.System
held = record {
  shared = record { mutex = 1 };
  holds = update (update Mutex.initial.holds 5 true) 6 false;
}

held-Reach : Mutex.Reach held
unfolding trylock cas32
held-Reach = Mutex.later (Mutex.later Mutex.start (Mutex.attempt 5 refl)) (Mutex.attempt 6 refl)

mutual_exclusion_example : ◌≡◌ {A = ℕ} 5 5
mutual_exclusion_example = mutual_exclusion held-Reach 5 5 refl refl

spin_lock-unlock : spin_lock 1 (unlock held.shared) ≡ some (record { mutex = 1 })
unfolding spin_lock unlock cas32
spin_lock-unlock = refl

abbrev lowered : FlagData
lowered = record { f = 0 }

abbrev raised : FlagData
raised = record { f = 1 }

lowered_before : All (λ x. x ≡ reset lowered) (lowered ∷ lowered ∷ [])
unfolding reset
lowered_before = (refl, (refl, tt))

raised_before : All (λ x. x ≡ set lowered) (raised ∷ [])
unfolding set
raised_before = (refl, tt)
