-- ===== src/Mutex.antt =====
-- src/mutex.c and include/mutex.h: a lock in shared memory.
pub mod Exclusion
use librtipc.Prelude.{
  ℕ, zero, suc, Bool, true, false, ◌==◌, if◌then◌else◌, Option, none, some, ◌≡◌, update,
}
use librtipc.Status.{Status, ok, fail}
use librtipc.Atomic.{cas32}
use librtipc.Object.{Segments, World, get as get_object, obtain, release as release_object}

-- `mutex_data_t` after its fields `lock` and `init`, which are those of `Object.Shared`
pub record MutexData : Type 0 where
  pub mutex : ℕ

-- `mutex_d_t`; `m` is the address of the data.
pub record Descriptor : Type 0 where
  pub obj_id : ℕ
  pub m : ℕ

unfoldable pub setup : MutexData → MutexData
setup d = record d { mutex = 0 }

-- `mutex_get`; `sizeof(mutex_data_t)` is 12.
unfoldable pub get :
    (S : Segments)
    → ℕ
    → Descriptor
    → (obj_id : ℕ) → World S MutexData
    → Option (Status × Descriptor × World S MutexData)
unfolding setup get_object obtain
get S fuel md obj_id w =
    let md' : Descriptor = record md { obj_id = obj_id } in
    obtain S md' (λ a. record md' { m = a }) (get_object S fuel setup 12 obj_id w)

-- `mutex_release`
unfoldable pub release_mutex :
    (S : Segments) → Descriptor → World S MutexData → Status × World S MutexData
unfolding release_object
release_mutex S md w = release_object S md.obj_id w

-- `mutex_trylock`
unfoldable pub trylock : MutexData → Status × MutexData
unfolding cas32
trylock m =
    let (won, word) = cas32 m.mutex 0 1 in
    if won == 0 then (fail, record m { mutex = word }) else (ok, record m { mutex = word })

-- `mutex_lock`: rounds of the waiting loop while no other process moves; `none` when they are used
-- up.
unfoldable pub spin_lock : ℕ → MutexData → Option MutexData
unfolding cas32
spin_lock zero m = none
spin_lock (suc fuel) m =
    let (won, word) = cas32 m.mutex 0 1 in
    let again = spin_lock fuel (record m { mutex = word }) in
    if won == 0 then again else some (record m { mutex = word })

-- `mutex_unlock`
unfoldable pub unlock : MutexData → MutexData
unlock m = record m { mutex = 0 }

-- Processes over one mutex; `holds i` says that process `i` is between a successful lock and its
-- unlock.
pub record System : Type 0 where
  pub shared : MutexData
  pub holds : ℕ → Bool

abbrev pub succeeded : Status → Bool
succeeded ok = true
succeeded fail = false

-- `attempt` is a call of `mutex_trylock`, and each round of the loop of `mutex_lock`, which makes the
-- same exchange. Only a process that holds the mutex unlocks it.
pub data Step (s : System) : System → Type 0 where
  attempt :
      (i : ℕ)
      → s.holds i ≡ false
      → Step s (record {
        shared = (trylock s.shared).1;
        holds = update s.holds i (succeeded (trylock s.shared).0);
      })
  release :
      (i : ℕ)
      → s.holds i ≡ true
      → Step s (record { shared = unlock s.shared; holds = update s.holds i false })

-- As `mutex_get` sets it up.
abbrev pub initial : System
initial = record { shared = record { mutex = 0 }; holds = λ _. false }

pub data Reach : System → Type 0 where
  start : Reach initial
  later : {s t : System} → Reach s → Step s t → Reach t
