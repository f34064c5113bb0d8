-- ===== src/Barrier.antt =====
-- src/barrier.c and include/barrier.h: a barrier for `numUser` processes. `barrier_wait` is a
-- step for each access to shared memory; the processes are interleaved in any order.
pub mod Invariant
pub mod Moves
pub mod Safety
pub mod Progress
use librtipc.Prelude.{ℕ, ◌+◌, ◌-◌, ◌^◌, ◌<◌, ◌≡◌, ◌≢◌, update, Option, none, some}
use librtipc.Atomic.{faa32}
use librtipc.Status.{Status, ok, fail}
use librtipc.Object.{Segments, World, get as get_object, obtain, release as release_object}

-- `barrier_data_t` after its fields `lock` and `init`, which are those of `Object.Shared`
pub record Shared : Type 0 where
  pub cnt : ℕ
  pub fallen : ℕ

-- `barrier_d_t`; `shm` is the address of the data, `none` for NULL.
pub record Descriptor : Type 0 where
  pub obj_id : ℕ
  pub shm : Option ℕ
  pub num_user : ℕ

unfoldable pub setup : Shared → Shared
setup m = record m { cnt = 0; fallen = 0 }

-- `barrier_get`; `sizeof(barrier_data_t)` is 16.
unfoldable pub get :
    (S : Segments)
    → ℕ
    → Descriptor
    → (obj_id num_user : ℕ) → World S Shared
    → Option (Status × Descriptor × World S Shared)
unfolding setup get_object obtain
get S fuel bd obj_id num_user w =
    let bd' : Descriptor = record bd { obj_id = obj_id; num_user = num_user } in
    obtain S bd' (λ a. record bd' { shm = some a }) (get_object S fuel setup 16 obj_id w)

-- `barrier_release`
unfoldable pub release :
    (S : Segments) → Descriptor → World S Shared → Status × Descriptor × World S Shared
unfolding release_object
release S bd w =
    let (s, w') = release_object S bd.obj_id w in
    elim s [ fail ↦ (fail, bd, w') | ok ↦ (ok, record bd { shm = none }, w') ]

-- Where a process stands in `barrier_wait`.
pub data Pc : Type 0 where
  outside : Pc
  entering : Pc  -- `while (bd->shm->fallen == 1)`
  arriving : Pc  -- before `atomic_faa32(&(bd->shm->cnt), 1)`
  waiting : Pc  -- before the test `bd->shm->cnt != bd->numUser`
  checking : Pc  -- that test has passed; before the test `bd->shm->fallen == 0`
  opening : Pc  -- before `bd->shm->fallen = 1`
  leaving : Pc  -- before `atomic_faa32(&(bd->shm->cnt), -1) == 1`
  closing : Pc  -- before `bd->shm->fallen = 0`

-- `rounds` counts the calls of `barrier_wait` that have passed the barrier.
pub record User : Type 0 where
  pub pc : Pc
  pub rounds : ℕ

-- -1 as a word of 32 bits
abbrev pub minus_one : ℕ
minus_one = 2 ^ 32 - 1

-- One step of one process; `num_user` is `bd->numUser`.
pub data Move (num_user : ℕ) (m : Shared) : User → Shared → User → Type 0 where
  call :
      {r : ℕ}
      → Move num_user m
          (record { pc = outside; rounds = r })
          m
          (record { pc = entering; rounds = r })
  still_fallen :
      {r : ℕ}
      → m.fallen ≡ 1
      → Move num_user m
          (record { pc = entering; rounds = r })
          m
          (record { pc = entering; rounds = r })
  enter :
      {r : ℕ}
      → m.fallen ≢ 1
      → Move num_user m
          (record { pc = entering; rounds = r })
          m
          (record { pc = arriving; rounds = r })
  arrive :
      {r : ℕ}
      → Move num_user m
          (record { pc = arriving; rounds = r })
          (record m { cnt = (faa32 m.cnt 1).1 })
          (record { pc = waiting; rounds = r })
  complete :
      {r : ℕ}
      → m.cnt ≡ num_user
      → Move num_user m
          (record { pc = waiting; rounds = r })
          m
          (record { pc = opening; rounds = r })
  incomplete :
      {r : ℕ}
      → m.cnt ≢ num_user
      → Move num_user m
          (record { pc = waiting; rounds = r })
          m
          (record { pc = checking; rounds = r })
  not_fallen :
      {r : ℕ}
      → m.fallen ≡ 0
      → Move num_user m
          (record { pc = checking; rounds = r })
          m
          (record { pc = waiting; rounds = r })
  has_fallen :
      {r : ℕ}
      → m.fallen ≢ 0
      → Move num_user m
          (record { pc = checking; rounds = r })
          m
          (record { pc = opening; rounds = r })
  open_barrier :
      {r : ℕ}
      → Move num_user m
          (record { pc = opening; rounds = r })
          (record m { fallen = 1 })
          (record { pc = leaving; rounds = r })
  leave :
      {r : ℕ}
      → (faa32 m.cnt minus_one).0 ≢ 1
      → Move num_user m
          (record { pc = leaving; rounds = r })
          (record m { cnt = (faa32 m.cnt minus_one).1 })
          (record { pc = outside; rounds = r + 1 })
  leave_last :
      {r : ℕ}
      → (faa32 m.cnt minus_one).0 ≡ 1
      → Move num_user m
          (record { pc = leaving; rounds = r })
          (record m { cnt = (faa32 m.cnt minus_one).1 })
          (record { pc = closing; rounds = r })
  close :
      {r : ℕ}
      → Move num_user m
          (record { pc = closing; rounds = r })
          (record m { fallen = 0 })
          (record { pc = outside; rounds = r + 1 })

pub record System : Type 0 where
  pub shared : Shared
  pub users : ℕ → User

-- Process `i` takes a step. Indices from `num_user` on name no process.
pub data Step (num_user : ℕ) (s : System) : System → Type 0 where
  pick :
      (i : ℕ) {m : Shared} {u : User}
      → i < num_user
      → Move num_user s.shared (s.users i) m u
      → Step num_user s (record { shared = m; users = update s.users i u })

-- As `barrier_get` sets it up, before any call.
abbrev pub initial : System
initial = record {
  shared = record { cnt = 0; fallen = 0 };
  users = λ _. record { pc = outside; rounds = 0 };
}

pub data Reach (num_user : ℕ) : System → Type 0 where
  start : Reach num_user initial
  later : {s t : System} → Reach num_user s → Step num_user s t → Reach num_user t
