-- ===== src/Object.antt =====
-- How every object of the library is created or joined, as the functions `X_get` of src/ do it: get
-- the shared memory segment, take the spin lock of the object, set its contents up if `init` is
-- still 0, and release the lock.
pub mod Once
pub mod Again
use librtipc.Prelude.{
  ℕ, zero, suc, ◌==◌, if◌then◌else◌, Option, none, some, ◌≡◌, ◌≢◌, update, arith,
}
use librtipc.Atomic.{cas32}
use librtipc.Status.{Status, ok, fail}

-- What a client needs of the shared memory manager of include/shmman.h: `get_shmseg fuel id size` gives
-- the address of segment `id`, or fails, or does not return within the fuel for its own lock. The manager
-- of system/linux/src/shmman.c is `Shmman.Serving.segments`.
pub record Segments : Type 1 where
  pub Manager : Type 0
  pub get_shmseg : ℕ → ℕ → ℕ → Manager → Option (Option ℕ × Manager)
  pub release_shmseg : ℕ → Manager → Status × Manager
  -- A segment that is attached, at an address other than NULL, is found again, and nothing changes.
  pub get-get :
      (fuel fuel' id size size' a : ℕ) (m m' : Manager)
      → get_shmseg fuel id size m ≡ some (some a, m')
      → a ≢ 0
      → get_shmseg (suc fuel') id size' m' ≡ some (some a, m')

-- The fields `lock` and `init` with which the data of every object begin, and the rest.
pub record Shared (B : Type 0) : Type 0 where
  pub lock : ℕ
  pub init : ℕ
  pub body : B

module _ {B : Type 0} where
  -- `while (!atomic_cas32(&lock, 0, 1)) hwfunctions_nop();` while no other process moves
  unfoldable pub take_lock : ℕ → Shared B → Option (Shared B)
  unfolding cas32
  take_lock zero d = none
  take_lock (suc fuel) d =
      let (won, word) = cas32 d.lock 0 1 in
      let again = take_lock fuel (record d { lock = word }) in
      if won == 0 then again else some (record d { lock = word })

  -- `if (init == 0) { …; init = 1; }`
  unfoldable pub init_once : (B → B) → Shared B → Shared B
  init_once setup d = if d.init == 0 then record d { body = setup d.body; init = 1 } else d

  -- The lock, the set-up and the release of the lock.
  unfoldable pub join : ℕ → (B → B) → Shared B → Option (Shared B)
  unfolding take_lock init_once
  join fuel setup d = elim (take_lock fuel d) [
    | none ↦ none
    | some d' ↦ some (record (init_once setup d') { lock = 0 })
  ]

  -- A free lock is taken in the first round; the contents are set up unless they were before.
  pub join-free :
      (fuel : ℕ) (setup : B → B) (d : Shared B)
      → d.lock ≡ 0
      → join (suc fuel) setup d ≡ some (record (init_once setup d) { lock = 0 })
  unfolding join
  join-free fuel setup d e = ground arith

-- The state that a call of `X_get` works on: the manager, and the objects at their addresses.
pub record World (S : Segments) (B : Type 0) : Type 0 where
  pub manager : S.Manager
  pub objects : ℕ → Shared B

module _ (S : Segments) {B : Type 0} where
  -- What follows once the manager has answered: `-1` at once, or the lock and the set-up.
  unfoldable pub located :
      ℕ → (B → B) → World S B → Option (Option ℕ × S.Manager) → Option (Option ℕ × World S B)
  located fuel setup w none = none
  located fuel setup w (some (none, m)) = some (none, record w { manager = m })
  located fuel setup w (some (some a, m)) = elim (join fuel setup (w.objects a)) [
    | none ↦ none
    | some d ↦ some (some a, record { manager = m; objects = update w.objects a d })
  ]

  -- `X_get` with the size that it asks for and the set-up that it does; the result is the address
  -- that goes into the descriptor. `none`: the fuel for one of the two spin locks is used up.
  unfoldable pub get :
      ℕ → (B → B) → (size : ℕ) → (id : ℕ) → World S B → Option (Option ℕ × World S B)
  unfolding located join
  get fuel setup size id w = located fuel setup w (S.get_shmseg fuel id size w.manager)

  -- `X_release`
  unfoldable pub release : ℕ → World S B → Status × World S B
  release id w = let (s, m) = S.release_shmseg id w.manager in (s, record w { manager = m })

  -- The result of `X_get`, and its descriptor: `d` if no segment was found, `at a` with the address.
  unfoldable pub obtain :
      {D : Type 0} → D → (ℕ → D) → Option (Option ℕ × World S B) → Option (Status × D × World S B)
  obtain d at none = none
  obtain d at (some (none, w)) = some (fail, d, w)
  obtain d at (some (some a, w)) = some (ok, at a, w)
