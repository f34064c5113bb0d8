-- ===== src/Shmman/Startup.antt =====
-- `shmman_create_handle`, `shmman_initialize`, `shmman_disconnect` and `shmman_finalize` of
-- system/linux/src/shmman.c, and src/rtipc.c, which passes the calls on.
use librtipc.Prelude.{
  ℕ, zero, suc, ◌+◌, ◌*◌, true, false, ◌==◌, if◌then◌else◌, Option, none, some, update,
}
use librtipc.Status.{Status, ok, fail}
use librtipc.Shmman.{
  Linux, SysvEntry, SegEntry, LocalEntry, Tables, Manager, take_lock, max_shmseg, max_svshmseg,
}

-- The loops that clear the tables, from index `i` on
unfoldable pub clear_segs : (rounds i : ℕ) → (ℕ → SegEntry) → ℕ → SegEntry
clear_segs zero i segs = segs
clear_segs (suc k) i segs = clear_segs k (i + 1) (update segs i (record (segs i) { init = 0 }))

unfoldable pub clear_attached : (rounds i : ℕ) → (ℕ → LocalEntry) → ℕ → LocalEntry
clear_attached zero i table = table
clear_attached (suc k) i table =
    clear_attached k (i + 1) (update table i (record (table i) { sysv_id = none; cnt = 0 }))

unfoldable pub clear_ptrs : (rounds i : ℕ) → (ℕ → ℕ) → ℕ → ℕ
clear_ptrs zero i ptrs = ptrs
clear_ptrs (suc k) i ptrs = clear_ptrs k (i + 1) (update ptrs i 0)

-- The shared part of `shmman_initialize`
unfoldable pub init_tables : Tables → Tables
unfolding clear_segs
init_tables t =
    if t.initflag == 0
    then record t {
      sysv_seg_cnt = 0;
      shmseg_cnt = 0;
      key_cnt = 1;
      segs = clear_segs max_shmseg 0 t.segs;
      initflag = 1;
    }
    else t

module _ {L : Linux} where
  -- The shared part under the lock, and the tables of the process, at the address that `shmat` gave.
  -- `tables` is the shared data that stands there; `malloc` gives memory with contents of its own.
  unfoldable pub initialize_at : ℕ → (key id mem : ℕ) → Manager L → Option (Status × Manager L)
  unfolding take_lock init_tables clear_attached clear_ptrs
  initialize_at fuel key id mem m = elim (take_lock fuel m) [
    | none ↦ none
    | some m' ↦ some (
      ok,
      record m' {
        tables = record (init_tables m'.tables) { lock = 0 };
        own_addr = mem;
        own_key = key;
        own_id = id;
        attached = clear_attached max_svshmseg 0 m'.attached;
        seg_ptr = clear_ptrs max_shmseg 0 m'.seg_ptr;
      },
    )
  ]

  unfoldable pub initialize_in :
      ℕ → (key id : ℕ) → Manager L → Option ℕ × L.Kernel → Option (Status × Manager L)
  unfolding initialize_at
  initialize_in fuel key id m (none, k) = some (fail, record m { kernel = k })
  initialize_in fuel key id m (some mem, k) =
      initialize_at fuel key id mem (record m { kernel = k })

  unfoldable pub initialize_from :
      ℕ → ℕ → Manager L → Option ℕ × L.Kernel → Option (Status × Manager L)
  unfolding initialize_in
  initialize_from fuel key m (none, k) = some (fail, record m { kernel = k })
  initialize_from fuel key m (some id, k) =
      initialize_in fuel key id (record m { kernel = k }) (L.shmat id k)

  -- `shmman_initialize`; an entry of the two shared tables is 12 and 20 bytes.
  unfoldable pub initialize : ℕ → ℕ → Manager L → Option (Status × Manager L)
  unfolding initialize_from
  initialize fuel handle m =
      initialize_from fuel handle m
        (L.shmget handle (5 * 4 + max_svshmseg * 12 + max_shmseg * 20) true m.kernel)

  -- One round of the loop of `shmman_disconnect`, for an entry in use, after `shmdt`
  unfoldable pub detached : ℕ → Manager L → Status × L.Kernel → Status × Manager L
  detached i m (fail, k) = (fail, record m { kernel = k })
  detached i m (ok, k) = (
    ok,
    record m {
      attached = update m.attached i (record { sysv_id = none; ptr = 0; cnt = 0 });
      kernel = k;
    },
  )

  unfoldable pub detach : ℕ → Manager L → Option ℕ → Status × Manager L
  unfolding detached
  detach i m none = (ok, m)
  detach i m (some id) = detached i m (L.shmdt (m.attached i).ptr m.kernel)

  -- The loop of `shmman_disconnect` from index `i` on
  unfoldable pub detach_all : (rounds i : ℕ) → Manager L → Status × Manager L
  unfolding detach
  detach_all zero i m = (ok, m)
  detach_all (suc k) i m =
      let (s, m') = detach i m (m.attached i).sysv_id in
      let rest = detach_all k (i + 1) m' in elim s [ ok ↦ rest | fail ↦ (fail, m') ]

  -- `shmman_disconnect`; the two tables are then freed.
  unfoldable pub disconnect : Manager L → Status × Manager L
  unfolding detach_all
  disconnect m = detach_all m.tables.sysv_seg_cnt 0 m

module _ (L : Linux) where
  -- The calls of Linux in a round of the loop of `shmman_finalize`, each after the one before
  unfoldable pub delete_id : ℕ → Status × L.Kernel → Status × L.Kernel
  delete_id id (fail, k) = (fail, k)
  delete_id id (ok, k) = L.shmctl_rmid id k

  unfoldable pub delete_at : ℕ → Option ℕ × L.Kernel → Status × L.Kernel
  unfolding delete_id
  delete_at id (none, k) = (fail, k)
  delete_at id (some mem, k) = delete_id id (L.shmdt mem k)

  unfoldable pub delete_sysv : Option ℕ × L.Kernel → Status × L.Kernel
  unfolding delete_at
  delete_sysv (none, k) = (fail, k)
  delete_sysv (some id, k) = delete_at id (L.shmat id k)

  -- The loop of `shmman_finalize` from index `i` on
  unfoldable pub delete_all : (rounds i : ℕ) → (ℕ → SysvEntry) → L.Kernel → Status × L.Kernel
  unfolding delete_sysv
  delete_all zero i sysvs k = (ok, k)
  delete_all (suc n) i sysvs k =
      let (s, k') = delete_sysv (L.shmget (sysvs i).sysv_key 0 false k) in
      let rest = delete_all n (i + 1) sysvs k' in elim s [ ok ↦ rest | fail ↦ (fail, k') ]

  -- `shmman_create_handle` and `rtipc_create_handle`
  unfoldable pub create_handle : ℕ
  create_handle = L.ftok 0

module _ {L : Linux} where
  -- `shmman_finalize`. The pointers `shared_lock` and `shared_initflag` become NULL; the words that
  -- they pointed to stay as they are.
  unfoldable pub finalize : Manager L → Status × Manager L
  unfolding delete_all delete_id
  finalize m =
      let (s, k) = delete_all L m.tables.sysv_seg_cnt 0 m.tables.sysvs m.kernel in
      let (s', k') = delete_id L m.own_id (L.shmdt m.own_addr k) in
      elim s [ fail ↦ (fail, record m { kernel = k }) | ok ↦ (s', record m { kernel = k' }) ]

  -- `rtipc_finalize`
  unfoldable pub rtipc_finalize : Manager L → Status × Manager L
  unfolding finalize
  rtipc_finalize m = let (s, m') = finalize m in elim s [ ok ↦ (ok, m') | fail ↦ (fail, m') ]

  -- `rtipc_initialize`
  unfoldable pub rtipc_initialize : ℕ → ℕ → Manager L → Option (Status × Manager L)
  unfolding initialize
  rtipc_initialize fuel handle m = initialize fuel handle m
