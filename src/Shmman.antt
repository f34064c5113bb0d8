-- ===== src/Shmman.antt =====
-- system/linux/src/shmman.c and include/shmman.h: the table of shared memory segments that all
-- processes share, and the System V segments that their memory is cut from. The calls of Linux are
-- parameters. `none` is the System V id -1, and 0 is the pointer NULL.
pub mod Attach
pub mod Startup
pub mod Layout
pub mod Creation
pub mod Outcome
pub mod Lookup
pub mod Serving
pub mod Addresses
pub mod Apart
pub mod Refused
pub mod Fresh
use librtipc.Prelude.{
  ℕ, zero, suc, ◌+◌, ◌-◌, ◌*◌, ◌/◌, ◌%◌, ◌^◌, Bool, true, false, ◌==◌, leb, ltb, ◌&&◌, ◌||◌,
  if◌then◌else◌, Option, none, some, update,
}
use librtipc.Status.{Status, ok, fail}
use librtipc.Atomic.{cas32, faa32}

-- What the manager calls: `shmget` (with or without `IPC_CREAT|0600`), `shmat`, `shmdt`, `shmctl`
-- with `IPC_RMID`, `ftok("/tmp", …)` and `getpagesize`.
pub record Linux : Type 1 where
  pub Kernel : Type 0
  pub shmget : (key size : ℕ) → Bool → Kernel → Option ℕ × Kernel
  pub shmat : ℕ → Kernel → Option ℕ × Kernel
  pub shmdt : ℕ → Kernel → Status × Kernel
  pub shmctl_rmid : ℕ → Kernel → Status × Kernel
  pub ftok : ℕ → ℕ
  pub pagesize : ℕ

-- `shared_sysVshmseg_table_entry_t`
pub record SysvEntry : Type 0 where
  pub sysv_key : ℕ
  pub size : ℕ
  pub offset : ℕ

-- `shared_shmseg_table_entry_t`
pub record SegEntry : Type 0 where
  pub init : ℕ
  pub sysv_table_idx : ℕ
  pub offset : ℕ
  pub size : ℕ
  pub cnt : ℕ

-- `local_sysVshmseg_table_entry_t`
pub record LocalEntry : Type 0 where
  pub sysv_id : Option ℕ
  pub ptr : ℕ
  pub cnt : ℕ

-- The shared data, behind the pointers `shared_lock` to `shared_shmseg_table`
pub record Tables : Type 0 where
  pub lock : ℕ
  pub initflag : ℕ
  pub sysv_seg_cnt : ℕ
  pub shmseg_cnt : ℕ
  pub key_cnt : ℕ
  pub sysvs : ℕ → SysvEntry
  pub segs : ℕ → SegEntry

-- The shared data, what a process keeps for itself (`local_sysVshmseg_table`, `local_shmseg_table`,
-- `shmman_sysVkey`, `shmman_sysVid`, `shmman_shmaddr`), the words of its memory, and Linux.
pub record Manager (L : Linux) : Type 0 where
  pub tables : Tables
  pub attached : ℕ → LocalEntry
  pub seg_ptr : ℕ → ℕ
  pub own_key : ℕ
  pub own_id : ℕ
  pub own_addr : ℕ
  pub words : ℕ → ℕ
  pub kernel : L.Kernel

-- `MAX_SVSHMSEG`, `MAX_SHMSEG` and `MIN_SVSHMSEGSIZE`
abbrev pub max_svshmseg : ℕ
max_svshmseg = 25

abbrev pub max_shmseg : ℕ
max_shmseg = 1000

abbrev pub min_svshmsegsize : ℕ
min_svshmsegsize = 4

-- The size that a segment gets. The sizes are those of no overflow of `int`.
unfoldable pub aligned_size : ℕ → ℕ
aligned_size size = size + (8 - size % 8)

-- The size of a new System V segment
unfoldable pub sysv_size : (pagesize shm_size : ℕ) → ℕ
sysv_size pagesize shm_size =
    let numpages = shm_size / pagesize + 1 in
    (if ltb numpages min_svshmsegsize then min_svshmsegsize else numpages) * pagesize

-- The search for a System V segment with room, from index `i`; `size` and `offset` are unsigned ints.
unfoldable pub find_room : (rounds i : ℕ) → ℕ → (ℕ → SysvEntry) → Option ℕ
find_room zero i shm_size sysvs = none
find_room (suc rounds) i shm_size sysvs =
    let rest = find_room rounds (i + 1) shm_size sysvs in
    if (if (sysvs i).sysv_key == 0 then false else true)
      && leb shm_size (((sysvs i).size + 2 ^ 32 - (sysvs i).offset) % 2 ^ 32)
    then some i
    else rest

-- The new entry of the segment table, in System V segment `v` with entry `e`
abbrev pub new_entry : (v : ℕ) → SysvEntry → (shm_size : ℕ) → SegEntry
new_entry v e shm_size = record {
  init = 1;
  sysv_table_idx = v;
  offset = e.offset;
  size = shm_size;
  cnt = 0;
}

module _ {L : Linux} where
  -- `while (!atomic_cas32(shared_lock, 0, 1)) hwfunctions_nop();` while no other process moves
  unfoldable pub take_lock : ℕ → Manager L → Option (Manager L)
  unfolding cas32
  take_lock zero m = none
  take_lock (suc fuel) m =
      let (won, word) = cas32 m.tables.lock 0 1 in
      let m' : Manager L = record m { tables = record m.tables { lock = word } } in
      let again = take_lock fuel m' in if won == 0 then again else some m'

  -- `*shared_lock = 0`
  abbrev pub unlock : Manager L → Manager L
  unlock m = record m { tables = record m.tables { lock = 0 } }

  -- `shmman_create_shmseg` from the new entry of the segment table on
  unfoldable pub add_segment : (shmid shm_size v : ℕ) → Manager L → Manager L
  add_segment shmid shm_size v m =
      let t = m.tables in
      let e = t.sysvs v in
      let ptr = (m.attached v).ptr + e.offset in
      record m {
        words = update (update m.words ptr 0) (ptr + 4) 0;
        tables = record t {
          segs = update t.segs shmid (new_entry v e shm_size);
          sysvs = update t.sysvs v (record e { offset = e.offset + shm_size });
          shmseg_cnt = t.shmseg_cnt + 1;
          lock = 0;
        };
      }

  -- The new entries for a System V segment that is attached at `mem`
  unfoldable pub add_sysv : (key size id mem : ℕ) → Manager L → Manager L
  add_sysv key size id mem m =
      let t = m.tables in
      let v = t.sysv_seg_cnt in
      record m {
        tables = record t {
          sysvs = update t.sysvs v (record { sysv_key = key; size = size; offset = 0 });
          sysv_seg_cnt = v + 1;
        };
        attached = update m.attached v (record { sysv_id = some id; ptr = mem; cnt = 0 });
      }

  -- What `shmman_create_shmseg` does with the answers of `shmat` and of `shmget`. The lock stays taken
  -- if they fail.
  unfoldable pub grow_at :
      (shmid shm_size key id : ℕ) → Manager L → Option ℕ × L.Kernel → Status × Manager L
  unfolding add_segment add_sysv
  grow_at shmid shm_size key id m (none, k) = (fail, record m { kernel = k })
  grow_at shmid shm_size key id m (some mem, k) = (
    ok,
    add_segment shmid shm_size m.tables.sysv_seg_cnt
        (add_sysv key (sysv_size L.pagesize shm_size) id mem (record m { kernel = k })),
  )

  unfoldable pub grow :
      (shmid shm_size key : ℕ) → Manager L → Option ℕ × L.Kernel → Status × Manager L
  unfolding grow_at
  grow shmid shm_size key m (none, k) = (fail, record m { kernel = k })
  grow shmid shm_size key m (some id, k) =
      grow_at shmid shm_size key id (record m { kernel = k }) (L.shmat id k)

  -- `createSysVKey`
  unfoldable pub create_sysv_key : Manager L → ℕ × Manager L
  unfolding faa32
  create_sysv_key m =
      let (cnt, next) = faa32 m.tables.key_cnt 1 in
      (L.ftok cnt, record m { tables = record m.tables { key_cnt = next } })

  -- The two branches after the search for room
  unfoldable pub place : (shmid shm_size : ℕ) → Manager L → Option ℕ → Status × Manager L
  unfolding grow create_sysv_key
  place shmid shm_size m (some v) = (ok, add_segment shmid shm_size v m)
  place shmid shm_size m none =
      let (key, m') = create_sysv_key m in
      if leb max_svshmseg m.tables.sysv_seg_cnt
      then (fail, unlock m)
      else grow shmid shm_size key m' (L.shmget key (sysv_size L.pagesize shm_size) true m.kernel)

  -- `shmman_create_shmseg` while it holds the lock
  unfoldable pub create_locked : (shmid shm_size : ℕ) → Manager L → Status × Manager L
  unfolding place find_room
  create_locked shmid shm_size m =
      if (m.tables.segs shmid).init == 1
      then (ok, unlock m)
      else if leb max_shmseg m.tables.shmseg_cnt
      then (fail, unlock m)
      else place shmid shm_size m (find_room max_svshmseg 0 shm_size m.tables.sysvs)

  -- `shmman_create_shmseg` after the loop that takes the lock
  unfoldable pub created : (shmid shm_size : ℕ) → Option (Manager L) → Option (Status × Manager L)
  unfolding create_locked
  created shmid shm_size none = none
  created shmid shm_size (some m) = some (create_locked shmid shm_size m)

  -- `shmman_create_shmseg`; `none`: the fuel for the spin lock is used up.
  unfoldable pub create_shmseg : ℕ → (shmid size : ℕ) → Manager L → Option (Status × Manager L)
  unfolding take_lock created
  create_shmseg fuel shmid size m = created shmid (aligned_size size) (take_lock fuel m)
