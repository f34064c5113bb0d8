-- ===== src/Shmman/Outcome.antt =====
-- What `shmman_create_shmseg` of system/linux/src/shmman.c comes to, with a free lock.
use librtipc.Prelude.{ℕ, ◌+◌, ◌≤◌, ◌≡◌, ◌≢◌, ◌⊎◌, Option, none, some, true}
use librtipc.Status.{Status, ok, fail}
use librtipc.Shmman.{
  Linux, Manager, aligned_size, sysv_size, find_room, create_shmseg, create_sysv_key, max_shmseg,
  max_svshmseg,
}
use librtipc.Shmman.Layout.{Inv}

-- Linux refuses the System V segment, or to attach it.
abbrev pub IsRefused : (L : Linux) → Option ℕ × L.Kernel → Type 0
IsRefused L (none, k) = Unit {0}
IsRefused L (some id, k) = (L.shmat id k).0 ≡ none

module _ {L : Linux} where
  -- A new segment of `n` bytes: it lies in a System V segment that the process has attached, its two first
  -- words, which are the lock and the mark of the object that it is for, are 0, and the lock is free.
  pub record New (shmid n : ℕ) (m : Manager L) : Type 0 where
    pub exists : (m.tables.segs shmid).init ≡ 1
    pub free : m.tables.lock ≡ 0
    pub size : (m.tables.segs shmid).size ≡ n
    pub in_use : (m.attached (m.tables.segs shmid).sysv_table_idx).sysv_id ≢ none
    pub lock_word :
        m.words
          ((m.attached (m.tables.segs shmid).sysv_table_idx).ptr + (m.tables.segs shmid).offset)
        ≡ 0
    pub init_word :
        m.words
          ((m.attached (m.tables.segs shmid).sysv_table_idx).ptr + (m.tables.segs shmid).offset + 4)
        ≡ 0

  -- What keeps `shmman_create_shmseg` from making a segment of `n` bytes: the table of segments is full, or
  -- no System V segment has room and their table is full or Linux refuses one more.
  abbrev pub NoSpace : ℕ → Manager L → Type 0
  NoSpace n m =
      (max_shmseg ≤ m.tables.shmseg_cnt)
      ⊎ ((find_room max_svshmseg 0 n m.tables.sysvs ≡ none)
          × ((max_svshmseg ≤ m.tables.sysv_seg_cnt)
              ⊎ IsRefused L
                  (L.shmget (create_sysv_key m).0 (sysv_size L.pagesize n) true m.kernel)))

  -- The result, by what was there before
  abbrev pub Outcome : ℕ → ℕ → Manager L → Status × Manager L → Type 0
  Outcome shmid n m (ok, m') =
      (((m.tables.segs shmid).init ≡ 1) × (m' ≡ record m { tables = record m.tables { lock = 0 } }))
      ⊎ (((m.tables.segs shmid).init ≢ 1) × New shmid n m')
  Outcome shmid n m (fail, m') = ((m.tables.segs shmid).init ≢ 1) × NoSpace n m

  -- What the answers of Linux lead to
  abbrev Made : ℕ → ℕ → Option ℕ × L.Kernel → Status × Manager L → Type 0
  Made shmid n r (ok, m') = New shmid n m'
  Made shmid n r (fail, m') = IsRefused L r

  -- What `shmman_create_shmseg` comes to.
  pub record Created (fuel shmid size : ℕ) (m : Manager L) : Type 0 where
    pub status : Status
    pub next : Manager L
    pub returns : create_shmseg fuel shmid size m ≡ some (status, next)
    pub inv : Inv next.tables
    pub outcome : Outcome shmid (aligned_size size) m (status, next)
