-- ===== src/Shmman/Creation.antt =====
-- What `shmman_create_shmseg` of system/linux/src/shmman.c comes to.
use librtipc.Prelude.{
  ℕ, zero, suc, ◌≡◌, ◌≢◌, inl, inr, refl, arith, ◌==◌, leb, Option, none, some, Bool-cases, true,
}
use librtipc.Status.{Status, ok, fail}
use librtipc.Atomic.Cas.{cas32-win, cas32-lose}
use librtipc.Shmman.{
  Linux, Manager, take_lock, sysv_size, add_segment, add_sysv, grow, grow_at, place, create_locked,
  create_sysv_key, max_shmseg, max_svshmseg,
}
use librtipc.Shmman.Layout.{Inv}

module _ {L : Linux} where
  abbrev pub locked : Manager L → Manager L
  locked m = record m { tables = record m.tables { lock = 1 } }

  -- A free lock is taken at once; one that is not free is never.
  pub take_lock-free :
      (fuel : ℕ) (m : Manager L) → m.tables.lock ≡ 0 → take_lock (suc fuel) m ≡ some (locked m)
  unfolding take_lock
  take_lock-free fuel m e = rw (cas32-win m.tables.lock 0 1 e) refl

  pub take_lock-taken : (fuel : ℕ) (m : Manager L) → m.tables.lock ≢ 0 → take_lock fuel m ≡ none
  unfolding take_lock
  take_lock-taken zero m h = refl
  take_lock-taken (suc fuel) m h = rw (cas32-lose m.tables.lock 0 1 h) (take_lock-taken fuel m h)

  -- The segment is there, and the lock is free.
  pub record Ready (shmid : ℕ) (m : Manager L) : Type 0 where
    pub exists : (m.tables.segs shmid).init ≡ 1
    pub free : m.tables.lock ≡ 0

  -- What a call that succeeds has made
  abbrev pub Done : ℕ → Status × Manager L → Type 0
  Done shmid (ok, m) = Ready shmid m
  Done shmid (fail, m) = Unit

  add_segment-Ready : (shmid n v : ℕ) (m : Manager L) → Ready shmid (add_segment shmid n v m)
  unfolding add_segment
  add_segment-Ready shmid n v m = record { exists = ground arith; free = refl }

  grow_at-Done :
      (shmid n key id : ℕ) (m : Manager L) (r : Option ℕ × L.Kernel)
      → Done shmid (grow_at shmid n key id m r)
  unfolding grow_at
  grow_at-Done shmid n key id m (none, k) = tt
  grow_at-Done shmid n key id m (some mem, k) =
      add_segment-Ready shmid n m.tables.sysv_seg_cnt
        (add_sysv key (sysv_size L.pagesize n) id mem (record m { kernel = k }))

  grow-Done :
      (shmid n key : ℕ) (m : Manager L) (r : Option ℕ × L.Kernel)
      → Done shmid (grow shmid n key m r)
  unfolding grow
  grow-Done shmid n key m (none, k) = tt
  grow-Done shmid n key m (some id, k) =
      grow_at-Done shmid n key id (record m { kernel = k }) (L.shmat id k)

  place-Done : (shmid n : ℕ) (m : Manager L) (f : Option ℕ) → Done shmid (place shmid n m f)
  unfolding place
  place-Done shmid n m (some v) = add_segment-Ready shmid n v m
  place-Done shmid n m none = elim (Bool-cases (leb max_svshmseg m.tables.sysv_seg_cnt)) [
    | inl full ↦ rw full tt
    | inr space ↦ rw space (
        grow-Done shmid n (create_sysv_key m).0 (create_sysv_key m).1
          (L.shmget (create_sysv_key m).0 (sysv_size L.pagesize n) true m.kernel))
  ]

  -- `shmman_create_shmseg` succeeds only if the segment then exists and the lock is free.
  pub create_locked-Done : (shmid n : ℕ) (m : Manager L) → Done shmid (create_locked shmid n m)
  unfolding create_locked
  create_locked-Done shmid n m = elim (Bool-cases ((m.tables.segs shmid).init == 1)) [
    | inl is ↦ rw is (record { exists = ground arith; free = refl })
    | inr isnt ↦ elim (Bool-cases (leb max_shmseg m.tables.shmseg_cnt)) [
      | inl full ↦ rw (isnt, full) tt
      | inr space ↦ rw (isnt, space) (place-Done shmid n m _)
    ]
  ]

  pub locked-Inv : (m : Manager L) → Inv m.tables → Inv (locked m).tables
  locked-Inv m h = record {
    room = h.room;
    small = h.small;
    room_aligned = h.room_aligned;
    unused = h.unused;
    home = h.home;
    inside = h.inside;
    aligned = h.aligned;
    apart = h.apart;
  }
