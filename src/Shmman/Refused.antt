-- ===== src/Shmman/Refused.antt =====
-- What becomes of the lock of system/linux/src/shmman.c when Linux refuses a segment.
use librtipc.Prelude.{
  ℕ, suc, ◌<◌, ◌≡◌, ◌≢◌, refl, ap, ◌∙◌, arith, leb, none, some, true, false, ==_of_ne,
}
use librtipc.Status.{fail}
use librtipc.Shmman.{
  Linux, Manager, aligned_size, sysv_size, find_room, grow, place, create_locked, created,
  create_shmseg, create_sysv_key, max_shmseg, max_svshmseg,
}
use librtipc.Shmman.Creation.{locked, take_lock-free, take_lock-taken}

leb_of_lt : (a b : ℕ) → b < a → leb a b ≡ false
leb_of_lt a b h = ground arith

module _ {L : Linux} where
  -- A taken lock stays taken: `shmman_create_shmseg` never returns, however long it tries.
  pub create_shmseg-taken :
      (fuel shmid size : ℕ) (m : Manager L)
      → m.tables.lock ≢ 0
      → create_shmseg fuel shmid size m ≡ none
  unfolding create_shmseg created
  create_shmseg-taken fuel shmid size m h =
      ap (created shmid (aligned_size size)) (take_lock-taken fuel m h)

  create_locked-refused :
      (shmid n : ℕ) (m : Manager L) {k : L.Kernel}
      → (m.tables.segs shmid).init ≡ 0
      → m.tables.shmseg_cnt < max_shmseg
      → m.tables.sysv_seg_cnt < max_svshmseg
      → find_room max_svshmseg 0 n m.tables.sysvs ≡ none
      → L.shmget (create_sysv_key m).0 (sysv_size L.pagesize n) true m.kernel ≡ (none, k)
      → create_locked shmid n (locked m)
        ≡ (fail, record (create_sysv_key (locked m)).1 { kernel = k })
  unfolding create_locked place grow create_sysv_key
  create_locked-refused shmid n m {k} new few few' room refused =
      rw
        (
          ==_of_ne (m.tables.segs shmid).init 1 (λ e. absurd (omega (arith, new, e))),
          leb_of_lt max_shmseg m.tables.shmseg_cnt few,
          room,
          leb_of_lt max_svshmseg m.tables.sysv_seg_cnt few',
          refused,
        )
        refl

  -- If the lock is free, the segment is new, neither table is full and no System V segment has
  -- room, and if Linux then refuses a new one, `shmman_create_shmseg` returns -1 and keeps the
  -- lock: no later call of it, for any segment, returns.
  pub create_shmseg-refused :
      (fuel shmid size : ℕ) (m : Manager L) {k : L.Kernel}
      → m.tables.lock ≡ 0
      → (m.tables.segs shmid).init ≡ 0
      → m.tables.shmseg_cnt < max_shmseg
      → m.tables.sysv_seg_cnt < max_svshmseg
      → find_room max_svshmseg 0 (aligned_size size) m.tables.sysvs ≡ none
      → L.shmget (create_sysv_key m).0 (sysv_size L.pagesize (aligned_size size)) true m.kernel
        ≡ (none, k)
      → (m' : Manager L) × (create_shmseg (suc fuel) shmid size m ≡ some (fail, m'))
        × ((fuel' shmid' size' : ℕ) → create_shmseg fuel' shmid' size' m' ≡ none)
  create_shmseg-refused fuel shmid size m {k} free new few few' room refused = (
    record key_taken { kernel = k },
    unfold create_shmseg created in
        (ap (created shmid (aligned_size size)) (take_lock-free fuel m free)
          ∙ ap some (create_locked-refused shmid (aligned_size size) m new few few' room refused)),
    λ fuel' shmid' size'.
        create_shmseg-taken fuel' shmid' size' (record key_taken { kernel = k })
          (unfold create_sysv_key in ground (arith, free)),
  )
    where
      key_taken : Manager L
      key_taken = (create_sysv_key (locked m)).1
