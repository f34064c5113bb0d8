-- ===== src/Shmman/Attach.antt =====
-- `shmman_get_shmseg` and `shmman_release_shmseg` of system/linux/src/shmman.c.
use librtipc.Prelude.{ℕ, ◌+◌, ◌-◌, ◌%◌, ◌^◌, false, ◌==◌, if◌then◌else◌, Option, none, some, update}
use librtipc.Status.{Status, ok, fail}
use librtipc.Shmman.{Linux, Manager, create_shmseg}

module _ {L : Linux} where
  -- `shmman_get_shmseg` from line 359 on: one more user of the segment, and its address for this
  -- process
  unfoldable pub connect : (shmid v sv_ptr : ℕ) → Manager L → Manager L
  connect shmid v sv_ptr m =
      let t = m.tables in
      let a = m.attached v in
      let e = t.segs shmid in
      record m {
        attached = update m.attached v (record a { cnt = a.cnt + 1 });
        tables = record t { segs = update t.segs shmid (record e { cnt = (e.cnt + 1) % 2 ^ 32 }) };
        seg_ptr = update m.seg_ptr shmid (sv_ptr + e.offset);
      }

  -- The new entry for System V segment `v`, which this process did not use yet
  unfoldable pub attach_at : (shmid v id : ℕ) → Manager L → Option ℕ × L.Kernel → Status × Manager L
  unfolding connect
  attach_at shmid v id m (none, k) = (fail, record m { kernel = k })
  attach_at shmid v id m (some mem, k) = (
    ok,
    connect shmid v mem (record m {
      attached = update m.attached v (record { sysv_id = some id; ptr = mem; cnt = 0 });
      kernel = k;
    }),
  )

  unfoldable pub attach : (shmid v : ℕ) → Manager L → Option ℕ × L.Kernel → Status × Manager L
  unfolding attach_at
  attach shmid v m (none, k) = (fail, record m { kernel = k })
  attach shmid v m (some id, k) = attach_at shmid v id (record m { kernel = k }) (L.shmat id k)

  -- Is the System V segment attached?
  unfoldable pub connect_in : (shmid v : ℕ) → Manager L → Option ℕ → Status × Manager L
  unfolding attach connect
  connect_in shmid v m none =
      attach shmid v m (L.shmget (m.tables.sysvs v).sysv_key 0 false m.kernel)
  connect_in shmid v m (some id) = (ok, connect shmid v (m.attached v).ptr m)

  -- The end of `shmman_get_shmseg`: the address, if there is one
  unfoldable pub result : ℕ → Status × Manager L → Option ℕ × Manager L
  result shmid (ok, m) = (some (m.seg_ptr shmid), m)
  result shmid (fail, m) = (none, m)

  -- `shmman_get_shmseg` after the call of `shmman_create_shmseg`
  unfoldable pub get_created : ℕ → Status × Manager L → Option ℕ × Manager L
  unfolding result connect_in
  get_created shmid (fail, m) = (none, m)
  get_created shmid (ok, m) =
      let v = (m.tables.segs shmid).sysv_table_idx in
      result shmid
        (if m.seg_ptr shmid == 0 then connect_in shmid v m (m.attached v).sysv_id else (ok, m))

  unfoldable pub got : ℕ → Option (Status × Manager L) → Option (Option ℕ × Manager L)
  unfolding get_created
  got shmid none = none
  got shmid (some r) = some (get_created shmid r)

  -- `shmman_get_shmseg`
  unfoldable pub get_shmseg : ℕ → (shmid size : ℕ) → Manager L → Option (Option ℕ × Manager L)
  unfolding got create_shmseg
  get_shmseg fuel shmid size m = got shmid (create_shmseg fuel shmid size m)

  -- `shmman_release_shmseg`; `cnt` is a 32-bit int.
  unfoldable pub release_shmseg : ℕ → Manager L → Status × Manager L
  release_shmseg shmid m =
      let t = m.tables in
      let e = t.segs shmid in
      (
        ok,
        record m {
          seg_ptr = update m.seg_ptr shmid 0;
          tables = record t {
            segs = update t.segs shmid (record e { cnt = (e.cnt + (2 ^ 32 - 1)) % 2 ^ 32 });
          };
        },
      )
