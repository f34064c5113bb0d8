-- ===== src/Shmman/Addresses.antt =====
-- Where the segments of system/linux/src/shmman.c lie in the memory of a process.
use librtipc.Prelude.{
  ℕ, Bool, true, false, if◌then◌else◌, ◌+◌, ◌<◌, ◌≡◌, ◌≢◌, inl, inr, refl, arith, ◌==◌, leb, Option,
  none, some, Bool-cases, ℕ_discrete, update,
}
use librtipc.Status.{Status, ok, fail}
use librtipc.Shmman.{
  Linux, Manager, SegEntry, LocalEntry, sysv_size, add_segment, add_sysv, grow, grow_at, place,
  create_locked, create_sysv_key, max_shmseg, max_svshmseg,
}
use librtipc.Shmman.Attach.{connect, attach_at, attach, connect_in, result, get_created}
use librtipc.Shmman.Creation.{Done}

-- The address that the process has for segment `k` is that of its System V segment, which it has
-- attached, and the offset.
pub record PlacedAt (segs : ℕ → SegEntry) (attached : ℕ → LocalEntry) (address k : ℕ) : Type 0 where
  pub exists : (segs k).init ≡ 1
  pub in_use : (attached (segs k).sysv_table_idx).sysv_id ≢ none
  pub is : address ≡ (attached (segs k).sysv_table_idx).ptr + (segs k).offset

module _ {L : Linux} where
  abbrev pub Placed : Manager L → Type 0
  Placed m = (k : ℕ) → m.seg_ptr k ≢ 0 → PlacedAt m.tables.segs m.attached (m.seg_ptr k) k

  -- Every segment is in a System V segment of the table.
  abbrev pub Housed : Manager L → Type 0
  Housed m =
      (k : ℕ)
      → (m.tables.segs k).init ≡ 1
      → (m.tables.segs k).sysv_table_idx < m.tables.sysv_seg_cnt

  -- A new segment is none of those that have an address.
  add_segment-Placed :
      (shmid n v : ℕ) (m : Manager L)
      → (m.tables.segs shmid).init ≢ 1
      → Placed m
      → Placed (add_segment shmid n v m)
  unfolding add_segment
  add_segment-Placed shmid n v m new h k ne =
      let p = h k ne in
      let other : k ≢ shmid = λ e. ground (arith, p.exists) in
      record {
        exists = ground (arith, p.exists);
        in_use = ground (arith, p.in_use);
        is = ground (arith, p.is);
      }

  add_sysv-Placed :
      (key size id mem : ℕ) (m : Manager L)
      → Housed m
      → Placed m
      → Placed (add_sysv key size id mem m)
  unfolding add_sysv
  add_sysv-Placed key size id mem m i h k ne =
      let p = h k ne in
      let below = i k p.exists in
      record { exists = p.exists; in_use = ground (arith, p.in_use); is = ground (arith, p.is) }

  module _ (shmid n : ℕ) where
    grow_at-Placed :
        (key id : ℕ) (m : Manager L) (r : Option ℕ × L.Kernel)
        → (m.tables.segs shmid).init ≢ 1
        → Housed m
        → Placed m
        → Placed (grow_at shmid n key id m r).1
    unfolding grow_at add_sysv
    grow_at-Placed key id m (none, k) new i h = h
    grow_at-Placed key id m (some mem, k) new i h =
        add_segment-Placed shmid n m.tables.sysv_seg_cnt
          (add_sysv key (sysv_size L.pagesize n) id mem (record m { kernel = k })) new
          (add_sysv-Placed key (sysv_size L.pagesize n) id mem (record m { kernel = k }) i h)

    grow-Placed :
        (key : ℕ) (m : Manager L) (r : Option ℕ × L.Kernel)
        → (m.tables.segs shmid).init ≢ 1
        → Housed m
        → Placed m
        → Placed (grow shmid n key m r).1
    unfolding grow
    grow-Placed key m (none, k) new i h = h
    grow-Placed key m (some id, k) new i h =
        grow_at-Placed key id (record m { kernel = k }) (L.shmat id k) new i h

    place-Placed :
        (m : Manager L) (f : Option ℕ)
        → (m.tables.segs shmid).init ≢ 1
        → Housed m
        → Placed m
        → Placed (place shmid n m f).1
    unfolding place create_sysv_key
    place-Placed m (some v) new i h = add_segment-Placed shmid n v m new h
    place-Placed m none new i h = elim (Bool-cases (leb max_svshmseg m.tables.sysv_seg_cnt)) [
      | inl full ↦ rw full h
      | inr space ↦ rw space (grow-Placed (create_sysv_key m).0 (create_sysv_key m).1 _ new i h)
    ]

    pub create_locked-Placed :
        (m : Manager L) → Housed m → Placed m → Placed (create_locked shmid n m).1
    unfolding create_locked
    create_locked-Placed m i h = elim (Bool-cases ((m.tables.segs shmid).init == 1)) [
      | inl is ↦ rw is h
      | inr isnt ↦ elim (Bool-cases (leb max_shmseg m.tables.shmseg_cnt)) [
        | inl full ↦ rw (isnt, full) h
        | inr space ↦ rw (isnt, space) (place-Placed m _ (ground arith) i h)
      ]
    ]

  -- The segment gets its address.
  connect-Placed :
      (shmid v p : ℕ) (m : Manager L)
      → (m.tables.segs shmid).init ≡ 1
      → (m.tables.segs shmid).sysv_table_idx ≡ v
      → (m.attached v).sysv_id ≢ none
      → (m.attached v).ptr ≡ p
      → Placed m
      → Placed (connect shmid v p m)
  unfolding connect
  connect-Placed shmid v p m new home used at h k ne = elim (ℕ_discrete k shmid) [
    | yes e ↦ record { exists = ground (arith); in_use = ground (arith); is = ground (arith) }
    | no other ↦
        (let q = h k (ground (arith, ne)) in
          record {
            exists = ground (arith, q.exists);
            in_use = ground (arith, q.in_use);
            is = ground (arith, q.is);
          })
  ]

  module _ (shmid : ℕ) where
    attach_at-Placed :
        (v id : ℕ) (m : Manager L) (r : Option ℕ × L.Kernel)
        → (m.tables.segs shmid).init ≡ 1
        → (m.tables.segs shmid).sysv_table_idx ≡ v
        → (m.attached v).sysv_id ≡ none
        → Placed m
        → Placed (attach_at shmid v id m r).1
    unfolding attach_at
    attach_at-Placed v id m (none, k) new home free h = h
    attach_at-Placed v id m (some mem, k) new home free h =
        connect-Placed shmid v mem
          (record m {
            attached = update m.attached v (record { sysv_id = some id; ptr = mem; cnt = 0 });
            kernel = k;
          })
          new home (ground arith) (ground arith)
          (λ k ne.
            let q = h k ne in
            let other : (m.tables.segs k).sysv_table_idx ≢ v = λ e. q.in_use (rw e free) in
            record {
              exists = q.exists;
              in_use = ground (arith, q.in_use);
              is = ground (arith, q.is);
            })

    attach-Placed :
        (v : ℕ) (m : Manager L) (r : Option ℕ × L.Kernel)
        → (m.tables.segs shmid).init ≡ 1
        → (m.tables.segs shmid).sysv_table_idx ≡ v
        → (m.attached v).sysv_id ≡ none
        → Placed m
        → Placed (attach shmid v m r).1
    unfolding attach
    attach-Placed v m (none, k) new home free h = h
    attach-Placed v m (some id, k) new home free h =
        attach_at-Placed v id (record m { kernel = k }) (L.shmat id k) new home free h

    connect_in-Placed :
        (v : ℕ) (m : Manager L) (o : Option ℕ)
        → (m.attached v).sysv_id ≡ o
        → (m.tables.segs shmid).init ≡ 1
        → (m.tables.segs shmid).sysv_table_idx ≡ v
        → Placed m
        → Placed (connect_in shmid v m o).1
    unfolding connect_in
    connect_in-Placed v m none e new home h = attach-Placed v m _ new home e h
    connect_in-Placed v m (some id) e new home h =
        connect-Placed shmid v (m.attached v).ptr m new home (λ n. absurd (cc)) refl h

    result-Placed :
        (b : Bool) (x y : Status × Manager L)
        → Placed x.1
        → Placed y.1
        → Placed (result shmid (if b then x else y)).1
    unfolding result
    result-Placed true (ok, m) y h g = h
    result-Placed true (fail, m) y h g = h
    result-Placed false x (ok, m) h g = g
    result-Placed false x (fail, m) h g = g

    pub get_created-Placed :
        (r : Status × Manager L) → Done shmid r → Placed r.1 → Placed (get_created shmid r).1
    unfolding get_created
    get_created-Placed (fail, m) d h = h
    get_created-Placed (ok, m) d h =
        let v = (m.tables.segs shmid).sysv_table_idx in
        result-Placed (m.seg_ptr shmid == 0) (connect_in shmid v m (m.attached v).sysv_id) (ok, m)
          (connect_in-Placed v m (m.attached v).sysv_id refl d.exists refl h) h
