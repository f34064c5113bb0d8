-- ===== src/Shmman/Apart.antt =====
-- The segments that a process gets from `shmman_get_shmseg` of system/linux/src/shmman.c do not overlap.
use mathlib.Core.Path.{subst}
use librtipc.Prelude.{
  ℕ, zero, suc, Bool, true, false, if◌then◌else◌, ◌+◌, ◌^◌, ◌≤◌, ◌<◌, ◌≡◌, ◌≢◌, ◌⊎◌, inl, inr, sym,
  ap, ◌∙◌, arith, ◌==◌, Option, none, some, ℕ_discrete, update,
}
use librtipc.Status.{Status, ok, fail}
use librtipc.Shmman.{
  Linux, Manager, take_lock, aligned_size, sysv_size, create_locked, created, create_shmseg,
}
use librtipc.Shmman.Attach.{
  connect, attach_at, attach, connect_in, result, get_created, got, get_shmseg,
}
use librtipc.Shmman.Layout.{Inv, create_locked-Inv, aligned_size-mod}
use librtipc.Shmman.Creation.{
  locked, locked-Inv, take_lock-free, take_lock-taken, create_locked-Done,
}
use librtipc.Shmman.Lookup.{get_created-known}
use librtipc.Shmman.Addresses.{PlacedAt, Placed, create_locked-Placed, get_created-Placed}

-- Of two blocks of memory, one ends before the other begins.
abbrev pub Disjoint : (a n b k : ℕ) → Type 0
Disjoint a n b k = (a + n ≤ b) ⊎ (b + k ≤ a)

module _ {L : Linux} where
  -- One more user of a segment changes nothing else in the shared tables.
  module _ (shmid : ℕ) (m : Manager L) (h : Inv m.tables) where
    connect-Inv : (v p : ℕ) → Inv (connect shmid v p m).tables
    unfolding connect
    connect-Inv v p = record {
      room = h.room;
      small = h.small;
      room_aligned = h.room_aligned;
      unused = h.unused;
      home = λ k i. ground (arith, h.home k);
      inside = λ k i. ground (arith, h.inside k);
      aligned = λ k i. ground (arith, h.aligned k);
      apart = λ j k ne i i' same. ground (arith, h.apart j k ne);
    }

  module _ (shmid : ℕ) where
    attach_at-Inv :
        (v id : ℕ) (m : Manager L) (r : Option ℕ × L.Kernel)
        → Inv m.tables
        → Inv (attach_at shmid v id m r).1.tables
    unfolding attach_at
    attach_at-Inv v id m (none, k) h = h
    attach_at-Inv v id m (some mem, k) h =
        connect-Inv shmid
          (record m {
            attached = update m.attached v (record { sysv_id = some id; ptr = mem; cnt = 0 });
            kernel = k;
          })
          h v mem

    connect_in-Inv :
        (v : ℕ) (m : Manager L) (o : Option ℕ)
        → Inv m.tables
        → Inv (connect_in shmid v m o).1.tables
    unfolding connect_in attach
    connect_in-Inv v m (some id) h = connect-Inv shmid m h v (m.attached v).ptr
    connect_in-Inv v m none h = attach-Inv (L.shmget (m.tables.sysvs v).sysv_key 0 false m.kernel)
      where
        attach-Inv : (r : Option ℕ × L.Kernel) → Inv (attach shmid v m r).1.tables
        attach-Inv (none, k) = h
        attach-Inv (some id, k) = attach_at-Inv v id (record m { kernel = k }) (L.shmat id k) h

    result-Inv :
        (b : Bool) (x y : Status × Manager L)
        → Inv x.1.tables
        → Inv y.1.tables
        → Inv (result shmid (if b then x else y)).1.tables
    unfolding result
    result-Inv true (ok, m) y h g = h
    result-Inv true (fail, m) y h g = h
    result-Inv false x (ok, m) h g = g
    result-Inv false x (fail, m) h g = g

    get_created-Inv : (r : Status × Manager L) → Inv r.1.tables → Inv (get_created shmid r).1.tables
    unfolding get_created
    get_created-Inv (fail, m) h = h
    get_created-Inv (ok, m) h =
        let v = (m.tables.segs shmid).sysv_table_idx in
        result-Inv (m.seg_ptr shmid == 0) (connect_in shmid v m (m.attached v).sysv_id) (ok, m)
          (connect_in-Inv v m (m.attached v).sysv_id h) h

  -- What Linux says of `shmat`: System V segments that the process has attached do not overlap.
  abbrev pub Attachments : Manager L → Type 0
  Attachments m =
      (v w : ℕ)
      → v ≢ w
      → (m.attached v).sysv_id ≢ none
      → (m.attached w).sysv_id ≢ none
      → Disjoint (m.attached v).ptr (m.tables.sysvs v).size (m.attached w).ptr
          (m.tables.sysvs w).size

  -- The blocks of two segments that the process has addresses for
  abbrev pub Separate : Manager L → ℕ → ℕ → Type 0
  Separate m j k =
      Disjoint (m.seg_ptr j) (m.tables.segs j).size (m.seg_ptr k) (m.tables.segs k).size

  Placed-Separate :
      (m : Manager L) (j k : ℕ)
      → Inv m.tables
      → PlacedAt m.tables.segs m.attached (m.seg_ptr j) j
      → PlacedAt m.tables.segs m.attached (m.seg_ptr k) k
      → Attachments m
      → j ≢ k
      → Separate m j k
  Placed-Separate m j k h p q away ne =
      let v = (m.tables.segs j).sysv_table_idx in
      let w = (m.tables.segs k).sysv_table_idx in
      let room = h.room v in
      let room' = h.room w in
      let inside = h.inside j p.exists in
      let inside' = h.inside k q.exists in
      elim (ℕ_discrete v w) [
        | yes same ↦ elim (h.apart j k ne p.exists q.exists same) [
          | inl before ↦ inl (ground (arith, p.is, q.is))
          | inr behind ↦ inr (ground (arith, p.is, q.is))
        ]
        | no other ↦ elim (away v w other p.in_use q.in_use) [
          | inl before ↦ inl (omega (arith, p.is, q.is))
          | inr behind ↦ inr (omega (arith, p.is, q.is))
        ]
      ]

  -- What `shmman_get_shmseg` keeps, with the lock that it has got
  got-Placed :
      (shmid size : ℕ) (m : Manager L)
      → 0 < L.pagesize
      → sysv_size L.pagesize (aligned_size size) < 2 ^ 32
      → Inv m.tables
      → Placed m
      → (let r = get_created shmid (create_locked shmid (aligned_size size) (locked m)) in
          Inv r.1.tables × Placed r.1)
  got-Placed shmid size m page small h p =
      let n = aligned_size size in
      (
        get_created-Inv shmid (create_locked shmid n (locked m)) (
            create_locked-Inv shmid n (aligned_size-mod size) small page (locked m)
              (locked-Inv m h)),
        get_created-Placed shmid (create_locked shmid n (locked m))
            (create_locked-Done shmid n (locked m))
            (create_locked-Placed shmid n (locked m) h.home p),
      )

  -- A call that returns has found the lock free.
  get_shmseg-opened :
      (fuel shmid size : ℕ) (m : Manager L) (r : Option ℕ × Manager L)
      → get_shmseg fuel shmid size m ≡ some r
      → get_created shmid (create_locked shmid (aligned_size size) (locked m)) ≡ r
  unfolding get_shmseg got create_shmseg created take_lock
  get_shmseg-opened zero shmid size m r e = absurd (cc e)
  get_shmseg-opened (suc fuel) shmid size m r e = elim (ℕ_discrete m.tables.lock 0) [
    | yes free ↦
        cc (
          e,
          ap (λ o. got shmid (created shmid (aligned_size size) o)) (take_lock-free fuel m free),
        )
    | no held ↦ absurd (
        cc (
          e,
          ap (λ o. got shmid (created shmid (aligned_size size) o))
              (take_lock-taken (suc fuel) m held),
        ))
  ]

  -- Where the segments lie apart in their System V segments, every address that the process holds is
  -- that which the tables say (`Placed`), a System V segment for the new segment would be below 2 ^ 32 bytes and pages are not empty, all
  -- that is so again when `shmman_get_shmseg` returns, on every branch.
  pub get_shmseg-keeps :
      (fuel shmid size : ℕ) (r : Option ℕ) (m m' : Manager L)
      → 0 < L.pagesize
      → sysv_size L.pagesize (aligned_size size) < 2 ^ 32
      → Inv m.tables
      → Placed m
      → get_shmseg fuel shmid size m ≡ some (r, m')
      → Inv m'.tables × Placed m'
  get_shmseg-keeps fuel shmid size r m m' page small h p e =
      subst (λ r. Inv r.1.tables × Placed r.1) (get_shmseg-opened fuel shmid size m (r, m') e)
        (got-Placed shmid size m page small h p)

  -- Where the segments lie apart in their System V segments, every address that the process holds is that
  -- which the tables say (`Placed`), a System V segment for the new segment would be below 2 ^ 32 bytes,
  -- pages are not empty, and Linux lets no two System V segments that are attached overlap: when
  -- `shmman_get_shmseg` gives an address other than NULL, the segment shares no byte with any other that
  -- the process has an address for.
  pub get_shmseg-apart :
      (fuel shmid size a k : ℕ) (m m' : Manager L)
      → 0 < L.pagesize
      → sysv_size L.pagesize (aligned_size size) < 2 ^ 32
      → Inv m.tables
      → Placed m
      → get_shmseg fuel shmid size m ≡ some (some a, m')
      → a ≢ 0
      → Attachments m'
      → k ≢ shmid
      → m'.seg_ptr k ≢ 0
      → Disjoint a (m'.tables.segs shmid).size (m'.seg_ptr k) (m'.tables.segs k).size
  get_shmseg-apart fuel shmid size a k m m' page small h p e ne away other used =
      let known =
        get_created-known shmid a (create_locked shmid (aligned_size size) (locked m)) m'
          (create_locked-Done shmid (aligned_size size) (locked m))
          (get_shmseg-opened fuel shmid size m (some a, m') e) in
      let (inv, placed) = get_shmseg-keeps fuel shmid size (some a) m m' page small h p e in
      subst (λ b. Disjoint b (m'.tables.segs shmid).size (m'.seg_ptr k) (m'.tables.segs k).size)
        known.1
        (Placed-Separate m' shmid k inv (placed shmid (λ z. ne (sym known.1 ∙ z))) (placed k used)
          away (λ q. other (sym q)))
