-- ===== src/Shmman/Lookup.antt =====
-- Calls of `shmman_get_shmseg` of system/linux/src/shmman.c for a segment that is there.
use librtipc.Prelude.{
  ℕ, suc, ◌≡◌, ◌≢◌, refl, sym, ap, ◌∙◌, arith, ◌==◌, if◌then◌else◌, Option, none, some, update,
  Bool, true, false, ==_of_eq, ==_of_ne,
}
use mathlib.Core.Path.{subst}
use librtipc.Status.{Status, ok, fail}
use librtipc.Shmman.{Linux, Manager, take_lock, aligned_size, create_locked, created, create_shmseg}
use librtipc.Shmman.Attach.{
  connect, attach_at, attach, connect_in, result, get_created, got, get_shmseg,
}
use librtipc.Shmman.Creation.{take_lock-free, Ready, Done, create_locked-Done}

module _ {L : Linux} where
  -- `shmman_create_shmseg` leaves everything as it is, if the segment exists and the lock is free.
  create_shmseg-Ready :
      (fuel shmid size : ℕ) (m : Manager L)
      → Ready shmid m
      → create_shmseg (suc fuel) shmid size m ≡ some (ok, m)
  unfolding create_shmseg created create_locked
  create_shmseg-Ready fuel shmid size m h =
      ap (created shmid (aligned_size size)) (take_lock-free fuel m h.free)
      ∙ rw (==_of_eq (m.tables.segs shmid).init 1 h.exists)
          (ap (λ x. some (ok, record m { tables = record m.tables { lock = x } })) (sym h.free))

  connect-Ready :
      (shmid v p : ℕ) (m : Manager L) → Ready shmid m → Ready shmid (connect shmid v p m)
  unfolding connect
  connect-Ready shmid v p m h = record { exists = ground (arith, h.exists); free = h.free }

  attach_at-Done :
      (shmid v id : ℕ) (m : Manager L) (r : Option ℕ × L.Kernel)
      → Ready shmid m
      → Done shmid (attach_at shmid v id m r)
  unfolding attach_at
  attach_at-Done shmid v id m (none, k) h = tt
  attach_at-Done shmid v id m (some mem, k) h =
      connect-Ready shmid v mem
        (record m {
          attached = update m.attached v (record { sysv_id = some id; ptr = mem; cnt = 0 });
          kernel = k;
        })
        (record { exists = h.exists; free = h.free })

  attach-Done :
      (shmid v : ℕ) (m : Manager L) (r : Option ℕ × L.Kernel)
      → Ready shmid m
      → Done shmid (attach shmid v m r)
  unfolding attach
  attach-Done shmid v m (none, k) h = tt
  attach-Done shmid v m (some id, k) h =
      attach_at-Done shmid v id (record m { kernel = k }) (L.shmat id k)
        (record { exists = h.exists; free = h.free })

  connect_in-Done :
      (shmid v : ℕ) (m : Manager L) (o : Option ℕ)
      → Ready shmid m
      → Done shmid (connect_in shmid v m o)
  unfolding connect_in
  connect_in-Done shmid v m none h = attach-Done shmid v m _ h
  connect_in-Done shmid v m (some id) h = connect-Ready shmid v (m.attached v).ptr m h

  -- A segment whose address is known to the process is found there, and nothing changes.
  get_shmseg-known :
      (fuel shmid size : ℕ) (m : Manager L)
      → Ready shmid m
      → m.seg_ptr shmid ≢ 0
      → get_shmseg (suc fuel) shmid size m ≡ some (some (m.seg_ptr shmid), m)
  unfolding get_shmseg got get_created result
  get_shmseg-known fuel shmid size m h ne =
      ap (got shmid) (create_shmseg-Ready fuel shmid size m h)
      ∙ rw (==_of_ne (m.seg_ptr shmid) 0 ne) refl

  -- What `shmman_get_shmseg` gives after a call that succeeded
  result-known :
      (shmid a : ℕ) (r : Status × Manager L) (m' : Manager L)
      → Done shmid r
      → result shmid r ≡ (some a, m')
      → Ready shmid m' × (m'.seg_ptr shmid ≡ a)
  unfolding result
  result-known shmid a (ok, m) m' d e =
      (subst (Ready shmid) (ap (λ r. r.1) e) d, cc (ap (λ r. r.1.seg_ptr shmid) e, ap (λ r. r.0) e))
  result-known shmid a (fail, m) m' d e = absurd (cc)

  pub get_created-known :
      (shmid a : ℕ) (r : Status × Manager L) (m' : Manager L)
      → Done shmid r
      → get_created shmid r ≡ (some a, m')
      → Ready shmid m' × (m'.seg_ptr shmid ≡ a)
  unfolding get_created
  get_created-known shmid a (fail, m) m' d e = absurd (cc)
  get_created-known shmid a (ok, m) m' d e =
      result-known shmid a
        (if m.seg_ptr shmid == 0 then connect_in shmid v m (m.attached v).sysv_id else (ok, m)) m'
        (Done-if (m.seg_ptr shmid == 0) (connect_in shmid v m (m.attached v).sysv_id) (ok, m)
          (connect_in-Done shmid v m (m.attached v).sysv_id d) d)
        e
    where
      v : ℕ
      v = (m.tables.segs shmid).sysv_table_idx

      Done-if :
          (b : Bool) (x y : Status × Manager L)
          → Done shmid x
          → Done shmid y
          → Done shmid (if b then x else y)
      Done-if true x y p q = p
      Done-if false x y p q = q

  -- After `shmman_get_shmseg` has given an address other than NULL, a second call for the segment
  -- gives the same address, whatever size it asks for, and changes nothing.
  pub get_shmseg-again :
      (fuel fuel' shmid size size' a : ℕ) (m m' : Manager L)
      → get_shmseg fuel shmid size m ≡ some (some a, m')
      → a ≢ 0
      → get_shmseg (suc fuel') shmid size' m' ≡ some (some a, m')
  get_shmseg-again fuel fuel' shmid size size' a m m' e ne =
      go (take_lock fuel m) (unfold get_shmseg create_shmseg in e)
    where
      go :
          (o : Option (Manager L))
          → got shmid (created shmid (aligned_size size) o) ≡ some (some a, m')
          → get_shmseg (suc fuel') shmid size' m' ≡ some (some a, m')
      go none q = absurd (unfold got created in cc)
      go (some m1) q =
          let known =
            get_created-known shmid a (create_locked shmid (aligned_size size) m1) m'
              (create_locked-Done shmid (aligned_size size) m1) (unfold got created in cc) in
          get_shmseg-known fuel' shmid size' m' known.0 (λ z. ne (sym known.1 ∙ z))
          ∙ ap (λ x. some (some x, m')) known.1
