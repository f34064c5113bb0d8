-- ===== src/Barrier/Moves.antt =====
-- The invariant of src/barrier.c along the steps of a user, some of which change the phase.
use librtipc.Prelude.{ℕ, ◌+◌, ◌^◌, ◌<◌, ◌≡◌, refl, arith, update, total-update, total-const}
use librtipc.Atomic.{faa32}
use librtipc.Barrier.{
  Shared, outside, entering, arriving, waiting, checking, opening, leaving, closing, User, Move,
  call, still_fallen, enter, arrive, complete, incomplete, not_fallen, has_fallen, open_barrier,
  leave, leave_last, close, System, Step, pick, minus_one, Reach, start, later,
}
use librtipc.Barrier.Invariant.{
  at, counted, Phase, gather, fall, shut, Inv, all_counted, others_uncounted, stay, room, free,
}

module _ {n r : ℕ} {m : Shared} {us : ℕ → User} (i : ℕ) (lt : i < n) where
  -- All users are counted, and one has seen it: the barrier falls.
  complete-Inv :
      {k : ℕ}
      → Inv n gather r m us
      → us i ≡ at waiting k
      → m.cnt ≡ n
      → Inv n fall r m (update us i (at opening k))
  complete-Inv {k} v e q = record {
    small = v.small;
    count = ground (arith, total-update counted n us i (at opening k) lt, v.count);
    words = omega arith;
    fits = λ j h.
        ground (arith, v.fits j h, v.fits i lt, all_counted n us (omega (arith, v.count)) j h);
    one_closer = λ a b ha hb ea eb. ground (arith, v.fits a ha, v.fits b hb);
    closer = tt;
  }

  -- The last user that is counted leaves.
  leave_last-Inv :
      {k : ℕ}
      → Inv n fall r m us
      → us i ≡ at leaving k
      → m.cnt ≡ 1
      → Inv n shut r (record m { cnt = (faa32 m.cnt minus_one).1 }) (update us i (at closing k))
  unfolding faa32
  leave_last-Inv {k} v e q = record {
    small = v.small;
    count = ground (arith, total-update counted n us i (at closing k) lt, v.count);
    words = ground (arith, v.fits i lt);
    fits = λ j h. ground (
      arith,
      v.fits j h,
      v.fits i lt,
      others_uncounted n us i (at closing k) lt (omega (arith, v.count)) (ground arith) refl j h,
    );
    one_closer = λ a b ha hb ea eb. ground (arith, v.fits a ha, v.fits b hb);
    closer = (i, lt, ground arith);
  }

  -- The last user sets the barrier up again.
  close-Inv :
      {k : ℕ}
      → Inv n shut r m us
      → us i ≡ at closing k
      → Inv n gather (r + 1) (record m { fallen = 0 }) (update us i (at outside (k + 1)))
  close-Inv {k} v e = record {
    small = v.small;
    count = ground (arith, total-update counted n us i (at outside (k + 1)) lt, v.count);
    words = refl;
    fits = λ j h. ground (arith, v.fits j h, v.fits i lt, v.one_closer j i h lt);
    one_closer = λ a b ha hb ea eb.
        ground (arith, v.fits a ha, v.fits b hb, v.one_closer a i ha lt, v.one_closer b i hb lt);
    closer = tt;
  }

  gather-Move :
      {u u' : User} {m' : Shared}
      → Inv n gather r m us
      → us i ≡ u
      → Move n m u m' u'
      → (p : Phase) × (r' : ℕ) × Inv n p r' m' (update us i u')
  unfolding faa32
  gather-Move v e (call {r = k}) = (
    gather,
    r,
    stay i lt (at outside k) (at entering k) m v e (v.words) (ground (arith, v.fits i lt)) (λ q. cc)
        (λ q. cc) (λ q. q) (refl),
  )
  gather-Move v e (still_fallen {r = k} q) = absurd (ground (arith, v.fits i lt))
  gather-Move v e (enter {r = k} q) = (
    gather,
    r,
    stay i lt (at entering k) (at arriving k) m v e (v.words) (ground (arith, v.fits i lt))
        (λ q. cc) (λ q. cc) (λ q. q) (refl),
  )
  gather-Move v e (arrive {r = k}) = (
    gather,
    r,
    stay i lt (at arriving k) (at waiting k) (record m { cnt = (faa32 m.cnt 1).1 }) v e (v.words)
        (ground (arith, v.fits i lt)) (λ q. cc) (λ q. cc) (λ q. q)
        (omega (arith, free i lt v (at arriving k) e refl, v.small)),
  )
  gather-Move v e (complete {r = k} q) = (fall, r, complete-Inv v e q)
  gather-Move v e (incomplete {r = k} q) = (
    gather,
    r,
    stay i lt (at waiting k) (at checking k) m v e (v.words) (ground (arith, v.fits i lt)) (λ q. cc)
        (λ q. cc) (λ q. q) (refl),
  )
  gather-Move v e (not_fallen {r = k} q) = (
    gather,
    r,
    stay i lt (at checking k) (at waiting k) m v e (v.words) (ground (arith, v.fits i lt)) (λ q. cc)
        (λ q. cc) (λ q. q) (refl),
  )
  gather-Move v e (has_fallen {r = k} q) = absurd (ground (arith, v.fits i lt))
  gather-Move v e (open_barrier {r = k}) = absurd (ground (arith, v.fits i lt))
  gather-Move v e (leave {r = k} q) = absurd (ground (arith, v.fits i lt))
  gather-Move v e (leave_last {r = k} q) = absurd (ground (arith, v.fits i lt))
  gather-Move v e (close {r = k}) = absurd (ground (arith, v.fits i lt))

  fall-Move :
      {u u' : User} {m' : Shared}
      → Inv n fall r m us
      → us i ≡ u
      → Move n m u m' u'
      → (p : Phase) × (r' : ℕ) × Inv n p r' m' (update us i u')
  unfolding faa32
  fall-Move v e (call {r = k}) = (
    fall,
    r,
    stay i lt (at outside k) (at entering k) m v e (v.words) (ground (arith, v.fits i lt)) (λ q. cc)
        (λ q. cc) (λ q. q) (refl),
  )
  fall-Move v e (still_fallen {r = k} q) = (
    fall,
    r,
    stay i lt (at entering k) (at entering k) m v e (v.words) (ground (arith, v.fits i lt))
        (λ q. cc) (λ q. cc) (λ q. q) (refl),
  )
  fall-Move v e (enter {r = k} q) = absurd (ground (arith, v.fits i lt))
  fall-Move v e (arrive {r = k}) = absurd (ground (arith, v.fits i lt))
  fall-Move v e (complete {r = k} q) = (
    fall,
    r,
    stay i lt (at waiting k) (at opening k) m v e (v.words) (ground (arith, v.fits i lt)) (λ q. cc)
        (λ q. cc) (λ q. q) (refl),
  )
  fall-Move v e (incomplete {r = k} q) = (
    fall,
    r,
    stay i lt (at waiting k) (at checking k) m v e (v.words) (ground (arith, v.fits i lt)) (λ q. cc)
        (λ q. cc) (λ q. q) (refl),
  )
  fall-Move v e (not_fallen {r = k} q) = (
    fall,
    r,
    stay i lt (at checking k) (at waiting k) m v e (v.words) (ground (arith, v.fits i lt)) (λ q. cc)
        (λ q. cc) (λ q. q) (refl),
  )
  fall-Move v e (has_fallen {r = k} q) = (
    fall,
    r,
    stay i lt (at checking k) (at opening k) m v e (v.words) (ground (arith, v.fits i lt)) (λ q. cc)
        (λ q. cc) (λ q. q) (refl),
  )
  fall-Move v e (open_barrier {r = k}) = (
    fall,
    r,
    stay i lt (at opening k) (at leaving k) (record m { fallen = 1 }) v e (omega (arith, v.words))
        (ground (arith, v.fits i lt)) (λ q. cc) (λ q. cc) (λ q. refl) (refl),
  )
  fall-Move v e (leave {r = k} q) = (
    fall,
    r,
    stay i lt (at leaving k) (at outside (k + 1)) (record m { cnt = (faa32 m.cnt minus_one).1 }) v e
        (ground (arith, v.fits i lt, room i lt v, v.small)) (ground (arith, v.fits i lt)) (λ q. cc)
        (λ q. cc) (λ q. q) (ground (arith, v.words, room i lt v, v.small)),
  )
  fall-Move v e (leave_last {r = k} q) = (shut, r, leave_last-Inv v e q)
  fall-Move v e (close {r = k}) = absurd (ground (arith, v.fits i lt))

  shut-Move :
      {u u' : User} {m' : Shared}
      → Inv n shut r m us
      → us i ≡ u
      → Move n m u m' u'
      → (p : Phase) × (r' : ℕ) × Inv n p r' m' (update us i u')
  unfolding faa32
  shut-Move v e (call {r = k}) = (
    shut,
    r,
    stay i lt (at outside k) (at entering k) m v e (v.words) (ground (arith, v.fits i lt)) (λ q. cc)
        (λ q. cc) (λ q. q) (refl),
  )
  shut-Move v e (still_fallen {r = k} q) = (
    shut,
    r,
    stay i lt (at entering k) (at entering k) m v e (v.words) (ground (arith, v.fits i lt))
        (λ q. cc) (λ q. cc) (λ q. q) (refl),
  )
  shut-Move v e (enter {r = k} q) = absurd (ground (arith, v.fits i lt))
  shut-Move v e (arrive {r = k}) = absurd (ground (arith, v.fits i lt))
  shut-Move v e (complete {r = k} q) = absurd (ground (arith, v.fits i lt))
  shut-Move v e (incomplete {r = k} q) = absurd (ground (arith, v.fits i lt))
  shut-Move v e (not_fallen {r = k} q) = absurd (ground (arith, v.fits i lt))
  shut-Move v e (has_fallen {r = k} q) = absurd (ground (arith, v.fits i lt))
  shut-Move v e (open_barrier {r = k}) = absurd (ground (arith, v.fits i lt))
  shut-Move v e (leave {r = k} q) = absurd (ground (arith, v.fits i lt))
  shut-Move v e (leave_last {r = k} q) = absurd (ground (arith, v.fits i lt))
  shut-Move v e (close {r = k}) = (gather, r + 1, close-Inv v e)

-- Every step keeps the invariant, in the same phase or in the one after it.
pub Step-Inv :
    {n r : ℕ} (p : Phase) {s t : System}
    → Inv n p r s.shared s.users
    → Step n s t
    → (p' : Phase) × (r' : ℕ) × Inv n p' r' t.shared t.users
Step-Inv gather v (pick i lt mv) = gather-Move i lt v refl mv
Step-Inv fall v (pick i lt mv) = fall-Move i lt v refl mv
Step-Inv shut v (pick i lt mv) = shut-Move i lt v refl mv

-- In every reachable state the users are in one of the three phases.
pub Reach-Inv :
    {n : ℕ} {s : System}
    → n < 2 ^ 31
    → Reach n s
    → (p : Phase) × (r : ℕ) × Inv n p r s.shared s.users
Reach-Inv {n} small start = (
  gather,
  0,
  record {
    small = small;
    count = omega (arith, total-const counted n (at outside 0) refl);
    words = refl;
    fits = λ j h. refl;
    one_closer = λ a b ha hb ea eb. cc;
    closer = tt;
  },
)
Reach-Inv small (later rs st) = let (p, r, v) = Reach-Inv small rs in Step-Inv p v st
