-- ===== src/Barrier/Invariant.antt =====
-- The phases of the barrier of src/barrier.c: the users gather; when all are counted it falls, and
-- they leave one by one; the last one sets it up again.
use librtipc.Prelude.{
  ℕ, zero, suc, ◌+◌, ◌^◌, ◌≤◌, ◌<◌, ◌≡◌, ◌≢◌, ◌⊎◌, arith, update, total, sum_below, total-update,
  le-total, dec_lt, ℕ_discrete, ap, sym, ◌∙◌,
}
use librtipc.Barrier.{
  Shared, Pc, outside, entering, arriving, waiting, checking, opening, leaving, closing, User,
}

abbrev pub at : Pc → ℕ → User
at p k = record { pc = p; rounds = k }

-- 1 for a user that `cnt` counts
abbrev pub counted : User → ℕ
counted u = elim u.pc [ waiting ↦ 1 | checking ↦ 1 | opening ↦ 1 | leaving ↦ 1 | _ ↦ 0 ]

pub data Phase : Type 0 where
  gather fall shut : Phase

-- What holds of a user in each phase; `r` rounds are complete.
abbrev pub Fits : Phase → ℕ → ℕ → User → Type 0
Fits gather r fallen u = elim u.pc [ opening ↦ ⊥ | leaving ↦ ⊥ | closing ↦ ⊥ | _ ↦ u.rounds ≡ r ]
Fits fall r fallen u = elim u.pc [
  | outside ↦ (u.rounds ≡ r + 1) × (fallen ≡ 1)
  | entering ↦ (u.rounds ≡ r + 1) × (fallen ≡ 1)
  | arriving ↦ ⊥
  | closing ↦ ⊥
  | leaving ↦ (u.rounds ≡ r) × (fallen ≡ 1)
  | _ ↦ u.rounds ≡ r
]
Fits shut r fallen u = elim u.pc [
  | outside ↦ u.rounds ≡ r + 1
  | entering ↦ u.rounds ≡ r + 1
  | closing ↦ u.rounds ≡ r
  | _ ↦ ⊥
]

-- What holds of the shared words in each phase, `k` being the number of users counted.
abbrev pub Words : Phase → ℕ → Shared → Type 0
Words gather n m = m.fallen ≡ 0
Words fall n m = (1 ≤ m.cnt) × (m.fallen ≤ 1) × ((m.cnt ≡ n) ⊎ (m.fallen ≡ 1))
Words shut n m = (m.cnt ≡ 0) × (m.fallen ≡ 1)

-- While the barrier is shut, one user is about to set it up again.
abbrev pub Closer : Phase → ℕ → (ℕ → User) → Type 0
Closer shut n us = (i : ℕ) × (i < n) × ((us i).pc ≡ closing)
Closer _ n us = Unit {0}

pub record Inv (n : ℕ) (p : Phase) (r : ℕ) (m : Shared) (us : ℕ → User) : Type 0 where
  pub small : n < 2 ^ 31
  pub count : m.cnt ≡ total counted n us
  pub words : Words p n m
  pub fits : (i : ℕ) → i < n → Fits p r m.fallen (us i)
  pub one_closer : (i j : ℕ) → i < n → j < n → (us i).pc ≡ closing → (us j).pc ≡ closing → i ≡ j
  pub closer : Closer p n us

counted-le : (u : User) → counted u ≤ 1
counted-le u = ground arith

pub total-counted-le : (n : ℕ) (us : ℕ → User) → total counted n us ≤ n
unfolding sum_below
total-counted-le zero us = omega arith
total-counted-le (suc n) us = omega (arith, total-counted-le n us, counted-le (us n))

-- If all are counted then each is.
pub all_counted :
    (n : ℕ) (us : ℕ → User) → total counted n us ≡ n → (i : ℕ) → i < n → counted (us i) ≡ 1
unfolding sum_below
all_counted zero us e i h = elim h [ ]
all_counted (suc n) us e i h = elim (dec_lt i n) [
  | yes below ↦ all_counted n us (omega (arith, total-counted-le n us, counted-le (us n))) i below
  | no last ↦ ground (arith, total-counted-le n us, counted-le (us n))
]

-- If fewer are counted than there are, some user is not.
pub some_uncounted :
    (n : ℕ) (us : ℕ → User) → total counted n us < n → (i : ℕ) × (i < n) × (counted (us i) ≡ 0)
unfolding sum_below
some_uncounted zero us h = elim h [ ]
some_uncounted (suc n) us h = elim (ℕ_discrete (counted (us n)) 0) [
  | yes out ↦ (n, omega arith, out)
  | no in_it ↦
      let (i, lt, out) = some_uncounted n us (omega (arith, counted-le (us n))) in
      (i, omega arith, out)
]

-- If any are counted then some user is.
pub some_counted :
    (n : ℕ) (us : ℕ → User) → 1 ≤ total counted n us → (i : ℕ) × (i < n) × (counted (us i) ≡ 1)
unfolding sum_below
some_counted zero us h = absurd (omega arith)
some_counted (suc n) us h = elim (ℕ_discrete (counted (us n)) 0) [
  | yes out ↦ let (i, lt, in_it) = some_counted n us (omega arith) in (i, omega arith, in_it)
  | no in_it ↦ (n, omega arith, omega (arith, counted-le (us n)))
]

-- A user that is counted alone is the only one.
pub others_uncounted :
    (n : ℕ) (us : ℕ → User) (i : ℕ) (u : User)
    → i < n
    → total counted n us ≡ 1
    → counted (us i) ≡ 1
    → counted u ≡ 0
    → (j : ℕ) → j < n
    → counted (update us i u j) ≡ 0
others_uncounted n us i u lt one is_in out j h =
    omega (arith, total-update counted n us i u lt, le-total counted n (update us i u) j h)

Fits-fallen : (p : Phase) (r f f' : ℕ) (u : User) → (f ≡ 1 → f' ≡ 1) → Fits p r f u → Fits p r f' u
Fits-fallen gather r f f' u h k = k
Fits-fallen fall r f f' u h k = ground arith
Fits-fallen shut r f f' u h k = k

keep-Closer :
    (p : Phase) (n : ℕ) (us : ℕ → User) (i : ℕ) (u : User)
    → (us i).pc ≢ closing
    → Closer p n us
    → Closer p n (update us i u)
keep-Closer gather n us i u h c = tt
keep-Closer fall n us i u h c = tt
keep-Closer shut n us i u h (j, lt, e) = (j, lt, ground arith)

module _ {n r : ℕ} {m : Shared} {us : ℕ → User} (i : ℕ) (lt : i < n) where
  -- A step inside a phase.
  pub stay :
      {p : Phase} (u u' : User) (m' : Shared)
      → Inv n p r m us
      → us i ≡ u
      → Words p n m'
      → Fits p r m'.fallen u'
      → u'.pc ≢ closing
      → u.pc ≢ closing
      → (m.fallen ≡ 1 → m'.fallen ≡ 1)
      → m'.cnt + counted u ≡ m.cnt + counted u'
      → Inv n p r m' (update us i u')
  stay {p} u u' m' v e w f nc oc fallen c = record {
    small = v.small;
    count = ground (arith, total-update counted n us i u' lt, v.count);
    words = w;
    fits = λ j h. ground (arith, Fits-fallen p r m.fallen m'.fallen (us j) fallen (v.fits j h));
    one_closer = λ a b ha hb ea eb. ground (arith, v.one_closer a b ha hb);
    closer = keep-Closer p n us i u' (λ q. oc (ap User.pc (sym e) ∙ q)) v.closer;
  }

  pub room : {p : Phase} → Inv n p r m us → (m.cnt ≤ n) × (counted (us i) ≤ m.cnt)
  room v = omega (arith, v.count, total-counted-le n us, le-total counted n us i lt)

  pub free : {p : Phase} → Inv n p r m us → (u : User) → us i ≡ u → counted u ≡ 0 → m.cnt + 1 ≤ n
  free v u e c = ground (
    arith,
    v.count,
    total-update counted n us i (at waiting 0) lt,
    total-counted-le n (update us i (at waiting 0)),
  )
