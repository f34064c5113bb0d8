-- ===== src/Barrier/Progress.antt =====
-- The barrier of src/barrier.c can always go on.
use mathlib.Core.Path.{subst}
use librtipc.Prelude.{
  ℕ, zero, suc, ◌+◌, ◌-◌, ◌^◌, ◌<◌, ◌≡◌, ◌≢◌, ◌⊎◌, inl, inr, refl, sym, ap, arith, total,
  total-update, update, update_self, ℕ_discrete,
}
use librtipc.Atomic.{faa32}
use librtipc.Barrier.{
  Shared, Pc, outside, entering, arriving, waiting, checking, opening, leaving, closing, User, Move,
  enter, arrive, complete, incomplete, not_fallen, has_fallen, open_barrier, leave, leave_last,
  close, System, Step, pick, Reach, minus_one,
}
use librtipc.Barrier.Invariant.{
  at, Phase, gather, fall, shut, Inv, some_uncounted, some_counted, all_counted, counted,
  total-counted-le,
}
use librtipc.Barrier.Moves.{Reach-Inv}

-- Steps of the users, one after the other
pub data Run (n : ℕ) : System → System → Type 0 where
  stop : {s : System} → Run n s s
  before : {s t u : System} → Step n s t → Run n t u → Run n s u

-- User `i` can get to have passed the barrier `k` times.
abbrev pub Passes : ℕ → System → ℕ → ℕ → Type 0
Passes n s i k = (t : System) × Run n s t × ((t.users i).rounds ≡ k)

-- The state after a step of user `i`
abbrev moved : System → ℕ → Shared → User → System
moved s i m u = record { shared = m; users = update s.users i u }

-- All users are inside and before the barrier, which has not fallen.
abbrev IsInside : Pc → Type 0
IsInside entering = Unit {0}
IsInside arriving = Unit {0}
IsInside waiting = Unit {0}
IsInside checking = Unit {0}
IsInside _ = ⊥

record Gathering (n : ℕ) (s : System) : Type 0 where
  small : n < 2 ^ 31
  count : s.shared.cnt ≡ total counted n s.users
  up : s.shared.fallen ≡ 0
  inside : (i : ℕ) → i < n → IsInside (s.users i).pc

module _ {n : ℕ} where
  Passes-later :
      (s : System) (i j k : ℕ) (u u' : User) (m : Shared)
      → j < n
      → s.users j ≡ u
      → Move n s.shared u m u'
      → ((moved s j m u').users j ≡ u' → Passes n (moved s j m u') i k)
      → Passes n s i k
  Passes-later s i j k u u' m l e move rest =
      let (t, run, r) = rest (update_self s.users j u') in
      (t, Run.before (pick j l (subst (λ v. Move n s.shared v m u') (sym e) move)) run, r)

  module _ (i : ℕ) (l : i < n) (r : ℕ) where
    -- What a user does alone once it does not wait
    from_leaving : (s : System) → s.users i ≡ at leaving r → Passes n s i (r + 1)
    from_leaving s e = elim (ℕ_discrete (faa32 s.shared.cnt minus_one).0 1) [
      | yes last ↦
          Passes-later s i i (r + 1) (at leaving r) (at closing r) _ l e (leave_last last) (λ q.
            Passes-later _ i i (r + 1) (at closing r) (at outside (r + 1)) _ l q close
              (λ q. (_, Run.stop, ap User.rounds q)))
      | no more ↦
          Passes-later s i i (r + 1) (at leaving r) (at outside (r + 1)) _ l e (leave more)
            (λ q. (_, Run.stop, ap User.rounds q))
    ]

    from_opening : (s : System) → s.users i ≡ at opening r → Passes n s i (r + 1)
    from_opening s e =
        Passes-later s i i (r + 1) (at opening r) (at leaving r) _ l e open_barrier (from_leaving _)

    -- A user in the second loop gets through it alone, when all are counted or the barrier has fallen.
    from_waiting :
        (s : System)
        → s.users i ≡ at waiting r
        → (s.shared.cnt ≡ n) ⊎ (s.shared.fallen ≢ 0)
        → Passes n s i (r + 1)
    from_waiting s e h = elim (ℕ_discrete s.shared.cnt n) [
      | yes all ↦
          Passes-later s i i (r + 1) (at waiting r) (at opening r) _ l e (complete all)
            (from_opening _)
      | no few ↦
          Passes-later s i i (r + 1) (at waiting r) (at checking r) _ l e (incomplete few) (λ q.
            Passes-later _ i i (r + 1) (at checking r) (at opening r) _ l q
              (has_fallen (elim h [ inl all ↦ absurd (few all) | inr fallen ↦ fallen ]))
              (from_opening _))
    ]

    from_checking :
        (s : System)
        → s.users i ≡ at checking r
        → (s.shared.cnt ≡ n) ⊎ (s.shared.fallen ≢ 0)
        → Passes n s i (r + 1)
    from_checking s e h = elim (ℕ_discrete s.shared.fallen 0) [
      | yes up ↦
          Passes-later s i i (r + 1) (at checking r) (at waiting r) _ l e (not_fallen up)
            (λ q. from_waiting _ q h)
      | no fallen ↦
          Passes-later s i i (r + 1) (at checking r) (at opening r) _ l e (has_fallen fallen)
            (from_opening _)
    ]

    from_closing : (s : System) → s.users i ≡ at closing r → Passes n s i (r + 1)
    from_closing s e =
        Passes-later s i i (r + 1) (at closing r) (at outside (r + 1)) _ l e close
          (λ q. (_, Run.stop, ap User.rounds q))

    -- A user that is counted
    from_counted :
        (s : System) (p : Pc)
        → s.users i ≡ at p r
        → counted (at p r) ≡ 1
        → (s.shared.cnt ≡ n) ⊎ (s.shared.fallen ≢ 0)
        → Passes n s i (r + 1)
    from_counted s waiting e c h = from_waiting s e h
    from_counted s checking e c h = from_checking s e h
    from_counted s opening e c h = from_opening s e
    from_counted s leaving e c h = from_leaving s e
    from_counted s outside e c h = absurd (omega (arith, c))
    from_counted s entering e c h = absurd (omega (arith, c))
    from_counted s arriving e c h = absurd (omega (arith, c))
    from_counted s closing e c h = absurd (omega (arith, c))

  entered-Gathering :
      (s : System) (i r : ℕ)
      → i < n
      → s.users i ≡ at entering r
      → Gathering n s
      → Gathering n (moved s i s.shared (at arriving r))
  entered-Gathering s i r l e g = record {
    small = g.small;
    count = ground (arith, g.count, total-update counted n s.users i (at arriving r) l);
    up = g.up;
    inside = λ j h. ground (arith, g.inside j h);
  }

  arrived-Gathering :
      (s : System) (i r : ℕ)
      → i < n
      → s.users i ≡ at arriving r
      → Gathering n s
      → Gathering n (moved s i (record s.shared { cnt = (faa32 s.shared.cnt 1).1 }) (at waiting r))
  unfolding faa32
  arrived-Gathering s i r l e g = record {
    small = g.small;
    count = ground (
      arith,
      g.small,
      g.count,
      total-counted-le n s.users,
      total-update counted n s.users i (at waiting r) l,
    );
    up = g.up;
    inside = λ j h. ground (arith, g.inside j h);
  }

  -- One user fewer is missing when one that is not counted has entered and arrived.
  module _ (missing i : ℕ) (s : System) (g : Gathering n s)
      (e : total counted n s.users + suc missing ≡ n)
      (more : (t : System)
        → Gathering n t
        → total counted n t.users + missing ≡ n
        → Passes n t i ((t.users i).rounds + 1)) where
    goes_on :
        (t : System)
        → Gathering n t
        → total counted n t.users ≡ total counted n s.users + 1
        → (t.users i).rounds ≡ (s.users i).rounds
        → Passes n t i ((s.users i).rounds + 1)
    goes_on t h c r = subst (λ k. Passes n t i (k + 1)) r (more t h (omega (arith, c, e)))

    arrives :
        (t : System) (j : ℕ)
        → j < n
        → (k : ℕ) → t.users j ≡ at arriving k
        → Gathering n t
        → total counted n t.users ≡ total counted n s.users
        → (t.users i).rounds ≡ (s.users i).rounds
        → Passes n t i ((s.users i).rounds + 1)
    arrives t j lj k q h c r =
        Passes-later t i j _ (at arriving k) (at waiting k) _ lj q arrive (λ z.
          goes_on _ (arrived-Gathering t j k lj q h)
            (ground (arith, c, total-update counted n t.users j (at waiting k) lj))
            (ground (arith, r)))

    comes :
        (j : ℕ)
        → j < n
        → counted (s.users j) ≡ 0
        → (p : Pc) → (s.users j).pc ≡ p
        → Passes n s i ((s.users i).rounds + 1)
    comes j lj out entering q =
        let here : s.users j ≡ at entering (s.users j).rounds =
          ap (λ p. at p (s.users j).rounds) q in
        Passes-later s i j _ (at entering (s.users j).rounds) (at arriving (s.users j).rounds) _ lj
          here (enter (omega (arith, g.up)))
          (λ q.
            arrives _ j lj (s.users j).rounds q (entered-Gathering s j (s.users j).rounds lj here g)
              (ground (arith, total-update counted n s.users j (at arriving (s.users j).rounds) lj))
              (ground arith))
    comes j lj out arriving q =
        arrives s j lj (s.users j).rounds (ap (λ p. at p (s.users j).rounds) q) g refl refl
    comes j lj out waiting q = absurd (ground (arith, q, out))
    comes j lj out checking q = absurd (ground (arith, q, out))
    comes j lj out outside q = absurd (subst IsInside q (g.inside j lj))
    comes j lj out opening q = absurd (subst IsInside q (g.inside j lj))
    comes j lj out leaving q = absurd (subst IsInside q (g.inside j lj))
    comes j lj out closing q = absurd (subst IsInside q (g.inside j lj))

  -- While some users are not counted, one of them enters or arrives; when all are counted, each can pass.
  gathered :
      (missing i : ℕ)
      → i < n
      → (s : System) → Gathering n s
      → total counted n s.users + missing ≡ n
      → Passes n s i ((s.users i).rounds + 1)
  gathered zero i l s g e =
      from_counted i l (s.users i).rounds s (s.users i).pc refl
        (all_counted n s.users (omega (arith, e)) i l) (inl (omega (arith, g.count, e)))
  gathered (suc missing) i l s g e =
      let (j, lj, out) = some_uncounted n s.users (omega (arith, e)) in
      comes missing i s g e (gathered missing i l) j lj out (s.users j).pc refl

  somebody :
      {r : ℕ} {s : System} (p : Phase)
      → 0 < n
      → ((i : ℕ) → i < n → (s.users i).pc ≢ outside)
      → Inv n p r s.shared s.users
      → (i : ℕ) × (i < n) × Passes n s i ((s.users i).rounds + 1)
  somebody {s = s} gather pos calls v = (
    0,
    pos,
    gathered (n - total counted n s.users) 0 pos s
        (record {
          small = v.small;
          count = v.count;
          up = v.words;
          inside = λ i l. ground (arith, v.fits i l, calls i l);
        })
        (omega (arith, total-counted-le n s.users)),
  )
  somebody {s = s} fall pos calls v =
      let (i, l, c) = some_counted n s.users (omega (arith, v.count, v.words)) in
      (i, l, from_counted i l (s.users i).rounds s (s.users i).pc refl c (ground (arith, v.words)))
  somebody {s = s} shut pos calls v =
      let (i, l, e) = v.closer in
      (i, l, from_closing i l (s.users i).rounds s (ap (λ p. at p (s.users i).rounds) e))

-- The barrier of at least one and fewer than 2 ^ 31 users does not deadlock: from every state that can be
-- reached and in which all its users are in `barrier_wait`, steps of the users lead to a state in which one
-- of them has passed the barrier once more.
pub no_deadlock :
    {n : ℕ} {s : System}
    → n < 2 ^ 31
    → 0 < n
    → Reach n s
    → ((i : ℕ) → i < n → (s.users i).pc ≢ outside)
    → (i : ℕ) × (i < n) × Passes n s i ((s.users i).rounds + 1)
no_deadlock small pos rs calls = let (p, r, v) = Reach-Inv small rs in somebody p pos calls v
