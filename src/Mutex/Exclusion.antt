-- ===== src/Mutex/Exclusion.antt =====
-- What the mutex of src/mutex.c promises.
use librtipc.Prelude.{
  ◌==◌, if◌then◌else◌, some, none, ℕ, zero, suc, ◌≤◌, ◌≡◌, refl, true, false, none, some, update,
  arith, ◌↔◌, ℕ_discrete,
}
use librtipc.Status.{ok}
use librtipc.Mutex.{
  MutexData, trylock, spin_lock, unlock, System, succeeded, Step, attempt, release, Reach, start,
  later,
}

pub record Inv (s : System) : Type 0 where
  pub word : s.shared.mutex ≤ 1
  pub free : s.shared.mutex ≡ 0 → (i : ℕ) → s.holds i ≡ false
  pub held : s.shared.mutex ≡ 1 → (i : ℕ) × (s.holds i ≡ true)
  pub one : (i j : ℕ) → s.holds i ≡ true → s.holds j ≡ true → i ≡ j

attempt-Inv :
    {s : System} (i : ℕ)
    → Inv s
    → s.holds i ≡ false
    → Inv (record {
      shared = (trylock s.shared).1;
      holds = update s.holds i (succeeded (trylock s.shared).0);
    })
unfolding trylock
attempt-Inv {s} i v e = elim (ℕ_discrete s.shared.mutex 0) [
  | yes z ↦ record {
    word = ground arith;
    free = λ q k. ground arith;
    held = λ q. (i, ground arith);
    one = λ a b ha hb. ground (arith, v.free z a, v.free z b);
  }
  | no nz ↦ record {
    word = ground (arith, v.word);
    free = λ q k. ground arith;
    held = λ q. let (j, h) = v.held (omega (arith, v.word)) in (j, ground arith);
    one = λ a b ha hb. ground (arith, v.one a b);
  }
]

release-Inv :
    {s : System} (i : ℕ)
    → Inv s
    → s.holds i ≡ true
    → Inv (record { shared = unlock s.shared; holds = update s.holds i false })
unfolding unlock
release-Inv {s} i v e = record {
  word = omega arith;
  free = λ q k. ground (arith, v.one i k);
  held = λ q. absurd (omega arith);
  one = λ a b ha hb. ground (arith, v.one a b);
}

pub Step-Inv : {s t : System} → Step s t → Inv s → Inv t
Step-Inv (attempt i e) v = attempt-Inv i v e
Step-Inv (release i e) v = release-Inv i v e

pub Reach-Inv : {s : System} → Reach s → Inv s
Reach-Inv start = record {
  word = omega arith;
  free = λ q i. refl;
  held = λ q. absurd (omega arith);
  one = λ a b ha hb. absurd (cc);
}
Reach-Inv (later r st) = Step-Inv st (Reach-Inv r)

trylock-ok : (m : MutexData) → ((trylock m).0 ≡ ok) ↔ (m.mutex ≡ 0)
unfolding trylock
trylock-ok m = (λ e. ground arith, λ e. ground arith)

-- Where nobody holds the mutex, its word is 0.
unheld : {s : System} → Inv s → ((i : ℕ) → s.holds i ≡ false) → s.shared.mutex ≡ 0
unheld {s} v h = elim (ℕ_discrete s.shared.mutex 0) [
  | yes z ↦ z
  | no nz ↦ let (i, held) = v.held (omega (arith, v.word)) in absurd (ground (arith, h i))
]

-- In every interleaving of attempts and releases, at most one process holds the mutex.
pub mutual_exclusion :
    {s : System} → Reach s → (i j : ℕ) → s.holds i ≡ true → s.holds j ≡ true → i ≡ j
mutual_exclusion r = (Reach-Inv r).one

-- In every interleaving, an attempt to take the mutex succeeds exactly when nobody holds it.
pub trylock_iff :
    {s : System} → Reach s → ((trylock s.shared).0 ≡ ok) ↔ ((i : ℕ) → s.holds i ≡ false)
trylock_iff {s} r =
    let v = Reach-Inv r in
    (λ e. v.free ((trylock-ok s.shared).0 e), λ h. (trylock-ok s.shared).1 (unheld v h))

-- While no other process moves, `mutex_lock` takes a free mutex in its first round, and waits for ever
-- on one that is taken.
pub spin_lock_lem :
    (m : MutexData) (fuel : ℕ)
    → spin_lock (suc fuel) m ≡ (if m.mutex == 0 then some (record m { mutex = 1 }) else none)
unfolding spin_lock
spin_lock_lem m zero = ground arith
spin_lock_lem m (suc fuel) = ground (arith, spin_lock_lem m fuel)
