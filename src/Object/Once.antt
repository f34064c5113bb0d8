-- ===== src/Object/Once.antt =====
-- Processes that call the same `X_get` of src/ at the same time, interleaved in any order.
use librtipc.Prelude.{ℕ, ◌+◌, ◌≤◌, ◌≡◌, ◌≢◌, arith, update}
use librtipc.Atomic.{cas32}
use librtipc.Object.{Shared}

-- Where a process stands.
pub data Pc : Type 0 where
  outside : Pc
  spinning : Pc  -- before `atomic_cas32(&lock, 0, 1)`
  testing : Pc  -- before `if (init == 0)`
  setting : Pc  -- before the contents are set up
  marking : Pc  -- before `init = 1`
  unlocking : Pc  -- before `lock = 0`
  attached : Pc  -- the call has returned, and the process uses the object

module _ (B : Type 0) (setup : B → B) where
  -- `setups` counts how often the contents have been set up.
  pub record System : Type 0 where
    pub shared : Shared B
    pub users : ℕ → Pc
    pub setups : ℕ

  pub data Step (s : System) : System → Type 0 where
    call : (i : ℕ) → s.users i ≡ outside → Step s (record s { users = update s.users i spinning })
    lose :
        (i : ℕ)
        → s.users i ≡ spinning
        → (cas32 s.shared.lock 0 1).0 ≡ 0
        → Step s (record s { shared = record s.shared { lock = (cas32 s.shared.lock 0 1).1 } })
    win :
        (i : ℕ)
        → s.users i ≡ spinning
        → (cas32 s.shared.lock 0 1).0 ≢ 0
        → Step s (record s {
          shared = record s.shared { lock = (cas32 s.shared.lock 0 1).1 };
          users = update s.users i testing;
        })
    find_new :
        (i : ℕ)
        → s.users i ≡ testing
        → s.shared.init ≡ 0
        → Step s (record s { users = update s.users i setting })
    find_old :
        (i : ℕ)
        → s.users i ≡ testing
        → s.shared.init ≢ 0
        → Step s (record s { users = update s.users i unlocking })
    set_up :
        (i : ℕ)
        → s.users i ≡ setting
        → Step s (record {
          shared = record s.shared { body = setup s.shared.body };
          users = update s.users i marking;
          setups = s.setups + 1;
        })
    mark :
        (i : ℕ)
        → s.users i ≡ marking
        → Step s
            (record s { shared = record s.shared { init = 1 }; users = update s.users i unlocking })
    unlock :
        (i : ℕ)
        → s.users i ≡ unlocking
        → Step s
            (record s { shared = record s.shared { lock = 0 }; users = update s.users i attached })
    -- whatever the operations of the object do
    work :
        (i : ℕ) (b : B)
        → s.users i ≡ attached
        → Step s (record s { shared = record s.shared { body = b } })

  -- As `shmman_create_shmseg` leaves the segment.
  abbrev pub initial : B → System
  initial b = record {
    shared = record { lock = 0; init = 0; body = b };
    users = λ _. outside;
    setups = 0;
  }

  pub data Reach (b : B) : System → Type 0 where
    start : Reach b (initial b)
    later : {s t : System} → Reach b s → Step s t → Reach b t

  abbrev Inside : Pc → Type 0
  Inside testing = Unit {0}
  Inside setting = Unit {0}
  Inside marking = Unit {0}
  Inside unlocking = Unit {0}
  Inside _ = ⊥

  -- What a process knows by where it stands.
  abbrev Knows : System → Pc → Type 0
  Knows s testing = (s.shared.init ≡ s.setups) × (s.shared.init ≤ 1)
  Knows s setting = (s.shared.init ≡ 0) × (s.setups ≡ 0)
  Knows s marking = (s.shared.init ≡ 0) × (s.setups ≡ 1)
  Knows s unlocking = (s.shared.init ≡ 1) × (s.setups ≡ 1)
  Knows s attached = (s.shared.init ≡ 1) × (s.setups ≡ 1)
  Knows s _ = Unit {0}

  pub record Inv (s : System) : Type 0 where
    pub knows : (i : ℕ) → Knows s (s.users i)
    pub alone : (i j : ℕ) → Inside (s.users i) → Inside (s.users j) → i ≡ j
    pub idle : s.shared.lock ≡ 0 → (s.shared.init ≡ s.setups) × (s.shared.init ≤ 1)
    pub out : s.shared.lock ≡ 0 → (i : ℕ) → ¬ Inside (s.users i)

  pub Step-Inv : {s t : System} → Step s t → Inv s → Inv t
  unfolding cas32
  Step-Inv (call i e) v = record {
    knows = λ a. ground (arith, v.knows a);
    alone = λ a b ha hb. ground (arith, v.alone a b);
    idle = v.idle;
    out = λ z a. ground (arith, v.out z a);
  }
  Step-Inv {s} (lose i e h) v = record {
    knows = λ a. ground (arith, v.knows a);
    alone = v.alone;
    idle = λ q. v.idle (same q);
    out = λ q a. v.out (same q) a;
  }
    where
      same : (cas32 s.shared.lock 0 1).1 ≡ 0 → s.shared.lock ≡ 0
      same q = ground arith
  Step-Inv {s} (win i e h) v = record {
    knows = λ a. ground (arith, v.knows a, v.idle z);
    alone = λ a b ha hb. ground (arith, v.out z a, v.out z b);
    idle = λ q. ground arith;
    out = λ q a. ground arith;
  }
    where
      z : s.shared.lock ≡ 0
      z = ground arith
  Step-Inv (find_new i e h) v = record {
    knows = λ a. ground (arith, v.knows a, v.knows i, v.alone i a);
    alone = λ a b ha hb. ground (arith, v.alone a b, v.alone i b, v.alone a i);
    idle = λ z. ground (arith, v.out z i);
    out = λ z a. ground (arith, v.out z i, v.out z a);
  }
  Step-Inv (find_old i e h) v = record {
    knows = λ a. ground (arith, v.knows a, v.knows i, v.alone i a);
    alone = λ a b ha hb. ground (arith, v.alone a b, v.alone i b, v.alone a i);
    idle = λ z. ground (arith, v.out z i);
    out = λ z a. ground (arith, v.out z i, v.out z a);
  }
  Step-Inv (set_up i e) v = record {
    knows = λ a. ground (arith, v.knows a, v.knows i, v.alone i a);
    alone = λ a b ha hb. ground (arith, v.alone a b, v.alone i b, v.alone a i);
    idle = λ z. ground (arith, v.out z i);
    out = λ z a. ground (arith, v.out z i, v.out z a);
  }
  Step-Inv (mark i e) v = record {
    knows = λ a. ground (arith, v.knows a, v.knows i, v.alone i a);
    alone = λ a b ha hb. ground (arith, v.alone a b, v.alone i b, v.alone a i);
    idle = λ z. ground (arith, v.out z i);
    out = λ z a. ground (arith, v.out z i, v.out z a);
  }
  Step-Inv (unlock i e) v = record {
    knows = λ a. ground (arith, v.knows a, v.knows i);
    alone = λ a b ha hb. ground (arith, v.alone a b);
    idle = λ z. ground (arith, v.knows i);
    out = λ z a. ground (arith, v.alone i a);
  }
  Step-Inv (work i b e) v = record {
    knows = λ a. ground (arith, v.knows a);
    alone = v.alone;
    idle = v.idle;
    out = v.out;
  }

  pub Reach-Inv : {b : B} {s : System} → Reach b s → Inv s
  Reach-Inv start = record {
    knows = λ a. tt;
    alone = λ a b ha hb. absurd ha;
    idle = λ z. omega arith;
    out = λ z a h. h;
  }
  Reach-Inv (later r st) = Step-Inv st (Reach-Inv r)

  -- In every interleaving of calls of `X_get` and uses of the object, at most one process is between
  -- taking the lock and releasing it.
  pub one_at_a_time :
      {b : B} {s : System} → Reach b s → (i j : ℕ) → Inside (s.users i) → Inside (s.users j) → i ≡ j
  one_at_a_time r = (Reach-Inv r).alone

  -- In every interleaving of calls of `X_get` and uses of the object, while a process sets the
  -- contents up, no process has returned from its call.
  pub set_up_alone :
      {b : B} {s : System} → Reach b s → (i j : ℕ) → s.users i ≡ setting → s.users j ≢ attached
  set_up_alone {s = s} r i j e f = ground (arith, v.knows i, v.knows j)
    where
      v : Inv s
      v = Reach-Inv r

  -- In every interleaving of calls of `X_get` and uses of the object, once a call has returned,
  -- the contents have been set up exactly once.
  pub set_up_once : {b : B} {s : System} → Reach b s → (j : ℕ) → s.users j ≡ attached → s.setups ≡ 1
  set_up_once {s = s} r j f = ground (arith, v.knows j)
    where
      v : Inv s
      v = Reach-Inv r
