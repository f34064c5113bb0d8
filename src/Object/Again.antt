-- ===== src/Object/Again.antt =====
-- A second call of `X_get` of src/ by the same process.
use librtipc.Prelude.{ℕ, suc, ◌≡◌, ◌≢◌, refl, arith, update, Option, none, some, ◌∙◌}
use librtipc.Object.{Segments, Shared, World, take_lock, init_once, join, join-free, located, get}

module _ {B : Type 0} where
  init_once-ne : (setup : B → B) (d : Shared B) → (init_once setup d).init ≢ 0
  unfolding init_once
  init_once-ne setup d = ground arith

  init_once-done : (setup : B → B) (d : Shared B) → d.init ≢ 0 → init_once setup d ≡ d
  unfolding init_once
  init_once-done setup d h = ground arith

  -- After a call the lock is free and the contents are marked as set up.
  join-some :
      (fuel : ℕ) (setup : B → B) (d d' : Shared B)
      → join fuel setup d ≡ some d'
      → (d'.lock ≡ 0) × (d'.init ≢ 0)
  join-some fuel setup d d' e = go (take_lock fuel d) (unfold join in e)
    where
      go :
          (o : Option (Shared B))
          → elim o [ none ↦ none | some x ↦ some (record (init_once setup x) { lock = 0 }) ]
            ≡ some d'
          → (d'.lock ≡ 0) × (d'.init ≢ 0)
      go none q = absurd (cc)
      go (some x) q = ground (arith, init_once-ne setup x)

  join-join :
      (fuel fuel' : ℕ) (setup setup' : B → B) (d d' : Shared B)
      → join fuel setup d ≡ some d'
      → join (suc fuel') setup' d' ≡ some d'
  join-join fuel fuel' setup setup' d d' e =
      let (free, done) = join-some fuel setup d d' e in
      join-free fuel' setup' d' free ∙ rw (init_once-done setup' d' done) (ground arith)

module _ (S : Segments) {B : Type 0} where
  -- What a successful call has done.
  record Got (fuel : ℕ) (setup : B → B) (size id a : ℕ) (w w' : World S B) : Type 0 where
    found : S.get_shmseg fuel id size w.manager ≡ some (some a, w'.manager)
    joined : join fuel setup (w.objects a) ≡ some (w'.objects a)
    objects : w'.objects ≡ update w.objects a (w'.objects a)

  got :
      (fuel : ℕ) (setup : B → B) (size id a : ℕ) (w w' : World S B)
      → get S fuel setup size id w ≡ some (some a, w')
      → Got fuel setup size id a w w'
  got fuel setup size id a w w' e = go (S.get_shmseg fuel id size w.manager) refl (unfold get in e)
    where
      go :
          (f : Option (Option ℕ × S.Manager))
          → S.get_shmseg fuel id size w.manager ≡ f
          → located S fuel setup w f ≡ some (some a, w')
          → Got fuel setup size id a w w'
      go none f q = absurd (unfold located in cc)
      go (some (none, m)) f q = absurd (unfold located in cc)
      go (some (some b, m)) f q = unfold located in ground arith

  -- After a call of `X_get` that has given an address other than NULL, a second call by the same process finds the
  -- same address and leaves manager and objects as they are: what is set up is not set up again.
  pub get-again :
      (fuel fuel' : ℕ) (setup setup' : B → B) (size size' id a : ℕ) (w w' : World S B)
      → get S fuel setup size id w ≡ some (some a, w')
      → a ≢ 0
      → get S (suc fuel') setup' size' id w' ≡ some (some a, w')
  unfolding get
  get-again fuel fuel' setup setup' size size' id a w w' e ne = ground (
    arith,
    S.get-get fuel fuel' id size size' a w.manager w'.manager found ne,
    join-join fuel fuel' setup setup' (w.objects a) (w'.objects a),
  )
    where
      open (got fuel setup size id a w w' e) use {found, joined, objects}

  -- A first call: the manager finds the segment, and nobody has its lock.
  pub get-found :
      (fuel : ℕ) (setup : B → B) (size id a : ℕ) (w : World S B) {m : S.Manager}
      → S.get_shmseg (suc fuel) id size w.manager ≡ some (some a, m)
      → (w.objects a).lock ≡ 0
      → get S (suc fuel) setup size id w
        ≡ some (
          some a,
          record {
            manager = m;
            objects = update w.objects a (record (init_once setup (w.objects a)) { lock = 0 });
          },
        )
  unfolding get
  get-found fuel setup size id a w e free = rw (e, located, join-free fuel setup (w.objects a) free)

  -- Without a segment nothing but the manager changes.
  pub get-missing :
      (fuel : ℕ) (setup : B → B) (size id : ℕ) (w : World S B) {m : S.Manager}
      → S.get_shmseg fuel id size w.manager ≡ some (none, m)
      → get S fuel setup size id w ≡ some (none, record w { manager = m })
  unfolding get
  get-missing fuel setup size id w e = rw e
