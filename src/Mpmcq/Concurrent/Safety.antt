-- ===== src/Mpmcq/Concurrent/Safety.antt =====
-- What the users of src/mpmcq.c keep in every interleaving.
use librtipc.Prelude.{
  ℕ, ◌+◌, ◌*◌, ◌<◌, ◌≤◌, ◌≡◌, ◌≢◌, inl, refl, sym, ap, ◌∙◌, arith, some, List, All, ◌∷◌, [], ◌++◌,
  update_self, ℕ_discrete, if◌then◌else◌, ◌==◌,
}
use native.Mathlib.Nat.{zero-add}
use librtipc.Memory.{Bytes}
use librtipc.Memory.Slots.{load, load_congr}
use librtipc.Lfmpscq.Chain.{IsChain, All-map}
use librtipc.Mpmcq.Concurrent.{After, User, System, hazard0, hazard1, goes, resumes}
use librtipc.Mpmcq.Concurrent.Steps.{Move, Step, Reach}
use librtipc.Mpmcq.Concurrent.Invariant.{Place, free, chained, aside, Knows, pending, Inv}
use librtipc.Mpmcq.Concurrent.Slots.{Linked-owned, announce-Inv}
use librtipc.Mpmcq.Concurrent.Freeing.{clear_next-Inv, free_slot-Inv}
use librtipc.Mpmcq.Concurrent.Linking.{link-Inv}
use librtipc.Mpmcq.Concurrent.Moves.{
  Kept, at, validated, tail-chained, next-chained, go, begin, begin_idle, keep, skip, take, copy,
  end_at, advance,
}
use librtipc.Mpmcq.Concurrent.Dequeuing.{save_next, follow, move}

module _ (m : ℕ) where
  index0 : (i : ℕ) → i < m → hazard0 i < 2 * m
  index0 i l = omega arith

  index1 : (i : ℕ) → i < m → hazard1 i < 2 * m
  index1 i l = omega arith

  beyond : (q : ℕ) → 2 * m ≤ q → ¬ (q < 2 * m)
  beyond q a b = omega arith

module _ (num_slots size m : ℕ) where
  -- Where a user goes on after `TryRetire`, it knows nothing.
  resume-Knows :
      (s : System) (place : ℕ → Place) (i : ℕ) (a : After)
      → Knows size m s place i (resumes num_slots a)
  resume-Knows s place i (After.enqueues payload) = tt
  resume-Knows s place i (After.dequeues out) = tt
  resume-Knows s place i (After.returns out taken) = tt

  resumed :
      {s : System} {place : ℕ → Place} {xs : List ℕ} (v : Inv size m s place xs) (i : ℕ) (l : i < m)
      (a : After)
      → s.users i ≡ User.sweeping a []
      → Kept size m (goes s i (resumes num_slots a))
  resumed v i l (After.enqueues payload) e =
      go size m v i l e (User.searching payload num_slots) refl (λ q t g c. tt) tt
  resumed v i l (After.dequeues out) e =
      go size m v i l e (User.starting out) refl (λ q t g c. tt) tt
  resumed v i l (After.returns out taken) e = go size m v i l e User.idle refl (λ q t g c. tt) tt

  -- Every step of a user keeps the invariant.
  Move-Inv :
      {s : System} {place : ℕ → Place} {xs : List ℕ} (v : Inv size m s place xs) (i : ℕ)
      → i < m
      → {t : System} → Move num_slots size m s i t
      → Kept size m t
  Move-Inv v i l (Move.begin_enqueue payload e) =
      begin_idle size m v i l e (After.enqueues payload) tt
  Move-Inv v i l (Move.begin_dequeue out e) = begin_idle size m v i l e (After.dequeues out) tt
  Move-Inv v i l (Move.begin_node a r rest e) =
      go size m v i l e (User.comparing a r rest 0) refl (λ q t g c o. omega arith)
        (at size m v i l e)
  Move-Inv v i l (Move.keep_node a r rest k e lt h) = keep size m v i l a r rest k e
  Move-Inv {s} v i l (Move.next_hazard a r rest k e lt h) =
      go size m v i l e (User.comparing a r rest (k + 1)) refl
        (λ q t g c o. elim (ℕ_discrete k q) [
          | yes here ↦ absurd (h (ap s.hazards here ∙ g.hazard ∙ ap some (sym o)))
          | no ne ↦ omega (arith, c o)
        ])
        (at size m v i l e)
  Move-Inv v i l (Move.no_hazard a r rest e) =
      go size m v i l e (User.clearing a r rest) refl
        (λ q t g c o. absurd (beyond m q (c o) g.index)) (at size m v i l e)
  Move-Inv v i l (Move.clear_next a r rest e) = (_, _, clear_next-Inv size m v i l a r rest e)
  Move-Inv v i l (Move.free_slot a r rest e) = (_, _, free_slot-Inv size m v i l a r rest e)
  Move-Inv v i l (Move.resume a e) = resumed v i l a e
  Move-Inv v i l (Move.give_up payload e) = go size m v i l e User.idle refl (λ q t g c. tt) tt
  Move-Inv v i l (Move.skip_slot payload rounds e u) = skip size m v i l payload rounds _ e
  Move-Inv v i l (Move.take_slot payload rounds e u) = take size m v i l payload rounds e u
  Move-Inv v i l (Move.copy_byte payload n k e lt) = copy size m v i l payload n k e
  Move-Inv {s} v i l (Move.copied payload n e) =
      let k = at size m v i l e in
      go size m v i l e (User.ending payload n) refl (λ q t g c. tt)
        (k.0, load_congr (s.bytes n) payload 0 0 size (λ j b. rw zero-add (k.1 j b)))
  Move-Inv v i l (Move.end_node payload n e) = end_at size m v i l payload n e
  Move-Inv {s} v i l (Move.read_tail payload n e) =
      go size m v i l e (User.announcing payload n s.tail) refl (λ q t g c. tt) (at size m v i l e)
  Move-Inv {s} v i l (Move.announce payload n t e) =
      let k = at size m v i l e in
      (
        _,
        _,
        announce-Inv size m v i l (User.checking payload n t) (hazard0 i) (some t) (inl refl)
            (ap aside (sym e)) (λ q t. tt)
            (
              record { mine = k.mine; whole = k.whole; end = k.end },
              update_self s.hazards (hazard0 i) (some t),
            ),
      )
  Move-Inv v i l (Move.tail_moved payload n t e ne) =
      go size m v i l e (User.looping payload n) refl (λ q t g c. tt) (at size m v i l e).0
  Move-Inv v i l (Move.tail_same payload n t e q) =
      let k = at size m v i l e in
      go size m v i l e (User.reading payload n t) refl (λ q t g c. tt)
        (
          k.0,
          (
            validated size m v i l (hazard0 i) t (index0 m i l) (tail-chained size m v i l t q) k.1,
            inl q,
          ),
        )
  Move-Inv v i l (Move.read_next payload n t x e q) =
      let k = at size m v i l e in
      go size m v i l e (User.helping payload n t x) refl (λ q t g c. tt) (k.0, k.1, q)
  Move-Inv v i l (Move.read_end payload n t e q) =
      go size m v i l e (User.linking payload n t) refl (λ q t g c. tt) (at size m v i l e)
  Move-Inv v i l (Move.help payload n t x e) =
      let k = at size m v i l e in
      advance size m v i l e t x (User.looping payload n) k.2 refl (λ q t. tt)
        (record { mine = k.0.mine; whole = k.0.whole; end = k.0.end })
  Move-Inv v i l (Move.link payload n t e q) =
      let k = at size m v i l e in (_, _, link-Inv size m v i t l payload n k.0 k.1 q (ap aside e))
  Move-Inv v i l (Move.link_failed payload n t e q) =
      go size m v i l e (User.looping payload n) refl (λ q t g c. tt) (at size m v i l e).0
  Move-Inv v i l (Move.swing n t e) =
      advance size m v i l e t n User.idle (at size m v i l e).1 refl (λ q t. tt) tt
  Move-Inv {s} v i l (Move.read_head out e) =
      go size m v i l e (User.saving out s.head) refl (λ q t g c. tt) tt
  Move-Inv {s} v i l (Move.save_head out h e) = (
    _,
    _,
    announce-Inv size m v i l (User.verifying out h) (hazard0 i) (some h) (inl refl)
        (ap aside (sym e)) (λ q t. tt) (update_self s.hazards (hazard0 i) (some h)),
  )
  Move-Inv v i l (Move.head_gone out h e ne) =
      go size m v i l e (User.starting out) refl (λ q t g c. tt) tt
  Move-Inv {place = place} v i l (Move.head_same out h e q) =
      go size m v i l e (User.locating out h) refl (λ q t g c. tt)
        (
          validated size m v i l (hazard0 i) h (index0 m i l) (ap place (sym q) ∙ v.in_list.0)
              (at size m v i l e),
          inl q,
        )
  Move-Inv {s} v i l (Move.locate_tail out h e) =
      go size m v i l e (User.following out h s.tail) refl (λ q t g c. tt)
        (at size m v i l e, λ ne hd q. ne (sym q))
  Move-Inv v i l (Move.follow out h t e) = follow size m v i l out h t e
  Move-Inv v i l (Move.save_next out h t x e) = save_next size m v i l out h t x e
  Move-Inv v i l (Move.next_gone out h t x e ne) =
      go size m v i l e (User.starting out) refl (λ q t g c. tt) tt
  Move-Inv v i l (Move.find_empty out h t e q) = go size m v i l e User.idle refl (λ q t g c. tt) tt
  Move-Inv v i l (Move.find_behind out h x e q) =
      let k = at size m v i l e in
      go size m v i l e (User.correcting out h x) refl (λ q t g c. tt) (k.0.0.0, k.0.1 x refl)
  Move-Inv v i l (Move.find_first out h t x e q ne) =
      let k = at size m v i l e in
      let link = k.0.1 x refl in
      go size m v i l e (User.moving out h x) refl (λ q t g c. tt)
        (
          k.0.0.0,
          k.0.0.1 ne,
          link,
          validated size m v i l (hazard1 i) x (index1 m i l) (next-chained size m v i l h x q link)
              k.1,
        )
  Move-Inv v i l (Move.correct out h x e) =
      advance size m v i l e h x (User.starting out) (at size m v i l e).1 refl (λ q t. tt) tt
  Move-Inv v i l (Move.move_failed out h x e ne) =
      go size m v i l e (User.starting out) refl (λ q t g c. tt) tt
  Move-Inv {xs = xs} v i l (Move.move_head out h x e q) = move size m xs v i l out h x e q
  Move-Inv {s} v i l (Move.fetch_byte out h x k taken e lt) =
      let own = at size m v i l e in
      go size m v i l e _ refl (λ q t g c. tt)
        (own.0, own.1, λ j b. let before = own.2 j in ground (arith, before))
  Move-Inv {s} v i l (Move.retire_head out h x taken e) =
      let own = at size m v i l e in
      begin size m v i l e (After.returns out taken)
        (load_congr out (s.bytes x) 0 0 size (λ j b. rw zero-add (own.2 j b)) ∙ own.1)

  Reach-Inv : {s : System} → Reach num_slots size m s → Kept size m s
  Reach-Inv (Reach.start search bytes) = (
    λ k. if k == 0 then chained else free,
    [],
    record {
      chain = refl;
      distinct = (tt, tt);
      in_list = (refl, tt);
      tail_in = inl refl;
      tail_near = inl refl;
      unused = λ k u. ground (arith, u);
      listed = λ i l. tt;
      listed_once = λ i l. tt;
      knows = λ i l. tt;
      flow = refl;
    },
  )
  Reach-Inv (Reach.later rs (Step.pick i l move)) =
      let (place, xs, v) = Reach-Inv rs in Move-Inv v i l move

  -- In every interleaving of the users no message is lost, torn, doubled or overtaken: the nodes `xs`
  -- that can be reached from the head hold what has been linked and not yet taken, whole and in order.
  pub fifo_always :
      {s : System}
      → Reach num_slots size m s
      → (xs : List ℕ) × IsChain s.nodes s.head xs × (s.sent ≡ s.taken ++ pending size m s xs)
  fifo_always rs = let (place, xs, v) = Reach-Inv rs in (xs, v.chain, v.flow)

  -- In every interleaving, a user that has moved the head and then copied its message holds in its buffer
  -- the message that the node held when the head moved.
  pub taken_whole :
      {s : System}
      → Reach num_slots size m s
      → (i : ℕ) (out : Bytes) (taken : List ℕ) (todo : List ℕ) → i < m
      → s.users i ≡ User.sweeping (After.returns out taken) todo
      → load out 0 size ≡ taken
  taken_whole rs i out taken todo l e = let (place, xs, v) = Reach-Inv rs in at size m v i l e

  -- In every interleaving, two users never prepare the same slot, nor one that can be reached from the
  -- head, nor one that another user is copying from.
  pub slots_disjoint :
      {s : System}
      → Reach num_slots size m s
      → (i j n : ℕ) (p : Bytes) (a : ℕ) → i < m
      → j < m
      → s.users i ≡ User.copying p n a
      → ((q : Bytes) (b : ℕ) → s.users j ≡ User.copying q n b → i ≡ j)
        × ((out : Bytes) (h x b : ℕ) (taken : List ℕ)
            → s.users j ≡ User.fetching out h x b taken
            → n ≢ x)
        × (xs : List ℕ) × IsChain s.nodes s.head xs
        × All (λ k. k ≢ n) (s.head ∷ xs)
  slots_disjoint {s} rs i j n p a li lj ei =
      let (place, xs, v) = Reach-Inv rs in
      let mine = (at size m v i li ei).0 in
      (
        λ q b ej. let his = (at size m v j lj ej).0 in cc (sym mine ∙ his),
        λ out h x b taken ej e.
            Linked-owned place i x (at size m v j lj ej).0.linked (sym (ap place e) ∙ mine),
        xs,
        v.chain,
        All-map _ _ (λ k c e. absurd (cc (sym c ∙ ap place e ∙ mine))) (s.head ∷ xs) v.in_list,
      )
