-- ===== src/Wfmpscq/Fifo.antt =====
-- The functions of src/wfmpscq.c as operations on the messages of all writers and their ids.
use mathlib.Core.Path.{subst}
use librtipc.Prelude.{
  ℕ, ◌+◌, ◌*◌, ◌%◌, ◌≤◌, ◌<◌, ◌≡◌, ◌≢◌, ◌⊎◌, inl, inr, refl, ap, sym, ◌∙◌, arith, List, [], ◌∷◌,
  ◌++◌, All, Option, none, some, update, true, ==_of_eq, ==_of_ne, ℕ_discrete,
}
use librtipc.Memory.{Bytes, memcpy}
use librtipc.Memory.Slots.{load, load-memcpy}
use librtipc.Ring.{after-lt, contents-empty, contents-front}
use librtipc.Wfmpscq.{
  Descriptor, id_absolute, Segment, Dequeued, enqueue, dequeue, dequeue_by, take_from, find_min,
  max_id, head_id,
}
use librtipc.Wfmpscq.Minimum.{Holds, Found, find_min-Found}
use librtipc.Wfmpscq.Entries.{Entry, slot, entries, IsValid, enqueue_lem, enqueue-IsValid}

-- Every id is less than those that follow.
abbrev pub Rising : List Entry → Type 0
Rising [] = Unit
Rising (e ∷ es) = All (λ f. e.0 < f.0) es × Rising es

-- The ids of each ring rise, and all have been given out before the next one, which does not wrap
-- round as an unsigned int.
pub record IsOrdered (qd : Descriptor) (s : Segment) : Type 0 where
  pub valid : IsValid qd s
  pub small : s.id_cnt ≤ max_id
  pub given : (i : ℕ) → i < qd.num_writer → All (λ e. e.0 < s.id_cnt) (entries qd s i)
  pub rising : (i : ℕ) → i < qd.num_writer → Rising (entries qd s i)

module _ {qd : Descriptor} {s : Segment} (v : IsValid qd s) where
  -- The ring without its first message.
  abbrev popped : ℕ → Segment
  popped i = record s {
    queues =
        update s.queues i (record (s.queues i) { head = ((s.queues i).head + 1) % qd.num_slots });
  }

  entries-empty : (i : ℕ) → (s.queues i).head ≡ (s.queues i).tail → entries qd s i ≡ []
  unfolding entries
  entries-empty i e = contents-empty qd.num_slots (slot qd s i) _ _ e

  entries-popped :
      (i : ℕ)
      → i < qd.num_writer
      → Holds qd s i
      → entries qd s i ≡ slot qd s i (s.queues i).head ∷ entries qd (popped i) i
  unfolding entries
  entries-popped i h held =
      rw (==_of_eq i i refl)
        (contents-front qd.num_slots (slot qd s i) _ _ (v.head_in i h) (v.tail_in i h) held)

  entries-popped_ne : (i j : ℕ) → j ≢ i → entries qd (popped i) j ≡ entries qd s j
  unfolding entries
  entries-popped_ne i j ne = rw (==_of_ne i j (λ e. ne (sym e)))

  popped-IsValid : (i : ℕ) → i < qd.num_writer → IsValid qd (popped i)
  popped-IsValid i h = record {
    head_in = λ j l.
        ground (arith, v.head_in j l, v.head_in i h, after-lt qd.num_slots (s.queues i).head);
    tail_in = λ j l. ground (arith, v.tail_in j l);
  }

-- What a call of `wfmpscq_dequeue` comes to.
abbrev pub NothingLeft : Descriptor → Bytes → Segment → Dequeued → Type 0
NothingLeft qd out s d =
    ((i : ℕ) → i < qd.num_writer → entries qd s i ≡ [])
    × (d.ret ≡ max_id)
    × (d.out ≡ out)
    × (d.segment ≡ s)

pub record TakesOldest (qd : Descriptor) (s : Segment) (d : Dequeued) : Type 0 where
  pub ring : ℕ
  pub in_range : ring < qd.num_writer
  pub first :
      entries qd s ring ≡ (d.ret, load d.out 0 qd.node_data_size) ∷ entries qd d.segment ring
  pub others : (i : ℕ) → i ≢ ring → entries qd d.segment i ≡ entries qd s i
  pub kept : (d.segment.id_cnt ≡ s.id_cnt) × IsValid qd d.segment
  pub oldest : (i : ℕ) → i < qd.num_writer → All (λ e. d.ret ≤ e.0) (entries qd s i)

All-weaken {ℓ κ} :
    {A : Type ℓ} (P Q : A → Type κ) → ((a : A) → P a → Q a) → (xs : List A) → All P xs → All Q xs
All-weaken P Q f [] h = tt
All-weaken P Q f (x ∷ xs) h = (f x h.0, All-weaken P Q f xs h.1)

-- A bound on the first id of a rising list bounds all.
Rising-bound :
    (m : ℕ) (e : Entry) (es : List Entry) → m ≤ e.0 → Rising (e ∷ es) → All (λ f. m ≤ f.0) (e ∷ es)
Rising-bound m e es h r = (h, All-weaken _ _ (λ f l. omega arith) es r.0)

module _ {qd : Descriptor} {s : Segment} (o : IsOrdered qd s) (out : Bytes) (lastqueue : ℕ) where
  bounded :
      (m : ℕ) (i : ℕ)
      → i < qd.num_writer
      → (Holds qd s i → m ≤ head_id qd s i)
      → All (λ e. m ≤ e.0) (entries qd s i)
  bounded m i h le = elim (ℕ_discrete (s.queues i).head (s.queues i).tail) [
    | yes e ↦ rw (entries-empty o.valid i e) tt
    | no ne ↦ rw (entries-popped o.valid i h ne) (
        Rising-bound m (slot qd s i (s.queues i).head) _ (le ne)
          (rw (entries-popped o.valid i h ne) at (o.rising i h)))
  ]

  none_left :
      (m : ℕ)
      → ((j : ℕ) → j < qd.num_writer → Holds qd s j → max_id ≤ head_id qd s j)
      → (i : ℕ) → i < qd.num_writer
      → entries qd s i ≡ []
  none_left m large i h = elim (ℕ_discrete (s.queues i).head (s.queues i).tail) [
    | yes e ↦ entries-empty o.valid i e
    | no ne ↦
        let first = (rw (entries-popped o.valid i h ne) at (o.given i h)).0 in
        absurd (omega (arith, large i h ne, o.small))
  ]

  taken :
      (q : ℕ)
      → q < qd.num_writer
      → Holds qd s q
      → ((j : ℕ) → j < qd.num_writer → Holds qd s j → head_id qd s q ≤ head_id qd s j)
      → TakesOldest qd s (take_from qd (some q) (head_id qd s q) out lastqueue s)
  unfolding take_from
  taken q h held least = record {
    ring = q;
    in_range = h;
    first =
        entries-popped o.valid q h held
        ∙ ap (λ m. (head_id qd s q, m) ∷ entries qd (popped o.valid q) q) (sym copied);
    others = λ i ne. entries-popped_ne o.valid q i ne;
    kept = (refl, popped-IsValid o.valid q h);
    oldest = λ i l. bounded (head_id qd s q) i l (least i l);
  }
    where
      head : ℕ
      head = (s.queues q).head

      place :
          q * qd.num_slots * qd.node_data_size + head * qd.node_data_size
          ≡ (q * qd.num_slots + head) * qd.node_data_size
      place = omega arith

      copied :
          load
            (memcpy out 0 s.payloads
              (q * qd.num_slots * qd.node_data_size + head * qd.node_data_size)
              qd.node_data_size)
            0
            qd.node_data_size
          ≡ load s.payloads ((q * qd.num_slots + head) * qd.node_data_size) qd.node_data_size
      copied = rw place (load-memcpy out 0 s.payloads _ qd.node_data_size)

  from_found :
      (f : ℕ × Option ℕ)
      → Found qd s qd.num_writer 0 max_id none f
      → NothingLeft qd out s (take_from qd f.1 f.0 out lastqueue s)
        ⊎ TakesOldest qd s (take_from qd f.1 f.0 out lastqueue s)
  from_found (m, r) f = elim f.from [
    | inl (a, b) ↦ rw b (
        inl (
          unfold take_from in
          (
            none_left m (λ j l held. rw (← a) (f.below j (omega arith) (omega arith) held)),
            refl,
            refl,
            refl,
          )))
    | inr (j, a, b, c, d, e) ↦
        rw (b, ← d)
          (inr (
            taken j (omega arith) c
              (λ k l held. rw d (f.below k (omega arith) (omega arith) held))))
  ]

  -- If the ids of each ring rise and have not wrapped round, and the indices are in range,
  -- `wfmpscq_dequeue` by ids returns -1 and changes nothing when all rings are empty. Otherwise it
  -- takes the first message of one ring, returns its id, gives its bytes and leaves the other
  -- rings alone; and no message in any ring has a lesser id.
  pub dequeue-oldest :
      qd.dqstrat ≡ id_absolute
      → let d = dequeue qd out lastqueue s in NothingLeft qd out s d ⊎ TakesOldest qd s d
  unfolding dequeue
  dequeue-oldest e =
      subst
        (λ st.
          NothingLeft qd out s (dequeue_by st qd out lastqueue s)
          ⊎ TakesOldest qd s (dequeue_by st qd out lastqueue s))
        (sym e)
        (from_found (find_min qd s qd.num_writer 0 max_id none)
          (find_min-Found qd s qd.num_writer 0 max_id none))

All-snoc {ℓ κ} :
    {A : Type ℓ} (P : A → Type κ) (xs : List A) (x : A) → All P xs → P x → All P (xs ++ (x ∷ []))
All-snoc P [] x h p = (p, tt)
All-snoc P (y ∷ xs) x h p = (h.0, All-snoc P xs x h.1 p)

Rising-snoc :
    (es : List Entry) (e : Entry) → Rising es → All (λ f. f.0 < e.0) es → Rising (es ++ (e ∷ []))
Rising-snoc [] e r h = (tt, tt)
Rising-snoc (x ∷ es) e r h = (All-snoc _ es e r.0 h.0, Rising-snoc es e r.1 h.1)

-- On x86-64, while the next id is below 0xffffffff, `wfmpscq_enqueue` of a writer that has a ring
-- keeps the indices in range, the ids of each ring rising, and all of them below the next id.
pub enqueue-IsOrdered :
    {qd : Descriptor} {s : Segment} (payload : Bytes)
    → IsOrdered qd s
    → qd.writer_id < qd.num_writer
    → s.id_cnt < max_id
    → IsOrdered qd (enqueue true qd payload s).1
enqueue-IsOrdered {qd} {s} payload o own lt = elim (enqueue_lem o.valid payload own) [
  | inl (full, failed, same) ↦ subst (IsOrdered qd) (sym same) o
  | inr (done, cnt, new, old) ↦ record {
    valid = enqueue-IsValid o.valid payload own true;
    small = omega arith;
    given = λ i h. elim (ℕ_discrete i w) [
      | yes e ↦
          rw (e, new)
            (All-snoc _ (entries qd s w) _ (All-weaken _ _ (λ f l. omega arith) _ (o.given w own))
              (omega arith))
      | no ne ↦ rw (old i h ne) (All-weaken _ _ (λ f l. omega arith) _ (o.given i h))
    ];
    rising = λ i h. elim (ℕ_discrete i w) [
      | yes e ↦
          rw (e, new)
            (Rising-snoc (entries qd s w) _ (o.rising w own)
              (All-weaken _ _ (λ f l. omega arith) _ (o.given w own)))
      | no ne ↦ rw (old i h ne) (o.rising i h)
    ];
  }
]
  where
    w : ℕ
    w = qd.writer_id

-- `wfmpscq_dequeue` by ids keeps the indices in range, the ids of each ring rising, and all of
-- them below the next id.
pub dequeue-IsOrdered :
    {qd : Descriptor} {s : Segment} (out : Bytes) (lastqueue : ℕ)
    → IsOrdered qd s
    → qd.dqstrat ≡ id_absolute
    → IsOrdered qd (dequeue qd out lastqueue s).segment
dequeue-IsOrdered {qd} {s} out lastqueue o e = elim (dequeue-oldest o out lastqueue e) [
  | inl (empty, ret, same, unchanged) ↦ subst (IsOrdered qd) (sym unchanged) o
  | inr t ↦ record {
    valid = t.kept.1;
    small = omega (arith, t.kept.0, o.small);
    given = λ i h. elim (ℕ_discrete i t.ring) [
      | yes q ↦ rw (q, t.kept.0) (rw t.first at (o.given t.ring t.in_range)).1
      | no ne ↦ rw (t.others i ne, t.kept.0) (o.given i h)
    ];
    rising = λ i h. elim (ℕ_discrete i t.ring) [
      | yes q ↦ rw q (rw t.first at (o.rising t.ring t.in_range)).1
      | no ne ↦ rw (t.others i ne) (o.rising i h)
    ];
  }
]
