-- ===== src/Wfmpscq/Concurrent/Seen.antt =====
-- What was in the rings of src/wfmpscq.c when the last call of `wfmpscq_dequeue` began.
use librtipc.Prelude.{
  ℕ, ◌≡◌, refl, sym, ap, ◌∙◌, List, [], ◌∷◌, ◌++◌, All, append-nil, append_assoc,
}
use librtipc.Ring.{contents-empty}
use librtipc.Wfmpscq.Concurrent.{Consumer, Message, System}
use librtipc.Wfmpscq.Concurrent.Steps.{Move, in_flight, begun}
use librtipc.Wfmpscq.Concurrent.Consuming.{Inv}
use librtipc.Wfmpscq.Concurrent.Order.{Move-sent, Move-history}

module _ {A : Type 0} where
  tail_of : List A → List A
  tail_of [] = []
  tail_of (x ∷ xs) = xs

  append-cancel : (xs ys zs : List A) → xs ++ ys ≡ xs ++ zs → ys ≡ zs
  append-cancel [] ys zs e = e
  append-cancel (x ∷ xs) ys zs e = append-cancel xs ys zs (unfold tail_of in ap tail_of e)

  append-nil_left : (xs ys : List A) → xs ++ ys ≡ [] → xs ≡ []
  append-nil_left [] ys e = refl
  append-nil_left (x ∷ xs) ys e = absurd (cc e)

  pub All-left : (P : A → Type 0) (xs ys : List A) → All P (xs ++ ys) → All P xs
  All-left P [] ys a = tt
  All-left P (x ∷ xs) ys a = (a.0, All-left P xs ys a.1)

  pub All-right : (P : A → Type 0) (xs ys : List A) → All P (xs ++ ys) → All P ys
  All-right P [] ys a = a
  All-right P (x ∷ xs) ys a = All-right P xs ys a.1

-- What was in ring `j` when the call began has been enqueued and not yet dequeued.
abbrev pub Grown : System → ℕ → Type 0
Grown s j = (more : List Message) × (s.sent j ≡ s.got j ++ (s.seen j ++ more))

module _ (n size num_writer : ℕ) where
  pub Grown-Move :
      {s t : System} (i : ℕ) → Move n size num_writer s i t → (j : ℕ) → Grown s j → Grown t j
  Grown-Move {s} {t} i m j g =
      let (new, e) = Move-sent n size num_writer i m j in
      let h = Move-history n size num_writer i m in
      (
        g.0 ++ new,
        e
            ∙ ap (λ l. l ++ new) g.1
            ∙ append_assoc (s.got j) (s.seen j ++ g.0) new
            ∙ ap (λ l. s.got j ++ l) (append_assoc (s.seen j) g.0 new)
            ∙ ap (λ w. w j ++ (s.seen j ++ (g.0 ++ new))) (sym h.0)
            ∙ ap (λ w. t.got j ++ (w j ++ (g.0 ++ new))) (sym h.1),
      )

  module _ {s : System} (v : Inv n size s) where
    -- What was in a ring when the call began is at its front.
    pub seen-in_flight : (i : ℕ) (g : Grown s i) → in_flight n size num_writer s i ≡ s.seen i ++ g.0
    seen-in_flight i g = append-cancel (s.got i) _ _ (sym (v.rings i).flow ∙ g.1)

    pub seen_empty : (i : ℕ) → Grown s i → (s.queues i).head ≡ (s.queues i).tail → s.seen i ≡ []
    seen_empty i g e =
        append-nil_left (s.seen i) g.0
          (sym (seen-in_flight i g) ∙ contents-empty n _ (s.queues i).head (s.queues i).tail e)

    pub Grown-begun : (c : Consumer) (j : ℕ) → Grown (begun n size num_writer s c) j
    Grown-begun c j = (
      [],
      (v.rings j).flow
          ∙ ap (λ l. s.got j ++ l) (sym (append-nil (in_flight n size num_writer s j))),
    )
