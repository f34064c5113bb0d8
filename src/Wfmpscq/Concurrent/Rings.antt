-- ===== src/Wfmpscq/Concurrent/Rings.antt =====
-- What a ring of src/wfmpscq.c and its producer keep, and what the consumer knows of the rings.
use librtipc.Prelude.{ℕ, ◌<◌, ◌≡◌, ◌≢◌, sym, ap, ◌∙◌, some, List, ◌++◌, ℕ_discrete}
use mathlib.Core.Path.{subst}
use librtipc.Memory.{Bytes}
use librtipc.Memory.Slots.{load}
use librtipc.Ring.{after, contents}
use librtipc.Wfmpscq.{Queue}
use librtipc.Wfmpscq.Concurrent.{Producer, Consumer, Message, System}

-- One ring, its producer and its history
pub record Ring : Type 0 where
  pub queue : Queue
  pub ids : ℕ → ℕ
  pub bytes : ℕ → Bytes
  pub producer : Producer
  pub sent : List Message
  pub got : List Message

abbrev pub ring_of : System → ℕ → Ring
ring_of s i = record {
  queue = s.queues i;
  ids = s.ids i;
  bytes = s.bytes i;
  producer = s.producers i;
  sent = s.sent i;
  got = s.got i;
}

module _ (n size : ℕ) where
  -- The messages in the ring, oldest first
  abbrev pub held : Ring → List Message
  held r =
      contents n (λ k. record { id = r.ids k; body = load (r.bytes k) 0 size }) r.queue.head
        r.queue.tail

  -- There is room, and `k` bytes are in the slot at the tail.
  abbrev pub Copied : Ring → Bytes → ℕ → Type 0
  Copied r payload k =
      (after n r.queue.tail ≢ r.queue.head) × ((j : ℕ) → j < k → r.bytes r.queue.tail j ≡ payload j)

  abbrev pub PutSoFar : Ring → Producer → Type 0
  PutSoFar r Producer.idle = Unit
  PutSoFar r (Producer.counting payload) = after n r.queue.tail ≢ r.queue.head
  PutSoFar r (Producer.copying payload id k) = Copied r payload k
  PutSoFar r (Producer.stamping payload id) = Copied r payload size
  PutSoFar r (Producer.publishing payload id) = Copied r payload size × (r.ids r.queue.tail ≡ id)

  pub record RingInv (r : Ring) : Type 0 where
    pub head_in : r.queue.head < n
    pub tail_in : r.queue.tail < n
    pub put_part : PutSoFar r r.producer
    pub flow : r.sent ≡ r.got ++ held r

-- Ring `q` has a first message, and its id is `id`.
abbrev pub First : (ℕ → Ring) → ℕ → ℕ → Type 0
First rs q id = ((rs q).queue.head ≢ (rs q).queue.tail) × ((rs q).ids (rs q).queue.head ≡ id)

abbrev pub TakenSoFar : (ℕ → Ring) → Consumer → Type 0
TakenSoFar rs (Consumer.scanning out i min_id q) = (k : ℕ) → q ≡ some k → First rs k min_id
TakenSoFar rs (Consumer.weighing out i min_id q) =
    ((rs i).queue.head ≢ (rs i).queue.tail) × ((k : ℕ) → q ≡ some k → First rs k min_id)
TakenSoFar rs (Consumer.naming out q) = (rs q).queue.head ≢ (rs q).queue.tail
TakenSoFar rs (Consumer.copying out q msg_id k) =
    First rs q msg_id × ((j : ℕ) → j < k → out j ≡ (rs q).bytes (rs q).queue.head j)
TakenSoFar rs _ = Unit

-- A step that leaves the first message of a ring where it is
pub record Stays (r r' : Ring) : Type 0 where
  pub same_head : r'.queue.head ≡ r.queue.head
  pub used : r.queue.head ≢ r.queue.tail → r'.queue.head ≢ r'.queue.tail
  pub same_id : r.queue.head ≢ r.queue.tail → r'.ids r.queue.head ≡ r.ids r.queue.head
  pub same_bytes : r.queue.head ≢ r.queue.tail → r'.bytes r.queue.head ≡ r.bytes r.queue.head

pub Stays-refl : (r : Ring) → Stays r r
Stays-refl r = record {
  same_head = λ i. r.queue.head;
  used = λ ne. ne;
  same_id = λ ne i. r.ids r.queue.head;
  same_bytes = λ ne i. r.bytes r.queue.head;
}

module _ {rs rs' : ℕ → Ring} (f : (k : ℕ) → Stays (rs k) (rs' k)) where
  First-frame : (q id : ℕ) → First rs q id → First rs' q id
  First-frame q id k = ((f q).used k.0, ap (rs' q).ids (f q).same_head ∙ (f q).same_id k.0 ∙ k.1)

  pub TakenSoFar-frame : (c : Consumer) → TakenSoFar rs c → TakenSoFar rs' c
  TakenSoFar-frame Consumer.idle h = tt
  TakenSoFar-frame (Consumer.scanning out i min_id q) h = λ k e. First-frame k min_id (h k e)
  TakenSoFar-frame (Consumer.weighing out i min_id q) h =
      ((f i).used h.0, λ k e. First-frame k min_id (h.1 k e))
  TakenSoFar-frame (Consumer.turning out rounds) h = tt
  TakenSoFar-frame (Consumer.naming out q) h = (f q).used h
  TakenSoFar-frame (Consumer.copying out q msg_id k) h = (
    First-frame q msg_id h.0,
    λ j l.
        h.1 j l ∙ sym (ap (λ b. b j) (ap (rs' q).bytes (f q).same_head ∙ (f q).same_bytes h.0.0)),
  )

-- A step on ring `i` alone
pub rings-update {ℓ} :
    (P : Ring → Type ℓ) (rs rs' : ℕ → Ring) (i : ℕ) (r : Ring)
    → rs' i ≡ r
    → ((j : ℕ) → j ≢ i → rs' j ≡ rs j)
    → P r
    → ((j : ℕ) → P (rs j))
    → (j : ℕ) → P (rs' j)
rings-update P rs rs' i r at away own old j = elim (ℕ_discrete j i) [
  | yes e ↦ subst P (sym (ap rs' e ∙ at)) own
  | no ne ↦ subst P (sym (away j ne)) (old j)
]

pub Stays-update :
    (rs rs' : ℕ → Ring) (i : ℕ) (r : Ring)
    → rs' i ≡ r
    → ((j : ℕ) → j ≢ i → rs' j ≡ rs j)
    → Stays (rs i) r
    → (j : ℕ) → Stays (rs j) (rs' j)
Stays-update rs rs' i r at away own j = elim (ℕ_discrete j i) [
  | yes e ↦ subst (λ k. Stays (rs k) (rs' k)) (sym e) (subst (Stays (rs i)) (sym at) own)
  | no ne ↦ subst (Stays (rs j)) (sym (away j ne)) (Stays-refl (rs j))
]
