-- ===== src/Lfmpscq/Concurrent/Invariant.antt =====
-- What the processes of src/lfmpscq.c know by where they stand, and what holds between them.
use librtipc.Prelude.{ℕ, ◌<◌, ◌≤◌, ◌≡◌, ◌≢◌, ◌⊎◌, Option, none, some, List, [], ◌∷◌, ◌++◌, All, map}
use librtipc.Memory.{Bytes}
use librtipc.Memory.Slots.{load}
use librtipc.Lfmpscq.{Node}
use librtipc.Lfmpscq.Chain.{IsChain, last_of, Distinct}
use librtipc.Lfmpscq.Concurrent.{Producer, Consumer, System}

-- Whom a slot belongs to: nobody, a producer that prepares it, the list, or the retire list.
pub data Place : Type 0 where
  free : Place
  owned : ℕ → Place
  chained : Place
  retired : Place

-- The nodes that the consumer is going through.
abbrev pub aside : Consumer → List ℕ
aside (Consumer.sweeping todo) = todo
aside (Consumer.comparing r rest k) = r ∷ rest
aside (Consumer.clearing r rest) = r ∷ rest
aside (Consumer.freeing r rest) = r ∷ rest
aside _ = []

-- The consumer will not free slot `t` before it looks at the shared index of process `i`.
abbrev pub Clear : Consumer → ℕ → ℕ → Type 0
Clear (Consumer.comparing r rest k) i t = r ≡ t → k ≤ i
Clear (Consumer.clearing r rest) i t = r ≢ t
Clear (Consumer.freeing r rest) i t = r ≢ t
Clear _ i t = Unit

abbrev pub Linked : Place → Type 0
Linked p = (p ≡ chained) ⊎ (p ≡ retired)

-- Process `i` has made sure of slot `t`: it stays what it is.
pub record IsGuarded (tail : ℕ) (nodes : ℕ → Node) (hazards : ℕ → Option ℕ) (c : Consumer)
    (place : ℕ → Place) (i t : ℕ) : Type 0 where
  pub linked : Linked (place t)
  pub known : (tail ≡ t) ⊎ ((nodes t).next ≢ none)
  pub hazard : hazards i ≡ some t
  pub clear : Clear c i t

abbrev pub Guarded : System → (ℕ → Place) → ℕ → ℕ → Type 0
Guarded s place i t = IsGuarded s.tail s.nodes s.hazards s.consumer place i t

-- Slot `n` of process `i` holds the message of `size` bytes.
pub record IsFilled (size : ℕ) (nodes : ℕ → Node) (bytes : ℕ → Bytes) (place : ℕ → Place) (i : ℕ)
    (payload : Bytes) (n : ℕ) : Type 0 where
  pub mine : place n ≡ owned i
  pub whole : load (bytes n) 0 size ≡ load payload 0 size
  pub end : (nodes n).next ≡ none

module _ (size : ℕ) where
  abbrev pub Filled : System → (ℕ → Place) → ℕ → Bytes → ℕ → Type 0
  Filled s place i payload n = IsFilled size s.nodes s.bytes place i payload n

  abbrev pub Knows : System → (ℕ → Place) → ℕ → Producer → Type 0
  Knows s place i (Producer.copying payload n k) =
      (place n ≡ owned i) × ((j : ℕ) → j < k → s.bytes n j ≡ payload j)
  Knows s place i (Producer.ending payload n) =
      (place n ≡ owned i) × (load (s.bytes n) 0 size ≡ load payload 0 size)
  Knows s place i (Producer.looping payload n) = Filled s place i payload n
  Knows s place i (Producer.announcing payload n t) = Filled s place i payload n
  Knows s place i (Producer.checking payload n t) =
      Filled s place i payload n × (s.hazards i ≡ some t)
  Knows s place i (Producer.reading payload n t) = Filled s place i payload n × Guarded s place i t
  Knows s place i (Producer.helping payload n t t_next) =
      Filled s place i payload n × Guarded s place i t × ((s.nodes t).next ≡ some t_next)
  Knows s place i (Producer.linking payload n t) = Filled s place i payload n × Guarded s place i t
  Knows s place i (Producer.swinging n t) = Guarded s place i t × ((s.nodes t).next ≡ some n)
  Knows s place i _ = Unit

  abbrev pub ConsumerKnows : System → Consumer → Type 0
  ConsumerKnows s (Consumer.at_head out h) = s.head ≡ h
  ConsumerKnows s (Consumer.copying out h x k) =
      (s.head ≡ h) × ((s.nodes h).next ≡ some x) × ((j : ℕ) → j < k → out j ≡ s.bytes x j)
  ConsumerKnows s _ = Unit

  abbrev pub pending : System → List ℕ → List (List ℕ)
  pending s xs = map (λ k. load (s.bytes k) 0 size) xs

  -- `xs` are the nodes of the list behind the head.
  pub record Inv (max_user : ℕ) (s : System) (place : ℕ → Place) (xs : List ℕ) : Type 0 where
    pub chain : IsChain s.nodes s.head xs
    pub distinct : Distinct (s.head ∷ xs)
    pub in_list : All (λ k. place k ≡ chained) (s.head ∷ xs)
    pub tail_in : place s.tail ≡ chained
    pub tail_near :
        (s.tail ≡ last_of s.head xs) ⊎ ((s.nodes s.tail).next ≡ some (last_of s.head xs))
    pub unused : (k : ℕ) → (s.nodes k).used ≡ 0 → place k ≡ free
    pub listed : All (λ k. place k ≡ retired) (s.retired ++ aside s.consumer)
    pub listed_once : Distinct (s.retired ++ aside s.consumer)
    pub knows : (i : ℕ) → i < max_user → Knows s place i (s.producers i)
    pub consumer_knows : ConsumerKnows s s.consumer
    pub flow : s.sent ≡ s.got ++ pending s xs
