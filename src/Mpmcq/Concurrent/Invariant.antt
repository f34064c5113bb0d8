-- ===== src/Mpmcq/Concurrent/Invariant.antt =====
-- What the users of src/mpmcq.c know by where they stand, and what holds between them.
use librtipc.Prelude.{
  ℕ, ◌*◌, ◌<◌, ◌≤◌, ◌≡◌, ◌≢◌, ◌⊎◌, Option, none, some, List, [], ◌∷◌, ◌++◌, All, map,
}
use librtipc.Memory.{Bytes}
use librtipc.Memory.Slots.{load}
use librtipc.Lfmpscq.{Node}
use librtipc.Lfmpscq.Chain.{IsChain, last_of, Distinct}
use librtipc.Mpmcq.Concurrent.{After, User, System, hazard0, hazard1}

-- Whom a slot belongs to: nobody, a user that prepares it, the list, or a user that has retired it.
pub data Place : Type 0 where
  free : Place
  owned : ℕ → Place
  chained : Place
  retired_by : ℕ → Place

-- Nobody but user `i` has to do with the slot.
abbrev pub Private : ℕ → Place → Type 0
Private i free = Unit
Private i (owned j) = j ≡ i
Private i chained = ⊥
Private i (retired_by j) = j ≡ i

-- The nodes that a user has retired and not yet put into its list, or taken out of it
abbrev pub aside : User → List ℕ
aside (User.sweeping a todo) = todo
aside (User.comparing a r rest k) = r ∷ rest
aside (User.clearing a r rest) = r ∷ rest
aside (User.freeing a r rest) = r ∷ rest
aside (User.fetching out h x k m) = h ∷ []
aside _ = []

-- The user will not free slot `t` before it looks at shared index `q`.
abbrev pub Clear : User → ℕ → ℕ → Type 0
Clear (User.comparing a r rest k) q t = r ≡ t → k ≤ q
Clear (User.clearing a r rest) q t = r ≢ t
Clear (User.freeing a r rest) q t = r ≢ t
Clear _ q t = Unit

abbrev pub Linked : Place → Type 0
Linked p = (p ≡ chained) ⊎ ((j : ℕ) × (p ≡ retired_by j))

module _ (max_user : ℕ) where
  -- Shared index `q` keeps slot `t` what it is.
  pub record IsGuarded (hazards : ℕ → Option ℕ) (users : ℕ → User) (place : ℕ → Place) (q t : ℕ)
      : Type 0 where
    pub index : q < 2 * max_user
    pub linked : Linked (place t)
    pub hazard : hazards q ≡ some t
    pub clear : (j : ℕ) → j < max_user → Clear (users j) q t

  abbrev pub Guarded : System → (ℕ → Place) → ℕ → ℕ → Type 0
  Guarded s place q t = IsGuarded s.hazards s.users place q t

-- The tail is at slot `t`, or has left it.
abbrev pub TailKnown : System → ℕ → Type 0
TailKnown s t = (s.tail ≡ t) ⊎ ((s.nodes t).next ≢ none)

-- The head is at slot `h`, or has left it.
abbrev pub HeadKnown : System → (ℕ → Place) → ℕ → Type 0
HeadKnown s place h = (s.head ≡ h) ⊎ ((j : ℕ) × (place h ≡ retired_by j))

-- The tail is not at slot `h` while the head is.
abbrev pub Ahead : System → ℕ → Type 0
Ahead s h = s.head ≡ h → s.tail ≢ h

-- Slot `n` of user `i` holds the message of `size` bytes.
pub record IsFilled (size : ℕ) (nodes : ℕ → Node) (bytes : ℕ → Bytes) (place : ℕ → Place) (i : ℕ)
    (payload : Bytes) (n : ℕ) : Type 0 where
  pub mine : place n ≡ owned i
  pub whole : load (bytes n) 0 size ≡ load payload 0 size
  pub end : (nodes n).next ≡ none

-- What a user holds that goes on after `TryRetire`
abbrev pub Holds : ℕ → After → Type 0
Holds size (After.returns out m) = load out 0 size ≡ m
Holds size _ = Unit

-- Where the tail may be
abbrev pub In : ℕ → List ℕ → Type 0
In t [] = ⊥
In t (x ∷ xs) = (t ≡ x) ⊎ In t xs

module _ (size m : ℕ) where
  abbrev pub Filled : System → (ℕ → Place) → ℕ → Bytes → ℕ → Type 0
  Filled s place i payload n = IsFilled size s.nodes s.bytes place i payload n

  -- User `i` has made sure of the tail `t`, or of the head `h`.
  abbrev pub TailGuarded : System → (ℕ → Place) → ℕ → ℕ → Type 0
  TailGuarded s place i t = Guarded m s place (hazard0 i) t × TailKnown s t

  abbrev pub HeadGuarded : System → (ℕ → Place) → ℕ → ℕ → Type 0
  HeadGuarded s place i h = Guarded m s place (hazard0 i) h × HeadKnown s place h

  -- The list was empty when user `i` last read the successor of `h`, or `h` was the head no more.
  abbrev pub Settled : System → (ℕ → Place) → ℕ → ℕ → Type 0
  Settled s place i h = ((s.seen i).0 ≡ (s.seen i).1) ⊎ ((j : ℕ) × (place h ≡ retired_by j))

  -- It has then read the tail as `t`, and the successor of `h` as `x`.
  abbrev pub Located : System → (ℕ → Place) → ℕ → ℕ → ℕ → Type 0
  Located s place i h t = HeadGuarded s place i h × (h ≢ t → Ahead s h)

  abbrev pub Read : System → (ℕ → Place) → ℕ → ℕ → ℕ → Option ℕ → Type 0
  Read s place i h t x =
      Located s place i h t
      × ((y : ℕ) → x ≡ some y → (s.nodes h).next ≡ some y)
      × (x ≡ none → Settled s place i h)

  abbrev pub Knows : System → (ℕ → Place) → ℕ → User → Type 0
  Knows s place i (User.sweeping a todo) = Holds size a
  Knows s place i (User.comparing a r rest k) = Holds size a
  Knows s place i (User.clearing a r rest) = Holds size a
  Knows s place i (User.freeing a r rest) = Holds size a
  Knows s place i (User.copying payload n k) =
      (place n ≡ owned i) × ((j : ℕ) → j < k → s.bytes n j ≡ payload j)
  Knows s place i (User.ending payload n) =
      (place n ≡ owned i) × (load (s.bytes n) 0 size ≡ load payload 0 size)
  Knows s place i (User.looping payload n) = Filled s place i payload n
  Knows s place i (User.announcing payload n t) = Filled s place i payload n
  Knows s place i (User.checking payload n t) =
      Filled s place i payload n × (s.hazards (hazard0 i) ≡ some t)
  Knows s place i (User.reading payload n t) = Filled s place i payload n × TailGuarded s place i t
  Knows s place i (User.helping payload n t t_next) =
      Filled s place i payload n × TailGuarded s place i t × ((s.nodes t).next ≡ some t_next)
  Knows s place i (User.linking payload n t) = Filled s place i payload n × TailGuarded s place i t
  Knows s place i (User.swinging n t) = TailGuarded s place i t × ((s.nodes t).next ≡ some n)
  Knows s place i (User.verifying out h) = s.hazards (hazard0 i) ≡ some h
  Knows s place i (User.locating out h) = HeadGuarded s place i h
  Knows s place i (User.following out h t) = Located s place i h t
  Knows s place i (User.saving_next out h t x) = Read s place i h t x
  Knows s place i (User.verifying_next out h t x) =
      Read s place i h t x × (s.hazards (hazard1 i) ≡ x)
  Knows s place i (User.correcting out h x) = HeadGuarded s place i h × ((s.nodes h).next ≡ some x)
  Knows s place i (User.moving out h x) =
      HeadGuarded s place i h
      × Ahead s h
      × ((s.nodes h).next ≡ some x)
      × Guarded m s place (hazard1 i) x
  Knows s place i (User.fetching out h x k taken) =
      Guarded m s place (hazard1 i) x
      × (load (s.bytes x) 0 size ≡ taken)
      × ((j : ℕ) → j < k → out j ≡ s.bytes x j)
  Knows s place i _ = Unit

  abbrev pub pending : System → List ℕ → List (List ℕ)
  pending s xs = map (λ k. load (s.bytes k) 0 size) xs

  -- `xs` are the nodes of the list behind the head.
  pub record Inv (s : System) (place : ℕ → Place) (xs : List ℕ) : Type 0 where
    pub chain : IsChain s.nodes s.head xs
    pub distinct : Distinct (s.head ∷ xs)
    pub in_list : All (λ k. place k ≡ chained) (s.head ∷ xs)
    pub tail_in : In s.tail (s.head ∷ xs)
    pub tail_near :
        (s.tail ≡ last_of s.head xs) ⊎ ((s.nodes s.tail).next ≡ some (last_of s.head xs))
    pub unused : (k : ℕ) → (s.nodes k).used ≡ 0 → place k ≡ free
    pub listed :
        (i : ℕ) → i < m → All (λ k. place k ≡ retired_by i) (s.retired i ++ aside (s.users i))
    pub listed_once : (i : ℕ) → i < m → Distinct (s.retired i ++ aside (s.users i))
    pub knows : (i : ℕ) → i < m → Knows s place i (s.users i)
    pub flow : s.sent ≡ s.taken ++ pending s xs
