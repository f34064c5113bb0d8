-- ===== src/Mpmcq/Concurrent/Steps.antt =====
-- The steps of a user of src/mpmcq.c.
use librtipc.Prelude.{
  ℕ, suc, ◌+◌, ◌*◌, ◌%◌, ◌<◌, ◌≡◌, ◌≢◌, Option, none, some, List, [], ◌∷◌, ◌++◌, update,
}
use librtipc.Memory.{Bytes}
use librtipc.Atomic.{cas32}
use librtipc.Mpmcq.Concurrent.{
  After, User, System, hazard0, hazard1, initial, resumes, goes, sweeps, kept, next_cleared,
  slot_freed, slot_taken, byte_copied, ended, announced, followed, linked, head_moved,
}

module _ (num_slots size max_user : ℕ) (s : System) (i : ℕ) where
  -- A step of user `i`
  pub data Move : System → Type 0 where
    begin_enqueue :
        (payload : Bytes)
        → s.users i ≡ User.idle
        → Move (sweeps s i (After.enqueues payload) (s.retired i))
    begin_dequeue :
        (out : Bytes) → s.users i ≡ User.idle → Move (sweeps s i (After.dequeues out) (s.retired i))
    -- `TryRetire`
    begin_node :
        (a : After) (r : ℕ) (rest : List ℕ)
        → s.users i ≡ User.sweeping a (r ∷ rest)
        → Move (goes s i (User.comparing a r rest 0))
    keep_node :
        (a : After) (r : ℕ) (rest : List ℕ) (k : ℕ)
        → s.users i ≡ User.comparing a r rest k
        → k < 2 * max_user
        → s.hazards k ≡ some r
        → Move (kept s i a r rest)
    next_hazard :
        (a : After) (r : ℕ) (rest : List ℕ) (k : ℕ)
        → s.users i ≡ User.comparing a r rest k
        → k < 2 * max_user
        → s.hazards k ≢ some r
        → Move (goes s i (User.comparing a r rest (k + 1)))
    no_hazard :
        (a : After) (r : ℕ) (rest : List ℕ)
        → s.users i ≡ User.comparing a r rest (2 * max_user)
        → Move (goes s i (User.clearing a r rest))
    clear_next :
        (a : After) (r : ℕ) (rest : List ℕ)
        → s.users i ≡ User.clearing a r rest
        → Move (next_cleared s i a r rest)
    free_slot :
        (a : After) (r : ℕ) (rest : List ℕ)
        → s.users i ≡ User.freeing a r rest
        → Move (slot_freed s i a r rest)
    resume : (a : After) → s.users i ≡ User.sweeping a [] → Move (goes s i (resumes num_slots a))
    -- `mpmcq_enqueue`
    give_up : (payload : Bytes) → s.users i ≡ User.searching payload 0 → Move (goes s i User.idle)
    skip_slot :
        (payload : Bytes) (rounds : ℕ)
        → s.users i ≡ User.searching payload (suc rounds)
        → (s.nodes (s.search i)).used ≢ 0
        → Move (record (goes s i (User.searching payload rounds)) {
          search = update s.search i ((s.search i + 1) % num_slots);
        })
    take_slot :
        (payload : Bytes) (rounds : ℕ)
        → s.users i ≡ User.searching payload (suc rounds)
        → (s.nodes (s.search i)).used ≡ 0
        → Move (slot_taken s i payload)
    copy_byte :
        (payload : Bytes) (n k : ℕ)
        → s.users i ≡ User.copying payload n k
        → k < size
        → Move (byte_copied s i payload n k)
    copied :
        (payload : Bytes) (n : ℕ)
        → s.users i ≡ User.copying payload n size
        → Move (goes s i (User.ending payload n))
    end_node :
        (payload : Bytes) (n : ℕ) → s.users i ≡ User.ending payload n → Move (ended s i payload n)
    read_tail :
        (payload : Bytes) (n : ℕ)
        → s.users i ≡ User.looping payload n
        → Move (goes s i (User.announcing payload n s.tail))
    announce :
        (payload : Bytes) (n t : ℕ)
        → s.users i ≡ User.announcing payload n t
        → Move (announced s i (User.checking payload n t) (hazard0 i) (some t))
    tail_moved :
        (payload : Bytes) (n t : ℕ)
        → s.users i ≡ User.checking payload n t
        → s.tail ≢ t
        → Move (goes s i (User.looping payload n))
    tail_same :
        (payload : Bytes) (n t : ℕ)
        → s.users i ≡ User.checking payload n t
        → s.tail ≡ t
        → Move (goes s i (User.reading payload n t))
    read_next :
        (payload : Bytes) (n t t_next : ℕ)
        → s.users i ≡ User.reading payload n t
        → (s.nodes t).next ≡ some t_next
        → Move (goes s i (User.helping payload n t t_next))
    read_end :
        (payload : Bytes) (n t : ℕ)
        → s.users i ≡ User.reading payload n t
        → (s.nodes t).next ≡ none
        → Move (goes s i (User.linking payload n t))
    help :
        (payload : Bytes) (n t t_next : ℕ)
        → s.users i ≡ User.helping payload n t t_next
        → Move (record (goes s i (User.looping payload n)) { tail = (cas32 s.tail t t_next).1 })
    link :
        (payload : Bytes) (n t : ℕ)
        → s.users i ≡ User.linking payload n t
        → (s.nodes t).next ≡ none
        → Move (linked size s i payload n t)
    link_failed :
        (payload : Bytes) (n t : ℕ)
        → s.users i ≡ User.linking payload n t
        → (s.nodes t).next ≢ none
        → Move (goes s i (User.looping payload n))
    swing :
        (n t : ℕ)
        → s.users i ≡ User.swinging n t
        → Move (record (goes s i User.idle) { tail = (cas32 s.tail t n).1 })
    -- `mpmcq_dequeue`
    read_head :
        (out : Bytes) → s.users i ≡ User.starting out → Move (goes s i (User.saving out s.head))
    save_head :
        (out : Bytes) (h : ℕ)
        → s.users i ≡ User.saving out h
        → Move (announced s i (User.verifying out h) (hazard0 i) (some h))
    head_gone :
        (out : Bytes) (h : ℕ)
        → s.users i ≡ User.verifying out h
        → s.head ≢ h
        → Move (goes s i (User.starting out))
    head_same :
        (out : Bytes) (h : ℕ)
        → s.users i ≡ User.verifying out h
        → s.head ≡ h
        → Move (goes s i (User.locating out h))
    locate_tail :
        (out : Bytes) (h : ℕ)
        → s.users i ≡ User.locating out h
        → Move (goes s i (User.following out h s.tail))
    follow :
        (out : Bytes) (h t : ℕ) → s.users i ≡ User.following out h t → Move (followed s i out h t)
    save_next :
        (out : Bytes) (h t : ℕ) (x : Option ℕ)
        → s.users i ≡ User.saving_next out h t x
        → Move (announced s i (User.verifying_next out h t x) (hazard1 i) x)
    next_gone :
        (out : Bytes) (h t : ℕ) (x : Option ℕ)
        → s.users i ≡ User.verifying_next out h t x
        → s.head ≢ h
        → Move (goes s i (User.starting out))
    find_empty :
        (out : Bytes) (h t : ℕ)
        → s.users i ≡ User.verifying_next out h t none
        → s.head ≡ h
        → Move (goes s i User.idle)
    find_behind :
        (out : Bytes) (h x : ℕ)
        → s.users i ≡ User.verifying_next out h h (some x)
        → s.head ≡ h
        → Move (goes s i (User.correcting out h x))
    find_first :
        (out : Bytes) (h t x : ℕ)
        → s.users i ≡ User.verifying_next out h t (some x)
        → s.head ≡ h
        → h ≢ t
        → Move (goes s i (User.moving out h x))
    correct :
        (out : Bytes) (h x : ℕ)
        → s.users i ≡ User.correcting out h x
        → Move (record (goes s i (User.starting out)) { tail = (cas32 s.tail h x).1 })
    move_failed :
        (out : Bytes) (h x : ℕ)
        → s.users i ≡ User.moving out h x
        → s.head ≢ h
        → Move (goes s i (User.starting out))
    move_head :
        (out : Bytes) (h x : ℕ)
        → s.users i ≡ User.moving out h x
        → s.head ≡ h
        → Move (head_moved size s i out h x)
    fetch_byte :
        (out : Bytes) (h x k : ℕ) (m : List ℕ)
        → s.users i ≡ User.fetching out h x k m
        → k < size
        → Move (goes s i (User.fetching (update out k (s.bytes x k)) h x (k + 1) m))
    retire_head :
        (out : Bytes) (h x : ℕ) (m : List ℕ)
        → s.users i ≡ User.fetching out h x size m
        → Move (sweeps s i (After.returns out m) (s.retired i ++ (h ∷ [])))

module _ (num_slots size max_user : ℕ) where
  -- A user takes a step.
  pub data Step (s : System) : System → Type 0 where
    pick : {t : System} (i : ℕ) → i < max_user → Move num_slots size max_user s i t → Step s t

  pub data Reach : System → Type 0 where
    start : (search : ℕ → ℕ) (bytes : ℕ → Bytes) → Reach (initial search bytes)
    later : {s t : System} → Reach s → Step s t → Reach t
