-- ===== src/Lib.antt =====
-- Models and proofs for librtipc, a C library for communication between real-time processes.
--
-- Processes share memory segments that a manager hands out (system/linux/src/shmman.c). Each object of
-- the library is one segment: a queue, a sensor buffer, a barrier, a mutex or a flag. `X_get` finds or
-- creates the segment of an object under a number that the processes agree on, takes the spin lock in
-- its first word, and sets it up if the second word says that nobody has. The operations then work on
-- the segment with the atomic operations of arch/x86/src/atomic.c and arch/arm/src/atomic.c and the byte
-- copy of hwfunctions.c.
--
-- The files, and the code that they are about:
--   Prelude       shared notation: Boolean tests, lists over native numbers, updated functions
--   Ring          the index arithmetic of a ring, for spscq.c and wfmpscq.c
--   Fifo          what a queue promises: a list with a bound
--   Status        what the functions return: 0 or -1
--   Memory        hwfunctions_memcpy; Memory.Slots: the messages in a block of bytes
--   Atomic        atomic_casN and atomic_faaN of arch/x86; Atomic.Arm: those of arch/arm, whose loops run
--                 over a list of attempts; Atomic.Laws relates the two
--   Object        what X_get and X_release of all objects share; Object.Once: processes that call X_get
--                 at the same time; Object.Again: a second call
--   Shmman        system/linux/src/shmman.c: the tables and shmman_create_shmseg; Shmman.Attach:
--                 shmman_get_shmseg and shmman_release_shmseg; Shmman.Startup: shmman_initialize,
--                 shmman_disconnect, shmman_finalize and src/rtipc.c; Shmman.Layout, Creation,
--                 Outcome, Lookup, Refused, Fresh, Addresses and Apart are the theorems, Serving is the
--                 manager as Object uses it
--   Spscq         src/spscq.c; Spscq.Refine: used alone; Spscq.Concurrent: producer and consumer
--                 interleaved, one shared access at a time
--   Sensorbuffer  src/sensorbuffer.c; Sequential: used alone; Concurrent: writer and reader interleaved;
--                 Untorn: what a read returns, Pace and Retry: how far apart the two are
--   Wfmpscq       src/wfmpscq.c: Minimum is the search for the least id, Entries the rings, Fifo the
--                 order; Concurrent: producers and the consumer interleaved, one shared access at a time;
--                 its steps are in Steps; Oldest is the strategy by ids, Turns round robin
--   Lfmpscq       src/lfmpscq.c: Chain is the linked list, Slots the slots, Sweep the retirement,
--                 Refine, Dequeue and Setup the queue used alone, Rounds the loop with a tail that is
--                 behind; Concurrent: producers and the consumer interleaved, one shared access at a
--                 time
--   Mpmcq         src/mpmcq.c, on the functions that it repeats from src/lfmpscq.c; Mpmcq.Refine: used
--                 alone; Rounds: the loop of the dequeue; Concurrent: users interleaved, whose steps are
--                 in Steps
--   Barrier       src/barrier.c as interleaved steps of its users; Invariant, Moves, Safety and Progress
--   Mutex, Flag   src/mutex.c and src/flag.c
--   Tests         examples
--
-- A C struct is a record, its fields in the source's words. A segment is a record of its fields,
-- without the two words `lock` and `init`, which Object keeps; the functions give the new segment
-- beside what they return. A pointer into a segment is the segment or an index into it, -1 as an index
-- is `none`. Memory is a function from addresses to bytes. Sums in machine words wrap round (`% 2 ^
-- w`); sizes and slot numbers are taken not to overflow. A spin loop has fuel, and `none` says that it
-- still runs: where a function runs alone, one round is proved to be enough if the lock is free, and
-- no number of rounds if it is not. The loops of the linked queues have fuel too: a process that runs
-- alone needs two rounds, wherever others have left the tail (Rounds). Other loops are bounded by the
-- source. Interleaved processes are step relations, with one shared access in each step and a history
-- of messages or passes where the property needs one. Memory is sequentially consistent there. This is
-- an assumption: the source calls hwfunctions_membarrier in spscq.c and wfmpscq.c only, and nothing
-- orders the accesses of sensorbuffer.c, lfmpscq.c and mpmcq.c. An atomic operation is one step, as on
-- x86; of the retry loops of arch/arm, that of atomic_faa64u, which wfmpscq_enqueue calls, has its
-- failed attempts as steps of their own. The tables of the memory manager are functions, and its words
-- are apart from them: what the source does with a number from MAX_SHMSEG on, and what the write through
-- an address that is not set hits, is not modelled.
--
-- Not modelled: the single instructions of hwfunctions.c, shmman_printShmsegTable,
-- system/linux/src/osfunctions.c, the benchmarks and the demos. The calls of Linux (shmget, shmat,
-- shmdt, shmctl, ftok, getpagesize) are parameters, and so is the way in which arch/arm passes signed
-- arguments.
pub mod Prelude
pub mod Ring
pub mod Memory
pub mod Status
pub mod Fifo
pub mod Spscq
pub mod Atomic
pub mod Barrier
pub mod Mutex
pub mod Object
pub mod Flag
pub mod Sensorbuffer
pub mod Wfmpscq
pub mod Lfmpscq
pub mod Mpmcq
pub mod Shmman
pub mod Tests
