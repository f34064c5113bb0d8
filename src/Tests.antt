-- ===== src/Tests.antt =====
-- Examples: the theorems at concrete inputs, and runs of the definitions.
mod Spscq
mod Segments
mod Sensorbuffer
mod Locks
mod Wfmpscq
mod Lfmpscq
mod Shmman
mod Object
mod Atomic
mod LostMessage
mod Interleaved
mod Users
mod Writers
mod Mpmcq
