-- ===== src/Shmman/Serving.antt =====
-- The manager of system/linux/src/shmman.c as the objects of src/ use it.
use librtipc.Object.{Segments}
use librtipc.Shmman.{Linux, Manager}
use librtipc.Shmman.Attach.{get_shmseg, release_shmseg}
use librtipc.Shmman.Lookup.{get_shmseg-again}

abbrev pub segments : Linux → Segments
segments L = record {
  Manager = Manager L;
  get_shmseg = get_shmseg {L = L};
  release_shmseg = release_shmseg {L = L};
  get-get =
      λ fuel fuel' id size size' a m m'. get_shmseg-again {L = L} fuel fuel' id size size' a m m';
}
