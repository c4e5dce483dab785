-- ===== src/Malloc/Examples.antt =====
-- Tests and witnesses of the heap of a process.
use plenjos_kernel.Prelude.{true, false, [], ◌∷◌}
use plenjos_kernel.Malloc.{Segment, Heap}

abbrev taken : Segment
taken = record { addr = 0x1000; size = 100; free = false }

abbrev large_hole : Segment
large_hole = record { addr = 0x1084; size = 500; free = true }

abbrev small_heap : Heap
small_heap = record { segments = taken ∷ large_hole ∷ []; heap_end = 0x2000 }

abbrev also_taken : Segment
also_taken = record { addr = 0x1084; size = 500; free = false }
