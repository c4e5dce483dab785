-- ===== src/Kheap/Examples.antt =====
-- The kernel heap at a small start address: runs, and the theorems at its states.
use plenjos_kernel.Prelude.{
  ℕ, ◌+◌, ◌-◌, ◌≡◌, refl, true, false, some, none, [], ◌∷◌, arith, inl, ◌^◌, ◌⊎◌, Option,
}
use plenjos_kernel.Kheap.{
  Heap, write, heap_header_len, kmalloc_heap, kfree_heap, find_segment, take_segment,
  kheap_segment_split, split_rounded, link_split, kmalloc_rounded,
}
use plenjos_kernel.Kheap.Tiles.{Block, IsHeap}
use plenjos_kernel.Kheap.Laws.{
  Allocated, malloc_blocks, rounded_size, kmalloc_heap_refines, kmalloc_heap_wraps,
}
use plenjos_kernel.Kheap.Live.{Handed, kmalloc_heap_fresh}
use plenjos_kernel.Kheap.Bump.{PhysMem}
use plenjos_kernel.Kheap.Free.{release, kfree_heap_refines}

abbrev first : Block
first = record { size = 16352; free = true }

abbrev second : Block
second = record { size = 100; free = false }

-- one free segment of four pages at 0x10000
abbrev small : Heap
small = record {
  mem = write (λ a. none) 0x10000 (record { size = 16352; next = 0; prev = 0; free = true });
  start = 0x10000;
  end_addr = 0x14000;
  last_segment = 0x10000;
  mapped = [];
}

small-IsHeap : IsHeap small (first ∷ [])
unfolding write
small-IsHeap = record {
  tiles = (refl, refl, omega arith, refl);
  some_block = omega arith;
  last = refl;
  start_pos = omega arith;
  start_aligned = refl;
  end_aligned = refl;
  end_below = omega arith;
}

-- the same segment, in use
abbrev busy : Heap
busy = record small {
  mem = write (λ a. none) 0x10000 (record { size = 16352; next = 0; prev = 0; free = false });
}

abbrev used : Block
used = record { size = 16352; free = false }

busy-IsHeap : IsHeap busy (used ∷ [])
unfolding write
busy-IsHeap = record {
  tiles = (refl, refl, omega arith, refl);
  some_block = omega arith;
  last = refl;
  start_pos = omega arith;
  start_aligned = refl;
  end_aligned = refl;
  end_below = omega arith;
}

abbrev address : Option (ℕ × Heap) → ℕ
address none = 0
address (some (p, h)) = p

-- the second of two blocks stands behind the first and both headers
two_blocks : address (kmalloc_heap 5 100 small) ≡ 0x10020
unfolding kmalloc_heap kmalloc_rounded find_segment take_segment kheap_segment_split split_rounded
    link_split write
two_blocks = refl

kmalloc_heap_refines_example :
    Allocated 5 100 small (malloc_blocks (rounded_size 100) 0x10000 0x14000 (first ∷ []))
kmalloc_heap_refines_example =
    kmalloc_heap_refines small first [] small-IsHeap 5 100 (omega arith) (omega arith) (omega arith)

kmalloc_heap_fresh_example : Handed 5 100 small (first ∷ [])
kmalloc_heap_fresh_example =
    kmalloc_heap_fresh small first [] 5 100 small-IsHeap (omega arith) (omega arith) (omega arith)

kmalloc_heap_wraps_example : kmalloc_heap 5 (2 ^ 64 - 1) small ≡ kmalloc_heap 5 16 small
kmalloc_heap_wraps_example = kmalloc_heap_wraps 5 (2 ^ 64 - 1) small (omega arith) (omega arith)

kfree_heap_refines_example :
    (h' : Heap) × (kfree_heap (0x10000 + heap_header_len) busy ≡ some h')
    × IsHeap h' (release 0x10000 0x10000 (used ∷ []))
    × ((used.free ≡ false) ⊎ (h' ≡ busy))
kfree_heap_refines_example =
    kfree_heap_refines busy (used ∷ []) 0x10000 used busy-IsHeap (inl (refl, refl))

abbrev early : PhysMem
early = record { head = 5000; useable_end = 20000 }
