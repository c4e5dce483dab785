-- ===== src/Kheap/Laws.antt =====
-- `kmalloc_heap` and `kfree_heap` on the blocks of the heap.
use plenjos_kernel.Prelude.{
  ℕ, ◌+◌, ◌-◌, ◌%◌, ◌≤◌, ◌<◌, ◌≡◌, refl, false, Option, none, some, List, [], ◌∷◌, ◌++◌, arith,
  length, ne→==, ==_refl,
}
use plenjos_kernel.Kheap.{
  Segment, Store, null, Heap, write, u64, heap_header_len, heap_alloc_min, heap_granularity,
  at_least_min, round_up, kmalloc_heap, kmalloc_rounded,
}
use plenjos_kernel.Kheap.Tiles.{Block, header, Tiles-frame, IsHeap, first_fit}
use plenjos_kernel.Kheap.Find.{Found, find-Found, first_fit-nonempty}
use plenjos_kernel.Kheap.Grow.{fresh_block, grown, last_header, grown-IsHeap, add_segment-eq}

-- The size that an allocation is made for.
abbrev pub rounded_size : ℕ → ℕ
rounded_size wanted = at_least_min (round_up wanted)

-- The specification of an allocation: the header of the block that it hands out, and all blocks
-- afterwards. First fit, or a new block at the end of the heap.
unfoldable pub malloc_blocks : ℕ → ℕ → ℕ → List Block → ℕ × List Block
malloc_blocks size start end bs = elim (first_fit size start bs) [
  | some (q, cs) ↦ (q, cs)
  | none ↦ (end, bs ++ (record { size = (fresh_block size).size; free = false } ∷ []))
]

-- `kmalloc_heap` run on a heap with the blocks `bs` hands out what the specification says.
pub record Allocated (fuel wanted : ℕ) (h : Heap) (spec : ℕ × List Block) : Type 0 where
  pub heap : Heap
  pub returns : kmalloc_heap fuel wanted h ≡ some (spec.0 + heap_header_len, heap)
  pub holds : IsHeap heap spec.1
  pub start : heap.start ≡ h.start

pub size_facts :
    (wanted : ℕ)
    → wanted + 16384 < u64
    → (rounded_size wanted % 16 ≡ 0)
      × (heap_alloc_min ≤ rounded_size wanted)
      × (wanted ≤ rounded_size wanted)
      × (rounded_size wanted ≤ wanted + 16)
size_facts wanted room = ground arith

same_write : (m : Store) (p : ℕ) (s t : Segment) (a : ℕ) → write (write m p s) p t a ≡ write m p t a
unfolding write
same_write m p s t a = ground arith

module _ (h : Heap) (b : Block) (bs : List Block) (v : IsHeap h (b ∷ bs)) (fuel wanted : ℕ)
    (enough : length bs < fuel) (nonzero : 0 < wanted)
    (room : h.end_addr + wanted + 16384 < u64) where
  Found-Allocated :
      (o : Option (ℕ × List Block))
      → first_fit (rounded_size wanted) h.start (b ∷ bs) ≡ o
      → Found fuel null h.start (rounded_size wanted) h o
      → Allocated fuel wanted h (elim o [
        | some (q, cs) ↦ (q, cs)
        | none ↦ (
          h.end_addr,
          b ∷ bs ++ (record { size = (fresh_block (rounded_size wanted)).size; free = false } ∷ []),
        )
      ])
  unfolding kmalloc_heap kmalloc_rounded write
  Found-Allocated (some (q, cs)) e (h', f, took) = record {
    heap = h';
    returns = rw (ne→== wanted 0 (omega arith), f);
    holds = record {
      tiles = rw (took.end_addr, took.start) took.tiles;
      some_block = first_fit-nonempty (rounded_size wanted) h.start (b ∷ bs) q cs e;
      last = rw took.start took.last;
      start_pos = rw took.start v.start_pos;
      start_aligned = rw took.start v.start_aligned;
      end_aligned = rw took.end_addr v.end_aligned;
      end_below = rw took.end_addr v.end_below;
    };
    start = took.start;
  }
  Found-Allocated none e f =
      let size = rounded_size wanted in
      let (r, least, above, below) = size_facts wanted (omega arith) in
      let (s, at) = last_header h.mem h.end_addr null h.start b bs v.tiles in
      let at' : h.mem h.last_segment ≡ some s = rw v.last at in
      let n : Block = record { size = (fresh_block size).size; free = false } in
      let g = grown h s size (fresh_block size) in
      let is : IsHeap (grown h s size n) (b ∷ bs ++ (n ∷ [])) =
        grown-IsHeap h b bs v s at' size (omega arith) n refl in
      record {
        heap = record g { mem = write g.mem h.end_addr (header h.last_segment h.end_addr n []) };
        returns =
            rw
              (
                ne→== wanted 0 (omega arith),
                f,
                add_segment-eq h b bs v s at' size (omega arith) least,
              )
              (rw (==_refl h.end_addr));
        holds = record {
          tiles =
              Tiles-frame (grown h s size n).mem _ _ null h.start (b ∷ bs ++ (n ∷ []))
                (λ a le.
                  same_write (write h.mem h.last_segment (record s { next = h.end_addr }))
                    h.end_addr _ _ a)
                is.tiles;
          some_block = omega arith;
          last = is.last;
          start_pos = is.start_pos;
          start_aligned = is.start_aligned;
          end_aligned = is.end_aligned;
          end_below = is.end_below;
        };
        start = refl;
      }

  -- `kmalloc_heap` implements its specification: on a well-formed heap, for a request that is not 0
  -- and leaves the heap below the end of the address space, with more fuel than segments, it
  -- returns the first free block that is large enough, split where the rest can hold a block, or
  -- else a block of new pages, and the heap is well formed with the blocks of the specification.
  pub kmalloc_heap_refines :
      Allocated fuel wanted h (malloc_blocks (rounded_size wanted) h.start h.end_addr (b ∷ bs))
  unfolding malloc_blocks
  kmalloc_heap_refines =
      let (r, least, above, below) = size_facts wanted (omega arith) in
      Found-Allocated (first_fit (rounded_size wanted) h.start (b ∷ bs)) refl (
        find-Found h (rounded_size wanted) v.end_below r least fuel null h.start b bs enough
          v.start_pos v.tiles v.last)

-- A request of fewer than 16 bytes below 2 ^ 64 wraps to 0 when it is rounded up, and is served like
-- a request of 16 bytes.
pub kmalloc_heap_wraps :
    (fuel wanted : ℕ) (h : Heap)
    → u64 - heap_granularity < wanted
    → wanted < u64
    → kmalloc_heap fuel wanted h ≡ kmalloc_heap fuel 16 h
unfolding kmalloc_heap
kmalloc_heap_wraps fuel wanted h low high =
    let e : rounded_size wanted ≡ 16 = ground arith in rw (ne→== wanted 0 (omega arith), e)
