-- ===== src/Kheap/Grow.antt =====
-- `kheap_add_segment` puts one more block behind the others.
use plenjos_kernel.Prelude.{
  ℕ, ◌+◌, ◌-◌, ◌*◌, ◌/◌, ◌%◌, ◌≤◌, ◌<◌, ◌≡◌, refl, sym, subst, true, some, List, [], ◌∷◌, ◌++◌,
  arith, ne→==, ==_refl, ge→ltb,
}
use plenjos_kernel.Kheap.{
  Segment, Store, null, Heap, write, u64, page_len, heap_header_len, heap_alloc_min,
  kheap_add_segment, at_least_min, map_pages,
}
use plenjos_kernel.Kheap.Tiles.{Block, after, header, Tiles, last_of, IsHeap, le-last_of}

-- The block that a new segment for `len` bytes holds: whole pages, less the header.
abbrev pub fresh_block : ℕ → Block
fresh_block len = record {
  size = (len + 4127) / page_len * page_len - heap_header_len;
  free = true;
}

-- the store with the header `n` linked in at `e`, behind the header at `l`
abbrev linked : Store → ℕ → ℕ → Segment → Segment → Store
linked m l e s n = write (write m l (record s { next = e })) e n

last-lt :
    (m : Store) (e pr p : ℕ) (b : Block) (bs : List Block)
    → Tiles m e pr p (b ∷ bs)
    → last_of pr p (b ∷ bs) < e
last-lt m e pr p b [] t = omega arith
last-lt m e pr p b (c ∷ cs) t = last-lt m e p (after p b.size) c cs t.3

-- The header of the last block.
pub last_header :
    (m : Store) (e pr p : ℕ) (b : Block) (bs : List Block)
    → Tiles m e pr p (b ∷ bs)
    → (s : Segment) × (m (last_of pr p (b ∷ bs)) ≡ some s)
last_header m e pr p b [] t = (header pr p b [], t.0)
last_header m e pr p b (c ∷ cs) t = last_header m e p (after p b.size) c cs t.3

module _ (m : Store) (e : ℕ) (n : Block) (aligned : n.size % 16 ≡ 0)
    (least : heap_alloc_min ≤ n.size) (s : Segment) where
  Tiles-append :
      (pr p : ℕ) (b : Block) (bs : List Block)
      → Tiles m e pr p (b ∷ bs)
      → m (last_of pr p (b ∷ bs)) ≡ some s
      → let l = last_of pr p (b ∷ bs) in
        Tiles (linked m l e s (header l e n [])) (after e n.size) pr p (b ∷ bs ++ (n ∷ []))
  unfolding write
  Tiles-append pr p b [] t at = (
    rw (ne→== p e (omega arith), ==_refl p) (ground arith),
    t.1,
    t.2,
    rw t.3 (rw (==_refl e), aligned, least, refl),
  )
  Tiles-append pr p b (c ∷ cs) t at =
      let below = le-last_of p (after p b.size) c cs in
      let above = last-lt m e p (after p b.size) c cs t.3 in
      let l = last_of p (after p b.size) (c ∷ cs) in
      (
        rw (ne→== p e (omega arith), ne→== p l (omega arith)) t.0,
        t.1,
        t.2,
        Tiles-append p (after p b.size) c cs t.3 at,
      )

last_of-append :
    (m : Store) (e pr p : ℕ) (n : Block) (bs : List Block)
    → Tiles m e pr p bs
    → last_of pr p (bs ++ (n ∷ [])) ≡ e
last_of-append m e pr p n [] t = t
last_of-append m e pr p n (b ∷ bs) t = last_of-append m e p (after p b.size) n bs t.3

-- the heap after a new segment, whose header holds the block `n`
abbrev pub grown : Heap → Segment → ℕ → Block → Heap
grown h s len n = record {
  mem = linked h.mem h.last_segment h.end_addr s (header h.last_segment h.end_addr n []);
  start = h.start;
  end_addr = after h.end_addr n.size;
  last_segment = h.end_addr;
  mapped = map_pages ((len + 4127) / page_len) h.end_addr h.mapped;
}

module _ (h : Heap) (b : Block) (bs : List Block) (v : IsHeap h (b ∷ bs)) (s : Segment)
    (at : h.mem h.last_segment ≡ some s) (len : ℕ) (room : h.end_addr + len + 8192 < u64) where
  pub grown-IsHeap :
      (n : Block) → n.size ≡ (fresh_block len).size → IsHeap (grown h s len n) (b ∷ bs ++ (n ∷ []))
  grown-IsHeap n e = record {
    tiles =
        subst
          (λ l.
            Tiles (linked h.mem l h.end_addr s (header l h.end_addr n [])) (after h.end_addr n.size)
              null h.start (b ∷ bs ++ (n ∷ [])))
          (sym v.last)
          (Tiles-append h.mem h.end_addr n (omega arith) (omega arith) s null h.start b bs v.tiles
            (rw (← v.last) at));
    some_block = omega arith;
    last = sym (last_of-append h.mem h.end_addr null h.start n (b ∷ bs) v.tiles);
    start_pos = v.start_pos;
    start_aligned = v.start_aligned;
    end_aligned = omega (arith, v.end_aligned);
    end_below = omega (arith, v.end_aligned);
  }

  pub add_segment-eq :
      heap_alloc_min ≤ len
      → kheap_add_segment len h ≡ some (h.end_addr, grown h s len (fresh_block len))
  unfolding kheap_add_segment
  add_segment-eq least =
      let pos : 0 < h.last_segment =
        rw v.last (omega (arith, v.start_pos, le-last_of null h.start b bs)) in
      let min : at_least_min len ≡ len = rw (ge→ltb len 16 least) in
      let pages : (len + heap_header_len + page_len - 1) % u64 / page_len
          ≡ (len + 4127) / page_len =
        omega arith in
      let size : ((len + 4127) / page_len * page_len % u64 + u64 - heap_header_len) % u64
          ≡ (fresh_block len).size =
        omega arith in
      let end : (h.end_addr + (len + 4127) / page_len * page_len) % u64
          ≡ after h.end_addr (fresh_block len).size =
        omega arith in
      rw (v.end_aligned, min, pages, size, end, ne→== h.last_segment null (omega arith)) (rw at)
