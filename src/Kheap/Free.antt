-- ===== src/Kheap/Free.antt =====
-- `kfree_heap`, and the heap that `init_kernel_heap` sets up.
use plenjos_kernel.Prelude.{
  ℕ, suc, ◌+◌, ◌-◌, ◌*◌, ◌%◌, ◌<◌, ◌≡◌, refl, sym, ap, ◌∙◌, ◌⊎◌, true, false, none, some, List, [],
  ◌∷◌, arith, ◌==◌, if◌then◌else◌, length, Bool-cases, inl, inr, ne→==, ==_refl,
}
use plenjos_kernel.Kheap.{
  Segment, Store, null, Heap, write, u64, page_len, heap_header_len, header_of, kfree_heap,
  init_kernel_heap, map_pages,
}
use plenjos_kernel.Kheap.Tiles.{
  Block, after, next_of, header, Tiles, last_of, Tiles-le, Tiles-frame, IsHeap,
}
use plenjos_kernel.Kheap.Grow.{fresh_block, grown, add_segment-eq, grown-IsHeap}
use plenjos_kernel.Kheap.Live.{BlockAt, le-BlockAt}

-- The blocks with the one at `a` given back.
unfoldable pub release : ℕ → ℕ → List Block → List Block
release a p [] = []
release a p (b ∷ bs) =
    if p == a then record { size = b.size; free = true } ∷ bs else b ∷ release a (after p b.size) bs

next_of-release :
    (a p size q : ℕ) (bs : List Block) → next_of p size (release a q bs) ≡ next_of p size bs
unfolding release
next_of-release a p size q [] = refl
next_of-release a p size q (b ∷ bs) = elim (Bool-cases (q == a)) [ inl e ↦ rw e | inr e ↦ rw e ]

last_of-release : (a pr p : ℕ) (bs : List Block) → last_of pr p (release a p bs) ≡ last_of pr p bs
unfolding release
last_of-release a pr p [] = refl
last_of-release a pr p (b ∷ bs) = elim (Bool-cases (p == a)) [
  | inl e ↦ rw e
  | inr e ↦ rw e (last_of-release a p (after p b.size) bs)
]

length-release : (a p : ℕ) (bs : List Block) → length (release a p bs) ≡ length bs
unfolding release
length-release a p [] = refl
length-release a p (b ∷ bs) = elim (Bool-cases (p == a)) [
  | inl e ↦ rw e
  | inr e ↦ rw e (ap suc (length-release a (after p b.size) bs))
]

-- Giving back a block that is free already changes nothing.
release-free :
    (p : ℕ) (bs : List Block) (a : ℕ) (c : Block)
    → c.free ≡ true
    → BlockAt p bs a c
    → release a p bs ≡ bs
unfolding release
release-free p [] a c free at = absurd at
release-free p (b ∷ bs) a c free (inl (same, eq)) = rw (same, ==_refl p) (ground arith)
release-free p (b ∷ bs) a c free (inr at) =
    rw (ne→== p a (omega (arith, le-BlockAt (after p b.size) bs a c at)))
      (ap (λ ds. b ∷ ds) (release-free (after p b.size) bs a c free at))

module _ (m : Store) (e a : ℕ) (c : Block) where
  -- The header of a block of the heap, and the heap with that block marked free.
  Tiles-release :
      (pr p : ℕ) (bs : List Block)
      → Tiles m e pr p bs
      → BlockAt p bs a c
      → (s : Segment) × (m a ≡ some s)
        × (s.free ≡ c.free)
        × Tiles (write m a (record s { free = true })) e pr p (release a p bs)
  unfolding write release
  Tiles-release pr p [] t at = absurd at
  Tiles-release pr p (b ∷ bs) t (inl (same, eq)) = rw same (
    header pr p b bs,
    t.0,
    ap (λ (x : Block). x.free) eq,
    rw (==_refl p) (
      rw (==_refl p),
      t.1,
      t.2,
      Tiles-frame m (write m p (record (header pr p b bs) { free = true })) e p (after p b.size) bs
          (λ x le. ground arith) t.3,
    ),
  )
  Tiles-release pr p (b ∷ bs) t (inr at) =
      let le = le-BlockAt (after p b.size) bs a c at in
      let (s, found, free, rest) = Tiles-release p (after p b.size) bs t.3 at in
      (
        s,
        found,
        free,
        rw (ne→== p a (omega arith)) (
          rw (ne→== p a (omega arith), next_of-release a p b.size (after p b.size) bs) t.0,
          t.1,
          t.2,
          rest,
        ),
      )

BlockAt-lt :
    (m : Store) (e a : ℕ) (c : Block) (pr p : ℕ) (bs : List Block)
    → Tiles m e pr p bs
    → BlockAt p bs a c
    → a < e
BlockAt-lt m e a c pr p [] t at = absurd at
BlockAt-lt m e a c pr p (b ∷ bs) t (inl same) =
    omega (arith, Tiles-le m e p (after p b.size) bs t.3)
BlockAt-lt m e a c pr p (b ∷ bs) t (inr at) = BlockAt-lt m e a c p (after p b.size) bs t.3 at

-- On a well-formed heap, freeing the address behind the header of any block succeeds, marks that
-- block free, changes no other block and keeps the heap well formed; unless the block was in use,
-- nothing changes at all.
pub kfree_heap_refines :
    (h : Heap) (bs : List Block) (a : ℕ) (c : Block)
    → IsHeap h bs
    → BlockAt h.start bs a c
    → (h' : Heap) × (kfree_heap (a + heap_header_len) h ≡ some h')
      × IsHeap h' (release a h.start bs)
      × ((c.free ≡ false) ⊎ (h' ≡ h))
unfolding kfree_heap
kfree_heap_refines h bs a c v at =
    let (s, found, free, t) = Tiles-release h.mem h.end_addr a c null h.start bs v.tiles at in
    let back : header_of (a + heap_header_len) ≡ a =
      omega (arith, BlockAt-lt h.mem h.end_addr a c null h.start bs v.tiles at, v.end_below) in
    let nonnull : (a + heap_header_len == null) ≡ false = ne→== _ _ (omega arith) in
    elim (Bool-cases c.free) [
      | inl twice ↦ (
        h,
        rw (nonnull, back, found, free ∙ twice),
        rw (release-free h.start bs a c twice at) v,
        inr refl,
      )
      | inr used ↦ (
        record h { mem = write h.mem a (record s { free = true }) },
        rw (nonnull, back, found, free ∙ used),
        record {
          tiles = t;
          some_block = rw (length-release a h.start bs) v.some_block;
          last = v.last ∙ sym (last_of-release a null h.start bs);
          start_pos = v.start_pos;
          start_aligned = v.start_aligned;
          end_aligned = v.end_aligned;
          end_below = v.end_below;
        },
        inl used,
      )
    ]

-- From a start address that is page-aligned, not 0 and at least 160 pages below the end of the
-- address space, `init_kernel_heap` succeeds and sets up a well-formed heap of two free blocks.
pub init_kernel_heap_lem :
    (base : ℕ)
    → 0 < base
    → base % page_len ≡ 0
    → base + page_len * 164 < u64
    → (p : ℕ) × (h : Heap) × (init_kernel_heap base ≡ some (p, h))
      × IsHeap h (
          record { size = page_len * 4 - heap_header_len; free = true }
          ∷ fresh_block (page_len * 156)
          ∷ [])
      × (h.start ≡ base)
unfolding init_kernel_heap
init_kernel_heap_lem base pos aligned room =
    let b : Block = record { size = page_len * 4 - heap_header_len; free = true } in
    let h : Heap = record {
      mem = write (λ a. none) base (header null base b []);
      start = base;
      end_addr = base + page_len * 4;
      last_segment = base;
      mapped = map_pages 4 base [];
    } in
    let at : h.mem base ≡ some (header null base b []) = unfold write in rw (==_refl base) in
    let v : IsHeap h (b ∷ []) = record {
      tiles = (at, refl, omega arith, omega arith);
      some_block = omega arith;
      last = refl;
      start_pos = pos;
      start_aligned = aligned;
      end_aligned = omega arith;
      end_below = omega arith;
    } in
    (
      h.end_addr,
      grown h (header null base b []) (page_len * 156) (fresh_block (page_len * 156)),
      add_segment-eq h b [] v (header null base b []) at (page_len * 156) (omega arith)
          (omega arith),
      grown-IsHeap h b [] v (header null base b []) at (page_len * 156) (omega arith)
          (fresh_block (page_len * 156)) refl,
      refl,
    )
