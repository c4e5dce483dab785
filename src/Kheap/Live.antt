-- ===== src/Kheap/Live.antt =====
-- What allocation and release do to the blocks in use, and the whole of `kmalloc_heap` and
-- `kfree_heap` for a caller.
use plenjos_kernel.Prelude.{
  ℕ, ◌+◌, ◌-◌, ◌≤◌, ◌<◌, ◌≡◌, ◌≢◌, refl, sym, ◌⊎◌, true, false, Option, none, some, List, [], ◌∷◌,
  ◌++◌, arith, leb, ◌&&◌, length, Bool-cases, inl, inr,
}
use plenjos_kernel.Kheap.{Store, null, Heap, u64, heap_header_len, heap_alloc_min, kmalloc_heap}
use plenjos_kernel.Kheap.Tiles.{Block, after, Tiles, Tiles-le, IsHeap, first_fit, taken}
use plenjos_kernel.Kheap.Grow.{fresh_block}
use plenjos_kernel.Kheap.Laws.{rounded_size, malloc_blocks, kmalloc_heap_refines, size_facts}

-- The block `c` has its header at `a`, where the blocks begin at `p`.
abbrev pub BlockAt : ℕ → List Block → ℕ → Block → Type 0
BlockAt p [] a c = ⊥
BlockAt p (b ∷ bs) a c = ((a ≡ p) × (b ≡ c)) ⊎ BlockAt (after p b.size) bs a c

pub le-BlockAt : (p : ℕ) (bs : List Block) (a : ℕ) (c : Block) → BlockAt p bs a c → p ≤ a
le-BlockAt p [] a c at = absurd at
le-BlockAt p (b ∷ bs) a c (inl e) = omega arith
le-BlockAt p (b ∷ bs) a c (inr at) = omega (arith, le-BlockAt (after p b.size) bs a c at)

-- What a caller may rely on when it is handed the block at `q`: it is in use and large enough, and
-- every block that was in use stays where it was, and is another block.
pub record Fresh (size p : ℕ) (bs : List Block) (q : ℕ) (cs : List Block) : Type 0 where
  pub block : Block
  pub at : BlockAt p cs q block
  pub in_use : block.free ≡ false
  pub large : size ≤ block.size
  pub others : (a : ℕ) (c : Block) → c.free ≡ false → BlockAt p bs a c → (a ≢ q) × BlockAt p cs a c

-- A block in use is none of the free ones.
BlockAt-later :
    (p : ℕ) (b : Block) (bs : List Block) (a : ℕ) (c : Block)
    → b.free ≡ true
    → c.free ≡ false
    → BlockAt p (b ∷ bs) a c
    → BlockAt (after p b.size) bs a c
BlockAt-later p b bs a c free used (inl (e, same)) = absurd (ground arith)
BlockAt-later p b bs a c free used (inr at) = at

Fresh-taken :
    (size p : ℕ) (b : Block) (bs : List Block)
    → b.free ≡ true
    → size ≤ b.size
    → Fresh size p (b ∷ bs) p (taken size b bs)
Fresh-taken size p b bs free fits =
    elim (Bool-cases (leb (size + heap_header_len + heap_alloc_min) b.size)) [
      | inl room ↦
          let e : after (after p size) (b.size - size - heap_header_len) ≡ after p b.size =
            ground arith in
          rw room (record {
            block = record { size = size; free = false };
            at = inl (refl, refl);
            in_use = refl;
            large = omega arith;
            others = λ a c used at.
                let at' = BlockAt-later p b bs a c free used at in
                (omega (arith, le-BlockAt (after p b.size) bs a c at'), inr (inr (rw e at')));
          })
      | inr tight ↦ rw tight (record {
        block = record { size = b.size; free = false };
        at = inl (refl, refl);
        in_use = refl;
        large = fits;
        others = λ a c used at.
            let at' = BlockAt-later p b bs a c free used at in
            (omega (arith, le-BlockAt (after p b.size) bs a c at'), inr at');
      })
    ]

abbrev Served : ℕ → ℕ → List Block → Option (ℕ × List Block) → Type 0
Served size p bs none = Unit
Served size p bs (some (q, cs)) = (p ≤ q) × Fresh size p bs q cs

-- A block that is passed by stays.
Served-cons :
    (size p : ℕ) (b : Block) (bs : List Block) (o : Option (ℕ × List Block))
    → Served size (after p b.size) bs o
    → Served size p (b ∷ bs) (elim o [ none ↦ none | some (q, cs) ↦ some (q, b ∷ cs) ])
Served-cons size p b bs none s = tt
Served-cons size p b bs (some (q, cs)) (le, f) = (
  omega arith,
  record {
    block = f.block;
    at = inr f.at;
    in_use = f.in_use;
    large = f.large;
    others = λ a c used at. kept a c used at;
  },
)
  where
    kept :
        (a : ℕ) (c : Block)
        → c.free ≡ false
        → BlockAt p (b ∷ bs) a c
        → (a ≢ q) × BlockAt p (b ∷ cs) a c
    kept a c used (inl (e, same)) = (omega arith, inl (e, same))
    kept a c used (inr at) = let (ne, at') = f.others a c used at in (ne, inr at')

first_fit-Served : (size p : ℕ) (bs : List Block) → Served size p bs (first_fit size p bs)
unfolding first_fit
first_fit-Served size p [] = tt
first_fit-Served size p (b ∷ bs) =
    let rest = first_fit-Served size (after p b.size) bs in
    elim (Bool-cases (b.free && leb size b.size)) [
      | inl fits ↦ rw fits (omega arith, Fresh-taken size p b bs (ground arith) (ground arith))
      | inr busy ↦ rw busy (Served-cons size p b bs (first_fit size (after p b.size) bs) rest)
    ]

-- A block put behind all others.
Fresh-append :
    (m : Store) (size e pr p : ℕ) (bs : List Block) (n : Block)
    → n.free ≡ false
    → size ≤ n.size
    → Tiles m e pr p bs
    → Fresh size p bs e (bs ++ (n ∷ []))
Fresh-append m size e pr p [] n used large t = record {
  block = n;
  at = inl (sym t, refl);
  in_use = used;
  large = large;
  others = λ a c u at. absurd at;
}
Fresh-append m size e pr p (b ∷ bs) n used large t =
    let f = Fresh-append m size e p (after p b.size) bs n used large t.3 in
    let le = Tiles-le m e p (after p b.size) bs t.3 in
    (Served-cons size p b bs (some (e, bs ++ (n ∷ []))) (le, f)).1

malloc_blocks-Fresh :
    (h : Heap) (size : ℕ) (bs : List Block) (o : Option (ℕ × List Block))
    → Tiles h.mem h.end_addr null h.start bs
    → Served size h.start bs o
    → let r : ℕ × List Block = elim o [
      | some (q, cs) ↦ (q, cs)
      | none ↦ (h.end_addr, bs ++ (record { size = (fresh_block size).size; free = false } ∷ []))
    ] in
      Fresh size h.start bs r.0 r.1
malloc_blocks-Fresh h size bs none t s =
    Fresh-append h.mem size h.end_addr null h.start bs _ refl (omega arith) t
malloc_blocks-Fresh h size bs (some (q, cs)) t s = s.1

-- The whole of `kmalloc_heap` for a caller.
pub record Handed (fuel wanted : ℕ) (h : Heap) (bs : List Block) : Type 0 where
  pub header : ℕ
  pub heap : Heap
  pub blocks : List Block
  pub returns : kmalloc_heap fuel wanted h ≡ some (header + heap_header_len, heap)
  pub holds : IsHeap heap blocks
  pub fresh : Fresh wanted h.start bs header blocks

Fresh-le :
    {size size' p q : ℕ} {bs cs : List Block}
    → size' ≤ size
    → Fresh size p bs q cs
    → Fresh size' p bs q cs
Fresh-le le f = record {
  block = f.block;
  at = f.at;
  in_use = f.in_use;
  large = omega (arith, f.large);
  others = f.others;
}

-- On a well-formed heap, for a request that is not 0 and leaves the heap below the end of the
-- address space, and with more fuel than segments, `kmalloc_heap` returns the address behind a
-- header whose block is in use afterwards and at least as large as the request; every block that
-- was in use is still there, at the same place and of the same size, and is a different one; and
-- the heap is well formed.
pub kmalloc_heap_fresh :
    (h : Heap) (b : Block) (bs : List Block) (fuel wanted : ℕ)
    → IsHeap h (b ∷ bs)
    → length bs < fuel
    → 0 < wanted
    → h.end_addr + wanted + 16384 < u64
    → Handed fuel wanted h (b ∷ bs)
unfolding malloc_blocks
kmalloc_heap_fresh h b bs fuel wanted v enough pos room =
    let r = kmalloc_heap_refines h b bs v fuel wanted enough pos room in
    let size = rounded_size wanted in
    record {
      header = (malloc_blocks size h.start h.end_addr (b ∷ bs)).0;
      heap = r.heap;
      blocks = (malloc_blocks size h.start h.end_addr (b ∷ bs)).1;
      returns = r.returns;
      holds = r.holds;
      fresh = Fresh-le (size_facts wanted (omega arith)).2 (
          malloc_blocks-Fresh h size (b ∷ bs) (first_fit size h.start (b ∷ bs)) v.tiles
            (first_fit-Served size h.start (b ∷ bs)));
    }
