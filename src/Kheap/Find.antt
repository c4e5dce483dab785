-- ===== src/Kheap/Find.antt =====
-- The walk of `kmalloc_heap` is first fit on the blocks.
use plenjos_kernel.Prelude.{
  ℕ, zero, suc, ◌%◌, ◌≤◌, ◌<◌, ◌≡◌, refl, ◌∙◌, true, false, Option, none, some, List, [], ◌∷◌,
  arith, leb, ◌&&◌, length, Bool-cases, inl, inr, ne→==,
}
use plenjos_kernel.Kheap.{null, Heap, u64, heap_alloc_min, find_segment}
use plenjos_kernel.Kheap.Tiles.{Block, after, Tiles, last_of, first_fit}
use plenjos_kernel.Kheap.Split.{Took, take_segment-Took}

-- What the walk from header `p` returns, by what first fit says of the blocks from there on.
abbrev pub Found : ℕ → ℕ → ℕ → ℕ → Heap → Option (ℕ × List Block) → Type 0
Found fuel pr p size h none = find_segment fuel p size h ≡ some (none, h)
Found fuel pr p size h (some (q, bs)) =
    (h' : Heap) × (find_segment fuel p size h ≡ some (some q, h')) × Took h pr p bs h'

-- First fit never leaves an empty heap.
pub first_fit-nonempty :
    (size p : ℕ) (bs : List Block) (q : ℕ) (cs : List Block)
    → first_fit size p bs ≡ some (q, cs)
    → 0 < length cs
unfolding first_fit
first_fit-nonempty size p [] q cs e = ground arith
first_fit-nonempty size p (b ∷ bs) q cs e = ground arith

module _ (h : Heap) (size : ℕ) (small : h.end_addr < u64) (round : size % 16 ≡ 0)
    (least : heap_alloc_min ≤ size) where
  -- A segment that is passed by is put back in front of what the rest of the walk leaves.
  find-passed :
      (fuel pr p : ℕ) (b c : Block) (cs : List Block) (o : Option (ℕ × List Block))
      → 0 < p
      → Tiles h.mem h.end_addr pr p (b ∷ c ∷ cs)
      → (b.free && leb size b.size) ≡ false
      → ((q : ℕ) (ds : List Block) → o ≡ some (q, ds) → 0 < length ds)
      → Found fuel p (after p b.size) size h o
      → Found (suc fuel) pr p size h (elim o [ none ↦ none | some (q, ds) ↦ some (q, b ∷ ds) ])
  unfolding find_segment
  find-passed fuel pr p b c cs none pos t busy len f =
      rw (t.0, busy, ne→== (after p b.size) null (omega arith)) f
  find-passed fuel pr p b c cs (some (q, [])) pos t busy len f =
      absurd (omega (arith, len q [] refl))
  find-passed fuel pr p b c cs (some (q, d ∷ ds)) pos t busy len (h', e, took) = (
    h',
    rw (t.0, busy, ne→== (after p b.size) null (omega arith)) e,
    record {
      tiles = (took.below p (omega arith) ∙ t.0, t.1, t.2, took.tiles);
      last = took.last;
      below = λ a lt. took.below a (omega arith);
      start = took.start;
      end_addr = took.end_addr;
      mapped = took.mapped;
    },
  )

  find-fits :
      (fuel pr p : ℕ) (b : Block) (bs : List Block)
      → 0 < p
      → Tiles h.mem h.end_addr pr p (b ∷ bs)
      → h.last_segment ≡ last_of pr p (b ∷ bs)
      → (b.free && leb size b.size) ≡ true
      → Found (suc fuel) pr p size h (first_fit size p (b ∷ bs))
  unfolding find_segment first_fit
  find-fits fuel pr p b bs pos t last fits =
      let (h', e, took) =
        take_segment-Took h pr p size pos small round least b bs t last (ground arith) in
      rw fits (h', rw (t.0, fits, e), took)

  pub find-Found :
      (fuel pr p : ℕ) (b : Block) (bs : List Block)
      → length bs < fuel
      → 0 < p
      → Tiles h.mem h.end_addr pr p (b ∷ bs)
      → h.last_segment ≡ last_of pr p (b ∷ bs)
      → Found fuel pr p size h (first_fit size p (b ∷ bs))
  unfolding find_segment first_fit
  find-Found zero pr p b bs room pos t last = absurd (omega arith)
  find-Found (suc fuel) pr p b [] room pos t last = elim (Bool-cases (b.free && leb size b.size)) [
    | inl fits ↦ find-fits fuel pr p b [] pos t last fits
    | inr busy ↦ rw busy (rw (t.0, busy))
  ]
  find-Found (suc fuel) pr p b (c ∷ cs) room pos t last =
      let rest = find-Found fuel p (after p b.size) c cs (omega arith) (omega arith) t.3 last in
      elim (Bool-cases (b.free && leb size b.size)) [
        | inl fits ↦ find-fits fuel pr p b (c ∷ cs) pos t last fits
        | inr busy ↦ rw busy (
            find-passed fuel pr p b c cs (first_fit size (after p b.size) (c ∷ cs)) pos t busy
              (first_fit-nonempty size (after p b.size) (c ∷ cs)) rest)
      ]
