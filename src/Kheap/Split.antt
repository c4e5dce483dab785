-- ===== src/Kheap/Split.antt =====
-- `kheap_segment_split` and the taking of a segment, on the blocks of a heap.
use plenjos_kernel.Prelude.{
  ℕ, ◌+◌, ◌-◌, ◌*◌, ◌%◌, ◌≤◌, ◌<◌, ◌≡◌, refl, true, false, some, List, [], ◌∷◌, arith, leb, ◌==◌,
  if◌then◌else◌, Bool-cases, inl, inr, ne→==, ==_refl, le→leb,
}
use plenjos_kernel.Kheap.{
  Segment, Store, null, Heap, write, u64, heap_header_len, heap_alloc_min, take_segment,
  split_rounded, link_split, kheap_segment_split, round_up, at_least_min,
}
use plenjos_kernel.Kheap.Tiles.{
  Block, after, header, Tiles, last_of, Tiles-le, Tiles-frame, le-last_of, taken,
}

-- What taking the segment at `p` does: it leaves the blocks `bs'`, and what stands below `p`.
pub record Took (h : Heap) (pr p : ℕ) (bs : List Block) (h' : Heap) : Type 0 where
  pub tiles : Tiles h'.mem h.end_addr pr p bs
  pub last : h'.last_segment ≡ last_of pr p bs
  pub below : (a : ℕ) → a < p → h'.mem a ≡ h.mem a
  pub start : h'.start ≡ h.start
  pub end_addr : h'.end_addr ≡ h.end_addr
  pub mapped : h'.mapped ≡ h.mapped

-- A size that is rounded already stays.
rounded : (n : ℕ) → n % 16 ≡ 0 → heap_alloc_min ≤ n → at_least_min (round_up n) ≡ n
rounded n r l = ground arith

split-whole :
    (h : Heap) (p size : ℕ) (s : Segment)
    → size ≤ s.size
    → s.size < size + 48
    → p + 32 + s.size < u64
    → split_rounded p size s h ≡ some h
unfolding split_rounded
split-whole h p size s fits tight small = ground arith

split-parts :
    (h : Heap) (p size : ℕ) (s : Segment)
    → size + 48 ≤ s.size
    → p + 32 + s.size < u64
    → split_rounded p size s h ≡ link_split p size (s.size - size - 32) (after p size) s h
unfolding split_rounded
split-parts h p size s room small =
    let fits : (size + heap_header_len) % u64 ≡ size + 32 = omega arith in
    let rest : (s.size + 2 * u64 - size - heap_header_len) % u64 ≡ s.size - size - 32 =
      omega arith in
    let new : (p + size + heap_header_len) % u64 ≡ after p size = omega arith in
    rw (fits, rest, new) (ground (arith))

-- The store after a split of the segment `s` at `p` with a new header at `new`: what is behind it
-- has its `prev` set, where there is such a segment.
module _ (p size rest new : ℕ) (s : Segment) where
  fresh : Segment
  fresh = record { size = rest; next = s.next; prev = p; free = true }

  split_last : Store → Store
  unfolding fresh
  split_last m =
      write (write (write m new fresh) p (record s { size = size })) p
        (record s { size = size; next = new })

  split_middle : Segment → Store → Store
  unfolding fresh
  split_middle c m =
      write
        (write (write (write m new fresh) p (record s { size = size })) s.next
          (record c { prev = new }))
        p (record s { size = size; next = new })

link_split-last :
    (h : Heap) (p size rest new : ℕ) (s : Segment)
    → h.mem p ≡ some s
    → p < new
    → s.next ≡ null
    → link_split p size rest new s h
      ≡ some (record h {
        mem = split_last p size rest new s h.mem;
        last_segment = if h.last_segment == p then new else h.last_segment;
      })
unfolding write split_last link_split
link_split-last h p size rest new s e lt n = rw (ne→== p new (omega arith), e, n, ==_refl)

link_split-middle :
    (h : Heap) (p size rest new : ℕ) (s c : Segment)
    → h.mem p ≡ some s
    → h.mem s.next ≡ some c
    → p < new
    → new < s.next
    → link_split p size rest new s h
      ≡ some (record h {
        mem = split_middle p size rest new s c h.mem;
        last_segment = if h.last_segment == p then new else h.last_segment;
      })
unfolding write split_middle link_split
link_split-middle h p size rest new s c e f lt lt' =
    rw (ne→== p new (omega arith), e, ne→== s.next null (omega arith))
      (rw (ne→== s.next p (omega arith), ne→== s.next new (omega arith), f)
        (rw (ne→== p s.next (omega arith), ==_refl p)))

module _ (h : Heap) (pr p size : ℕ) (pos : 0 < p) (small : h.end_addr < u64) (round : size % 16 ≡ 0)
    (least : heap_alloc_min ≤ size) where
  -- The rest of the segment is too small for a header and a block: it is taken whole.
  take_whole-eq :
      (s : Segment)
      → h.mem p ≡ some s
      → size ≤ s.size
      → s.size < size + 48
      → p + 32 + s.size < u64
      → take_segment p size s h
        ≡ some (record h { mem = write h.mem p (record s { free = false }) })
  unfolding take_segment kheap_segment_split
  take_whole-eq s e fits tight below = elim (Bool-cases (s.size == size)) [
    | inl eq ↦ rw (eq, e)
    | inr ne ↦ rw (ne, e, rounded size round least, split-whole h p size s fits tight below, e)
  ]

  take_whole :
      (b : Block) (bs : List Block)
      → Tiles h.mem h.end_addr pr p (b ∷ bs)
      → h.last_segment ≡ last_of pr p (b ∷ bs)
      → size ≤ b.size
      → b.size < size + 48
      → (h' : Heap) × (take_segment p size (header pr p b bs) h ≡ some h')
        × Took h pr p (record { size = b.size; free = false } ∷ bs) h'
  unfolding write
  take_whole b bs t last fits tight = (
    record h { mem = write h.mem p (header pr p (record b { free = false }) bs) },
    take_whole-eq (header pr p b bs) t.0 fits tight
        (omega (arith, Tiles-le h.mem h.end_addr p (after p b.size) bs t.3)),
    record {
      tiles = (
        ground arith,
        t.1,
        t.2,
        Tiles-frame h.mem _ h.end_addr p (after p b.size) bs (λ a h. ground arith) t.3,
      );
      last = last;
      below = λ a lt. ground arith;
      start = refl;
      end_addr = refl;
      mapped = refl;
    },
  )

  -- Taking a segment that is split, with the header behind it if there is one.
  take_parts-last :
      (s : Segment)
      → h.mem p ≡ some s
      → s.next ≡ null
      → size + 48 ≤ s.size
      → p + 32 + s.size < u64
      → let new = after p size in
        take_segment p size s h
        ≡ some (record h {
          mem =
              write
                (split_last p size (s.size - size - 32) new s h.mem)
                p
                (record s { size = size; next = new; free = false });
          last_segment = if h.last_segment == p then new else h.last_segment;
        })
  unfolding take_segment kheap_segment_split split_last write
  take_parts-last s e n room below = rw (
    ne→== s.size size (omega arith),
    e,
    rounded size round least,
    split-parts h p size s room below,
    link_split-last h p size (s.size - size - 32) (after p size) s e (omega arith) n,
    ==_refl p,
  )

  take_parts-middle :
      (s c : Segment)
      → h.mem p ≡ some s
      → h.mem s.next ≡ some c
      → s.next ≡ p + 32 + s.size
      → size + 48 ≤ s.size
      → p + 32 + s.size < u64
      → let new = after p size in
        take_segment p size s h
        ≡ some (record h {
          mem =
              write
                (split_middle p size (s.size - size - 32) new s c h.mem)
                p
                (record s { size = size; next = new; free = false });
          last_segment = if h.last_segment == p then new else h.last_segment;
        })
  unfolding take_segment kheap_segment_split split_middle write
  take_parts-middle s c e f n room below = rw (
    ne→== s.size size (omega arith),
    e,
    rounded size round least,
    split-parts h p size s room below,
    link_split-middle h p size (s.size - size - 32) (after p size) s c e f (omega arith)
        (omega arith),
    ==_refl p,
  )

  take_last :
      (b : Block)
      → Tiles h.mem h.end_addr pr p (b ∷ [])
      → h.last_segment ≡ last_of pr p (b ∷ [])
      → size + 48 ≤ b.size
      → (h' : Heap) × (take_segment p size (header pr p b []) h ≡ some h')
        × Took h pr p (taken size b []) h'
  unfolding write split_last fresh
  take_last b t last room = (
    _,
    take_parts-last (header pr p b []) t.0 refl room (omega arith),
    rw (le→leb (size + heap_header_len + heap_alloc_min) b.size (omega arith)) (record {
      tiles = ground arith;
      last = ground arith;
      below = λ a lt. ground arith;
      start = refl;
      end_addr = refl;
      mapped = refl;
    }),
  )

  take_middle :
      (b c : Block) (cs : List Block)
      → Tiles h.mem h.end_addr pr p (b ∷ c ∷ cs)
      → h.last_segment ≡ last_of pr p (b ∷ c ∷ cs)
      → size + 48 ≤ b.size
      → (h' : Heap) × (take_segment p size (header pr p b (c ∷ cs)) h ≡ some h')
        × Took h pr p (taken size b (c ∷ cs)) h'
  unfolding write split_middle fresh
  take_middle b c cs t last room =
      let q = after p b.size in
      let new = after p size in
      let le = Tiles-le h.mem h.end_addr p q (c ∷ cs) t.3 in
      let e : q ≡ after new (b.size - size - heap_header_len) = omega arith in
      (
        _,
        take_parts-middle (header pr p b (c ∷ cs)) (header p q c cs) t.0 t.3.0 refl room
            (omega arith),
        rw (le→leb (size + heap_header_len + heap_alloc_min) b.size (omega arith)) (record {
          tiles = (
            ground arith,
            round,
            least,
            (
              ground arith,
              omega arith,
              omega arith,
              rw (← e) (
                rw (ne→== q p (omega arith), ==_refl q),
                t.3.1,
                t.3.2,
                Tiles-frame h.mem _ h.end_addr q (after q c.size) cs (λ a h. ground arith) t.3.3,
              ),
            ),
          );
          last = ground (arith, le-last_of p q c cs);
          below = λ a lt. ground arith;
          start = refl;
          end_addr = refl;
          mapped = refl;
        }),
      )

  -- Taking a segment that is large enough leaves the blocks of `taken`.
  pub take_segment-Took :
      (b : Block) (bs : List Block)
      → Tiles h.mem h.end_addr pr p (b ∷ bs)
      → h.last_segment ≡ last_of pr p (b ∷ bs)
      → size ≤ b.size
      → (h' : Heap) × (take_segment p size (header pr p b bs) h ≡ some h')
        × Took h pr p (taken size b bs) h'
  take_segment-Took b bs t last fits =
      elim (Bool-cases (leb (size + heap_header_len + heap_alloc_min) b.size)) [
        | inl room ↦ split bs t last (ground arith)
        | inr tight ↦ rw tight (take_whole b bs t last fits (ground arith))
      ]
    where
      split :
          (cs : List Block)
          → Tiles h.mem h.end_addr pr p (b ∷ cs)
          → h.last_segment ≡ last_of pr p (b ∷ cs)
          → size + 48 ≤ b.size
          → (h' : Heap) × (take_segment p size (header pr p b cs) h ≡ some h')
            × Took h pr p (taken size b cs) h'
      split [] = take_last b
      split (c ∷ cs) = take_middle b c cs
