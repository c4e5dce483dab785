-- ===== src/Kheap/Tiles.antt =====
-- What a heap holds: blocks that tile the addresses from its start to its end, each behind a header
-- that leads to its neighbours.
use plenjos_kernel.Prelude.{
  ℕ, ◌+◌, ◌-◌, ◌%◌, ◌≤◌, ◌<◌, ◌≡◌, Bool, true, false, Option, none, some, List, [], ◌∷◌, arith, leb,
  if◌then◌else◌, ◌&&◌, length,
}
use plenjos_kernel.Kheap.{
  Segment, Store, null, Heap, write, u64, page_len, heap_header_len, heap_alloc_min,
}

pub record Block : Type 0 where
  pub size : ℕ
  pub free : Bool

-- where the header behind a block of this size stands
abbrev pub after : ℕ → ℕ → ℕ
after p size = p + heap_header_len + size

abbrev pub next_of : ℕ → ℕ → List Block → ℕ
next_of p size [] = null
next_of p size (b ∷ bs) = after p size

abbrev pub header : ℕ → ℕ → Block → List Block → Segment
header pr p b bs = record { size = b.size; next = next_of p b.size bs; prev = pr; free = b.free }

-- From header `p`, whose predecessor is `pr`, the blocks fill the addresses up to `e`.
abbrev pub Tiles : Store → ℕ → ℕ → ℕ → List Block → Type 0
Tiles m e pr p [] = p ≡ e
Tiles m e pr p (b ∷ bs) =
    (m p ≡ some (header pr p b bs))
    × (b.size % 16 ≡ 0)
    × (heap_alloc_min ≤ b.size)
    × Tiles m e p (after p b.size) bs

-- the address of the last header
abbrev pub last_of : ℕ → ℕ → List Block → ℕ
last_of pr p [] = pr
last_of pr p (b ∷ bs) = last_of p (after p b.size) bs

pub record IsHeap (h : Heap) (bs : List Block) : Type 0 where
  pub tiles : Tiles h.mem h.end_addr null h.start bs
  pub some_block : 0 < length bs
  pub last : h.last_segment ≡ last_of null h.start bs
  pub start_pos : 0 < h.start
  pub start_aligned : h.start % page_len ≡ 0
  pub end_aligned : h.end_addr % page_len ≡ 0
  pub end_below : h.end_addr < u64

pub Tiles-le : (m : Store) (e pr p : ℕ) (bs : List Block) → Tiles m e pr p bs → p ≤ e
Tiles-le m e pr p [] t = omega arith
Tiles-le m e pr p (b ∷ bs) t = omega (arith, Tiles-le m e p (after p b.size) bs t.3)

-- Only the headers from `p` on matter.
pub Tiles-frame :
    (m m' : Store) (e pr p : ℕ) (bs : List Block)
    → ((a : ℕ) → p ≤ a → m' a ≡ m a)
    → Tiles m e pr p bs
    → Tiles m' e pr p bs
Tiles-frame m m' e pr p [] same t = t
Tiles-frame m m' e pr p (b ∷ bs) same t = (
  ground (arith, same p),
  t.1,
  t.2,
  Tiles-frame m m' e p (after p b.size) bs (λ a h. same a (omega arith)) t.3,
)

-- Giving the first header another predecessor.
pub Tiles-set_prev :
    (m : Store) (e pr pr' p : ℕ) (b : Block) (bs : List Block)
    → Tiles m e pr p (b ∷ bs)
    → Tiles (write m p (header pr' p b bs)) e pr' p (b ∷ bs)
unfolding write
Tiles-set_prev m e pr pr' p b bs t = (
  ground arith,
  t.1,
  t.2,
  Tiles-frame m (write m p (header pr' p b bs)) e p (after p b.size) bs (λ a h. ground arith) t.3,
)

pub le-last_of : (pr p : ℕ) (b : Block) (bs : List Block) → p ≤ last_of pr p (b ∷ bs)
le-last_of pr p b [] = omega arith
le-last_of pr p b (c ∷ cs) = omega (arith, le-last_of p (after p b.size) c cs)

-- The blocks that an allocation of `size` leaves of the block that it takes.
abbrev pub taken : ℕ → Block → List Block → List Block
taken size b bs =
    if leb (size + heap_header_len + heap_alloc_min) b.size
    then record { size = size; free = false }
      ∷ record { size = b.size - size - heap_header_len; free = true }
      ∷ bs
    else record { size = b.size; free = false } ∷ bs

-- First fit: the header of the first free block that is large enough, and the blocks afterwards.
unfoldable pub first_fit : ℕ → ℕ → List Block → Option (ℕ × List Block)
first_fit size p [] = none
first_fit size p (b ∷ bs) =
    if b.free && leb size b.size
    then some (p, taken size b bs)
    else elim (first_fit size (after p b.size) bs) [ none ↦ none | some (q, cs) ↦ some (q, b ∷ cs) ]
