-- ===== src/Kheap/Bump.antt =====
-- `kmalloc` and `kmalloc_a` of memory/kmalloc.c: the allocators of physical memory before paging.
use plenjos_kernel.Prelude.{
  ℕ, ◌+◌, ◌-◌, ◌/◌, ◌*◌, ◌%◌, ◌≤◌, ◌<◌, ◌≡◌, Bool, true, Option, none, some, arith, leb, ◌==◌,
  if◌then◌else◌, ◌&&◌, not, Bool-cases, inl, inr,
}
use plenjos_kernel.Kheap.{u64, page_len}

-- PHYS_MEM_HEAD and PHYS_MEM_USEABLE_END
pub record PhysMem : Type 0 where
  pub head : ℕ
  pub useable_end : ℕ

-- `kmalloc`: the physical address, or nothing; `phys_to_virt` adds a constant to it.
pub kmalloc : ℕ → PhysMem → Option ℕ × PhysMem
kmalloc size s =
    if leb s.useable_end ((s.head + size) % u64)
    then (none, s)
    else (some s.head, record s { head = (s.head + size) % u64 })

-- `kmalloc_a`: the head stays aligned also where the allocation fails.
pub kmalloc_a : ℕ → Bool → PhysMem → Option ℕ × PhysMem
unfolding kmalloc
kmalloc_a size align s =
    if align && not (s.head % page_len == 0)
    then kmalloc size (record s { head = (s.head + page_len - 1) % u64 / page_len * page_len })
    else kmalloc size s

-- What `kmalloc_a` with alignment may return: a range of the size asked for that starts at a page,
-- at the old head or less than a page behind it, and ends below the useable end; or nothing, where
-- no such range is left.
abbrev pub AlignedRange : ℕ → PhysMem → Option ℕ × PhysMem → Type 0
AlignedRange size s (some p, s') =
    (p % page_len ≡ 0)
    × (s.head ≤ p)
    × (p < s.head + page_len)
    × (s'.head ≡ p + size)
    × (s'.head < s.useable_end)
    × (s'.useable_end ≡ s.useable_end)
AlignedRange size s (none, s') = (s.useable_end ≤ s'.head + size) × (s'.useable_end ≡ s.useable_end)

-- An aligned allocation whose sums stay below the end of the address space returns a range of pages
-- that starts at the old head or less than a page behind it, has the size asked for and ends below
-- the useable end, or returns nothing where less than that is left.
pub kmalloc_a_aligned :
    (size : ℕ) (s : PhysMem)
    → s.head + page_len + size < u64
    → AlignedRange size s (kmalloc_a size true s)
unfolding kmalloc_a
kmalloc_a_aligned size s room = elim (Bool-cases (s.head % page_len == 0)) [
  | inl on ↦ rw on (tail s.head (omega arith) (ground arith) (omega arith))
  | inr off ↦ rw off (
      tail ((s.head + page_len - 1) % u64 / page_len * page_len) (omega arith) (omega arith)
        (ground arith))
]
  where
    tail :
        (p : ℕ)
        → s.head ≤ p
        → p % page_len ≡ 0
        → p < s.head + page_len
        → AlignedRange size s (kmalloc size (record s { head = p }))
    tail p le on lt = elim (Bool-cases (leb s.useable_end ((p + size) % u64))) [
      | inl full ↦ rw full (ground arith)
      | inr fits ↦ rw fits (ground arith)
    ]
