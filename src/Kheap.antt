-- ===== src/Kheap.antt =====
-- memory/kmalloc.c: the kernel heap, a chain of segments with a header before each. Headers live in
-- a store from addresses to headers; every function runs under the heap lock, so it is one step.
pub mod Tiles
pub mod Split
pub mod Find
pub mod Grow
pub mod Laws
pub mod Live
pub mod Free
pub mod Bump
mod Examples
use plenjos_kernel.Prelude.{
  ℕ, zero, suc, ◌+◌, ◌-◌, ◌*◌, ◌/◌, ◌%◌, ◌^◌, Bool, true, false, Option, none, some, List, [], ◌∷◌,
  ◌++◌, ◌==◌, ltb, leb, if◌then◌else◌, ◌&&◌, ◌>>=◌,
}

abbrev pub u64 : ℕ
u64 = 2 ^ 64

abbrev pub page_len : ℕ
page_len = 4096

abbrev pub heap_granularity : ℕ
heap_granularity = 16

abbrev pub heap_alloc_min : ℕ
heap_alloc_min = 16

-- `sizeof(heap_segment_info_t)`: three words and a flag, aligned to 16
abbrev pub heap_header_len : ℕ
heap_header_len = 32

-- `struct heap_segment_info`
pub record Segment : Type 0 where
  pub size : ℕ
  pub next : ℕ
  pub prev : ℕ
  pub free : Bool

abbrev pub Store : Type 0
Store = ℕ → Option Segment

abbrev pub null : ℕ
null = 0

pub record Heap : Type 0 where
  pub mem : Store
  pub start : ℕ
  pub end_addr : ℕ
  pub last_segment : ℕ
  -- the pages that were asked of the page tables, newest first
  pub mapped : List ℕ

unfoldable pub write : Store → ℕ → Segment → Store
write m p s a = if a == p then some s else m a

-- A store to one field through a pointer; a fault where no header is.
abbrev pub update : Store → ℕ → (Segment → Segment) → Option Store
update m p f = m p >>= λ s. some (write m p (f s))

-- `if (p) p->prev = new`
abbrev pub set_prev_if : Store → ℕ → ℕ → Option Store
set_prev_if m p new = if p == null then some m else update m p (λ s. record s { prev = new })

-- `if (p) p->next = new`
abbrev pub set_next_if : Store → ℕ → ℕ → Option Store
set_next_if m p new = if p == null then some m else update m p (λ s. record s { next = new })

-- Rounding up to the granularity, with the wrap of `uint64_t`, and then to the least size.
abbrev pub round_up : ℕ → ℕ
round_up n =
    if n % heap_granularity == 0 then n else (n + heap_granularity - n % heap_granularity) % u64

abbrev pub at_least_min : ℕ → ℕ
at_least_min n = if ltb n heap_alloc_min then heap_alloc_min else n

-- The calls `find_page(pg_addr + i * PAGE_LEN, true, kernel_pml4)`.
pub map_pages : ℕ → ℕ → List ℕ → List ℕ
map_pages zero addr log = log
map_pages (suc n) addr log = map_pages n (addr + page_len) (addr ∷ log)

-- `kheap_add_segment`; none is its panic at a heap end that is not aligned to a page.
pub kheap_add_segment : ℕ → Heap → Option (ℕ × Heap)
unfolding map_pages
kheap_add_segment len h = if h.end_addr % page_len == 0 then linked else none
  where
    pages : ℕ
    pages = (at_least_min len + heap_header_len + page_len - 1) % u64 / page_len

    size : ℕ
    size = (pages * page_len % u64 + u64 - heap_header_len) % u64

    linked : Option (ℕ × Heap)
    linked = do
      m ← set_next_if h.mem h.last_segment h.end_addr
      some (
        h.end_addr,
        record {
          mem =
              write m h.end_addr
                (record { size = size; next = null; prev = h.last_segment; free = true });
          start = h.start;
          end_addr = (h.end_addr + pages * page_len) % u64;
          last_segment = h.end_addr;
          mapped = map_pages pages h.end_addr h.mapped;
        },
      )

-- The part of `kheap_segment_split` that makes the new segment and links it in.
pub link_split : ℕ → ℕ → ℕ → ℕ → Segment → Heap → Option Heap
link_split seg keep rest new s h = do
  m ←
      update (write h.mem new (record { size = rest; next = s.next; prev = seg; free = true })) seg
        (λ t. record t { size = keep })
  m ← set_prev_if m s.next new
  m ← update m seg (λ t. record t { next = new })
  some (record h { mem = m; last_segment = if h.last_segment == seg then new else h.last_segment })

-- `kheap_segment_split` once the size to keep is rounded. Where it makes no new segment, nothing
-- changes.
pub split_rounded : ℕ → ℕ → Segment → Heap → Option Heap
split_rounded seg keep s h =
    let rest = (s.size + 2 * u64 - keep - heap_header_len) % u64 in
    if leb s.size ((keep + heap_header_len) % u64)
    then some h
    else if ltb rest heap_alloc_min
    then some h
    else link_split seg keep rest ((seg + keep + heap_header_len) % u64) s h

pub kheap_segment_split : ℕ → ℕ → Heap → Option Heap
kheap_segment_split seg keep h =
    h.mem seg >>= λ s. split_rounded seg (at_least_min (round_up keep)) s h

-- What the walk of `kmalloc_heap` does with a segment that it may take.
pub take_segment : ℕ → ℕ → Segment → Heap → Option Heap
take_segment p size s h = do
  h' ← if s.size == size then some h else kheap_segment_split p size h
  m ← update h'.mem p (λ t. record t { free = false })
  some (record h' { mem = m })

-- The walk, on fuel: the first free segment that is large enough, or the last segment's NULL.
pub find_segment : ℕ → ℕ → ℕ → Heap → Option (Option ℕ × Heap)
find_segment zero p size h = none
find_segment (suc fuel) p size h = h.mem p >>= λ s.
    let rest = find_segment fuel s.next size h in
    if s.free && leb size s.size
    then (take_segment p size s h >>= λ h'. some (some p, h'))
    else if s.next == null
    then some (none, h)
    else rest

-- `kmalloc_heap` once the size is rounded: the walk, and a new segment where it finds none.
pub kmalloc_rounded : ℕ → ℕ → Heap → Option (ℕ × Heap)
kmalloc_rounded fuel size h = do
  (found, h') ← find_segment fuel h.start size h
  elim found [
    | some p ↦ some (p + heap_header_len, h')
    | none ↦ do
      (p, g) ← kheap_add_segment size h'
      m ← update g.mem p (λ s. record s { free = false })
      some (p + heap_header_len, record g { mem = m })
  ]

-- `kmalloc_heap`, at `fuel` rounds of its walk; the pointer it returns, NULL for a size of 0.
pub kmalloc_heap : ℕ → ℕ → Heap → Option (ℕ × Heap)
kmalloc_heap fuel wanted h =
    if wanted == 0 then some (null, h) else kmalloc_rounded fuel (at_least_min (round_up wanted)) h

-- The header in front of a pointer that `kmalloc_heap` returned, with the wrap of `uint64_t`.
abbrev pub header_of : ℕ → ℕ
header_of ptr = (ptr + u64 - heap_header_len) % u64

-- `kfree_heap`: NULL and a segment that is free already are reported and left alone.
pub kfree_heap : ℕ → Heap → Option Heap
kfree_heap ptr h =
    if ptr == null
    then some h
    else h.mem (header_of ptr) >>= λ s.
        if s.free
        then some h
        else some (record h { mem = write h.mem (header_of ptr) (record s { free = true }) })

-- `init_kernel_heap` at the heap's start address: four pages by hand, then a segment for the rest of
-- the 160 pages.
pub init_kernel_heap : ℕ → Option (ℕ × Heap)
unfolding kheap_add_segment map_pages
init_kernel_heap base = kheap_add_segment (page_len * 160 - page_len * 4) (record {
  mem =
      write (λ a. none) base
        (record { size = page_len * 4 - heap_header_len; next = null; prev = null; free = true });
  start = base;
  end_addr = base + page_len * 4;
  last_segment = base;
  mapped = map_pages 4 base [];
})
