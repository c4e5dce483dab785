-- ===== src/Malloc.antt =====
-- usr/libc/src/stdlib/alloc.c: the heap of a process. The chain of segments is the list of them in the
-- order of `next`, which `prev` and `heap_last_segment` follow; every function runs under the heap lock.
-- Bytes are not kept: `calloc` and `realloc` return the range that they clear or copy.
use plenjos_kernel.Prelude.{
  ℕ, zero, suc, ◌+◌, ◌-◌, ◌*◌, ◌/◌, ◌%◌, ◌^◌, ◌≡◌, refl, Bool, true, false, Option, none, some,
  List, [], ◌∷◌, ◌++◌, ◌==◌, ltb, leb, not, if◌then◌else◌, ◌&&◌,
}
pub mod Order
pub mod Serve
pub mod Calloc
mod Examples

abbrev pub page_len : ℕ
page_len = 4096

abbrev pub heap_alloc_min : ℕ
heap_alloc_min = 16

abbrev pub heap_header_len : ℕ
heap_header_len = 32

abbrev pub heap_start : ℕ
heap_start = 0x2000000000

abbrev pub null : ℕ
null = 0

-- `heap_segment_info_t`, with the address of its header
pub record Segment : Type 0 where
  pub addr : ℕ
  pub size : ℕ
  pub free : Bool

pub record Heap : Type 0 where
  pub segments : List Segment
  pub heap_end : ℕ

abbrev pub at_least_min : ℕ → ℕ
at_least_min n = if ltb n heap_alloc_min then heap_alloc_min else n

-- `heap_add_segment`: the segment, and the end of the pages that are mapped for it
unfoldable pub new_segment : ℕ → ℕ → Segment × ℕ
new_segment heap_end len =
    let pages = (at_least_min len + heap_header_len + page_len - 1) % 2 ^ 64 / page_len in
    let pg_addr = (heap_end + page_len - 1) / page_len * page_len in
    (record { addr = pg_addr; size = at_least_min len; free = true }, pg_addr + pages * page_len)

unfoldable pub init_heap : Heap
unfolding new_segment
init_heap =
    let s = new_segment heap_start (page_len * 160) in
    record { segments = s.0 ∷ []; heap_end = s.1 }

-- `heap_segment_split`: the segments that stand in the place of `s`
unfoldable pub heap_segment_split : Segment → ℕ → List Segment
heap_segment_split s keep_size =
    let keep = at_least_min keep_size in
    if leb s.size (keep + heap_header_len)
    then s ∷ []
    else (if ltb (s.size - keep - heap_header_len) heap_alloc_min
        then s ∷ []
        else record s { size = keep }
          ∷ record {
            addr = s.addr + keep + heap_header_len;
            size = s.size - keep - heap_header_len;
            free = true;
          }
          ∷ [])

-- `cur_seg->free = false`, on the first of the segments
unfoldable pub take_first : List Segment → List Segment
take_first [] = []
take_first (s ∷ ss) = record s { free = false } ∷ ss

-- the chain that a later segment serves, with this one in front
abbrev pub in_front : Segment → Option (ℕ × List Segment) → Option (ℕ × List Segment)
in_front s none = none
in_front s (some (a, rest)) = some (a, s ∷ rest)

-- the loop of `malloc`: the segment that serves the call, and the chain; `none` at the chain's end
unfoldable pub serve : ℕ → List Segment → Option (ℕ × List Segment)
serve size [] = none
serve size (s ∷ ss) =
    let behind = in_front s (serve size ss) in
    if s.free
    then (if ltb size s.size
        then some (s.addr, take_first (heap_segment_split s size) ++ ss)
        else (if s.size == size then some (s.addr, record s { free = false } ∷ ss) else behind))
    else behind

-- the pointer to the bytes of a segment
abbrev pub bytes_of : ℕ → ℕ
bytes_of addr = addr + heap_header_len

-- `malloc` where no segment serves the call
unfoldable pub malloc_new : ℕ → Heap → ℕ × Heap
malloc_new size h =
    let s = new_segment h.heap_end size in
    (
      bytes_of s.0.addr,
      record { segments = h.segments ++ (record s.0 { free = false } ∷ []); heap_end = s.1 },
    )

-- how `malloc` ends once the loop is left
abbrev pub served_or_new : ℕ → Heap → Option (ℕ × List Segment) → ℕ × Heap
served_or_new size h none = malloc_new size h
served_or_new size h (some (a, segments)) = (bytes_of a, record h { segments = segments })

abbrev pub is_empty : List Segment → Bool
is_empty [] = true
is_empty (s ∷ ss) = false

unfoldable pub malloc : ℕ → Heap → ℕ × Heap
malloc size h =
    if is_empty h.segments
    then (null, h)
    else (if size == 0 then (null, h) else served_or_new size h (serve size h.segments))

-- the test of `calloc`: the product does not fit 64 bits
unfoldable pub overflows : ℕ → ℕ → Bool
overflows nmemb size =
    let total_size = nmemb * size % 2 ^ 64 in
    if nmemb == 0 then false else not (total_size / nmemb == size)

-- `calloc`: the pointer, and the number of bytes cleared at it
unfoldable pub calloc : ℕ → ℕ → Heap → (ℕ × ℕ) × Heap
calloc nmemb size h =
    let total_size = nmemb * size % 2 ^ 64 in
    let r = malloc total_size h in
    if overflows nmemb size
    then ((null, 0), h)
    else (if r.0 == null then ((null, 0), r.1) else ((r.0, total_size), r.1))

-- the segment at a header's address
unfoldable pub header_at : ℕ → List Segment → Option Segment
header_at a [] = none
header_at a (s ∷ ss) = let rest = header_at a ss in if s.addr == a then some s else rest

-- `cur_seg->free = true`, if it is not free
unfoldable pub release : ℕ → List Segment → List Segment
release a [] = []
release a (s ∷ ss) =
    let rest = release a ss in if s.addr == a then record s { free = true } ∷ ss else s ∷ rest

-- `free`, of NULL or a pointer into the chain; a double free is only reported
unfoldable pub free : ℕ → Heap → Heap
free ptr h =
    if ptr == null then h else record h { segments = release (ptr - heap_header_len) h.segments }

-- `realloc`: the pointer, and the number of bytes copied to it; `none` where no header is
unfoldable pub realloc : ℕ → ℕ → Heap → Option ((ℕ × ℕ) × Heap)
realloc ptr size h =
    let fresh = malloc size h in
    if ptr == null
    then some ((fresh.0, 0), fresh.1)
    else (if size == 0
        then some ((null, 0), free ptr h)
        else elim (header_at (ptr - heap_header_len) h.segments) [
          | none ↦ none
          | some s ↦
              if leb size s.size
              then some ((ptr, 0), h)
              else (if fresh.0 == null
                  then some ((null, 0), fresh.1)
                  else some ((fresh.0, s.size), free ptr fresh.1))
        ])
