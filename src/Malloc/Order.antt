-- ===== src/Malloc/Order.antt =====
-- The segments of the heap of a process (usr/libc/src/stdlib/alloc.c) lie one behind the other.
use plenjos_kernel.Prelude.{
  ℕ, ◌+◌, ◌-◌, ◌^◌, ◌≤◌, arith, false, Option, none, some, List, [], ◌∷◌, ◌++◌, ltb, leb, ◌==◌,
  Bool-cases, inl, inr,
}
use plenjos_kernel.Malloc.{
  Segment, Heap, at_least_min, heap_segment_split, take_first, in_front, serve, new_segment,
  malloc_new, served_or_new, heap_header_len,
}

-- The segments lie one behind the other from the address `a` on, each with its header and its bytes, and
-- end at `b` at the latest.
abbrev pub InOrder : ℕ → List Segment → ℕ → Type 0
InOrder a [] b = a ≤ b
InOrder a (s ∷ ss) b = (a ≤ s.addr) × InOrder (s.addr + heap_header_len + s.size) ss b

InOrder-earlier : (a a' b : ℕ) (ss : List Segment) → a' ≤ a → InOrder a ss b → InOrder a' ss b
InOrder-earlier a a' b [] le h = omega arith
InOrder-earlier a a' b (s ∷ ss) le h = (omega arith, h.1)

-- A segment behind the others, in the pages that start at their end or later.
InOrder-append :
    (a b b' : ℕ) (ss : List Segment) (s : Segment)
    → InOrder a ss b
    → b ≤ s.addr
    → s.addr + heap_header_len + s.size ≤ b'
    → InOrder a (ss ++ (s ∷ [])) b'
InOrder-append a b b' [] s h behind inside = (omega arith, inside)
InOrder-append a b b' (t ∷ ss) s h behind inside =
    (h.0, InOrder-append (t.addr + heap_header_len + t.size) b b' ss s h.1 behind inside)

-- A split keeps the order, as its two halves and the header between them fill the segment.
split-InOrder :
    (s : Segment) (ss : List Segment) (size a b : ℕ)
    → InOrder a (s ∷ ss) b
    → InOrder a (take_first (heap_segment_split s size) ++ ss) b
unfolding heap_segment_split take_first
split-InOrder s ss size a b h =
    let keep = at_least_min size in
    elim (Bool-cases (leb s.size (keep + heap_header_len))) [
      | inl tight ↦ rw tight h
      | inr wide ↦ elim (Bool-cases (ltb (s.size - keep - heap_header_len) 16)) [
        | inl small ↦ rw (wide, small) h
        | inr roomy ↦
            let fits : keep + heap_header_len ≤ s.size = ground arith in
            rw (wide, roomy)
              (
                h.0,
                (
                  omega arith,
                  InOrder-earlier (s.addr + heap_header_len + s.size)
                      (s.addr
                        + keep
                        + heap_header_len
                        + heap_header_len
                        + (s.size - keep - heap_header_len))
                      b ss (omega (arith, fits)) h.1,
                ),
              )
      ]
    ]

-- what the walk over the chain leaves of the order
abbrev pub Ordered : ℕ → ℕ → Option (ℕ × List Segment) → Type 0
Ordered a b none = Unit {0}
Ordered a b (some (p, new)) = InOrder a new b

Ordered-front :
    (s : Segment) (a b : ℕ) (o : Option (ℕ × List Segment))
    → a ≤ s.addr
    → Ordered (s.addr + heap_header_len + s.size) b o
    → Ordered a b (in_front s o)
Ordered-front s a b none le h = tt
Ordered-front s a b (some (p, new)) le h = (le, h)

pub serve-Ordered :
    (size a b : ℕ) (ss : List Segment) → InOrder a ss b → Ordered a b (serve size ss)
unfolding serve
serve-Ordered size a b [] h = tt
serve-Ordered size a b (s ∷ ss) h =
    let later =
      Ordered-front s a b (serve size ss) h.0
        (serve-Ordered size (s.addr + heap_header_len + s.size) b ss h.1) in
    elim (Bool-cases s.free) [
      | inr in_use ↦ simp in_use later
      | inl unused ↦ elim (Bool-cases (ltb size s.size)) [
        | inl larger ↦ simp (unused, larger) (split-InOrder s ss size a b h)
        | inr not_larger ↦ elim (Bool-cases (s.size == size)) [
          | inr differs ↦ simp (unused, not_larger, differs) later
          | inl same ↦ simp (unused, not_larger, same) h
        ]
      ]
    ]

-- The pages that are mapped for a new segment start at the end of the heap or later, and hold it.
new_segment-inside :
    (heap_end len : ℕ)
    → len + 8192 ≤ 2 ^ 64
    → (heap_end ≤ (new_segment heap_end len).0.addr)
      × ((new_segment heap_end len).0.addr + heap_header_len + (new_segment heap_end len).0.size
          ≤ (new_segment heap_end len).1)
unfolding new_segment
new_segment-inside heap_end len small = ground arith

pub served-InOrder :
    (size a : ℕ) (h : Heap) (o : Option (ℕ × List Segment))
    → size + 8192 ≤ 2 ^ 64
    → InOrder a h.segments h.heap_end
    → Ordered a h.heap_end o
    → (let r = (served_or_new size h o).1 in InOrder a r.segments r.heap_end)
unfolding malloc_new
served-InOrder size a h none small order f =
    let (behind, inside) = new_segment-inside h.heap_end size small in
    InOrder-append a h.heap_end (new_segment h.heap_end size).1 h.segments
      (record (new_segment h.heap_end size).0 { free = false }) order behind inside
served-InOrder size a h (some (p, segments)) small order f = f
