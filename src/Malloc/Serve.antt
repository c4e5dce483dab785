-- ===== src/Malloc/Serve.antt =====
-- What `malloc` hands out: a segment of at least the size asked for, beside those that are in use.
use plenjos_kernel.Prelude.{
  ℕ, ◌+◌, ◌-◌, ◌≤◌, ◌≡◌, ◌≢◌, refl, ap, arith, true, Option, none, some, List, [], ◌∷◌, ◌++◌,
  if◌then◌else◌, ◌==◌, ne→==, Bool-cases, inl, inr, ==_refl,
}
use plenjos_kernel.Malloc.{Segment, bytes_of, release, free, null, heap_header_len}

-- the segments in use, in the order of the chain
abbrev pub used : List Segment → List Segment
used [] = []
used (s ∷ ss) = if s.free then used ss else s ∷ used ss

-- A pointer to a new segment in use, of at least `size` bytes, among those in use before.
pub record Serves (size ptr : ℕ) (old new : List Segment) : Type 0 where
  pub front : List Segment
  pub segment : Segment
  pub behind : List Segment
  pub used_before : used old ≡ front ++ behind
  pub used_after : used new ≡ front ++ (segment ∷ behind)
  pub points : ptr ≡ bytes_of segment.addr
  pub large : size ≤ segment.size

-- what the walk over the chain finds
abbrev Found : ℕ → List Segment → Option (ℕ × List Segment) → Type 0
Found size old none = Unit {0}
Found size old (some (a, new)) = Serves size (bytes_of a) old new

-- No segment of these has its header at the address.
abbrev pub Elsewhere : ℕ → List Segment → Type 0
Elsewhere a [] = Unit {0}
Elsewhere a (s ∷ ss) = (s.addr ≢ a) × Elsewhere a ss

release-used :
    (a : ℕ) (front ss : List Segment) (s : Segment)
    → Elsewhere a front
    → s.addr ≡ a
    → used (release a (front ++ (s ∷ ss))) ≡ used front ++ used ss
unfolding release
release-used a [] ss s apart at = let e : (s.addr == a) ≡ true = rw at (==_refl a) in simp e
release-used a (t ∷ front) ss s apart at = elim (Bool-cases t.free) [
  | inl e ↦ simp (ne→== t.addr a apart.0, e) (release-used a front ss s apart.1 at)
  | inr e ↦
      simp (ne→== t.addr a apart.0, e) (ap (λ r. t ∷ r) (release-used a front ss s apart.1 at))
]

-- Where no segment in front has its header at the same address, free takes the segment of its pointer
-- from those in use, and leaves the others.
pub free_lem :
    (front ss : List Segment) (s : Segment) (heap_end : ℕ)
    → Elsewhere s.addr front
    → used
        (free
          (bytes_of s.addr)
          (record { segments = front ++ (s ∷ ss); heap_end = heap_end })).segments
      ≡ used front ++ used ss
unfolding free
free_lem front ss s heap_end apart =
    let at : s.addr + heap_header_len - heap_header_len ≡ s.addr = omega arith in
    rw (ne→== (bytes_of s.addr) null (omega arith), at) (release-used s.addr front ss s apart refl)
