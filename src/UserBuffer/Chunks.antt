-- ===== src/UserBuffer/Chunks.antt =====
-- The rounds of a copy are cut at the pages' ends.
use plenjos_kernel.Prelude.{ℕ, ◌+◌, ◌-◌, ◌%◌, ◌≤◌, ◌<◌, ◌≡◌, ◌⊎◌, inl, inr, arith, min}
use plenjos_kernel.UserBuffer.{page_len, chunk}

-- Before each round, nothing is copied or the address is at a page's start.
abbrev pub Aligned : ℕ → ℕ → Type 0
Aligned user offs = (offs ≡ 0) ⊎ ((user + offs) % page_len ≡ 0)

-- While bytes are left, and the address is at a page's start or none is copied yet, a round copies what is left of the page, or of the buffer where that is less, and at least a byte;
-- behind it the copy is done or at a page's start.
pub chunk_lem :
    (user count offs : ℕ)
    → Aligned user offs
    → offs < count
    → (chunk user count offs ≡ min (page_len - (user + offs) % page_len) (count - offs))
      × (1 ≤ chunk user count offs)
      × (offs + chunk user count offs ≤ count)
      × ((offs + chunk user count offs ≡ count)
          ⊎ ((user + (offs + chunk user count offs)) % page_len ≡ 0))
unfolding chunk
chunk_lem user count offs (inl first) more = ground arith
chunk_lem user count offs (inr at_start) more = ground arith
