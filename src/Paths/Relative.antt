-- ===== src/Paths/Relative.antt =====
-- The paths that `handle_relative_path` writes.
use plenjos_kernel.Prelude.{
  ℕ, ◌+◌, ◌-◌, ◌<◌, ◌≡◌, refl, arith, List, [], ◌∷◌, ◌==◌, ltb, Bool-cases, inl, inr, length, take,
  length-take, length-append, ==_iff, ltb→ge,
}
use plenjos_kernel.Paths.{
  slash, path_max, PathResult, enametoolong, written, from_cwd, handle_relative_path,
}

-- A path that is written is absolute, and fits the buffer with its final 0.
abbrev pub IsWritten : PathResult → Type 0
IsWritten enametoolong = Unit {0}
IsWritten (written []) = ⊥
IsWritten (written (c ∷ cs)) = (c ≡ slash) × (length (c ∷ cs) < path_max)

-- a working directory that is not set, or absolute
abbrev pub IsCwd : List ℕ → Type 0
IsCwd [] = Unit {0}
IsCwd (c ∷ cs) = c ≡ slash

take-IsWritten : (cs : List ℕ) → IsWritten (written (take (path_max - 1) (slash ∷ cs)))
take-IsWritten cs = (refl, omega (arith, length-take 4094 cs))

from_cwd-IsWritten : (cwd rel : List ℕ) → IsCwd cwd → IsWritten (from_cwd cwd rel)
unfolding from_cwd
from_cwd-IsWritten [] rel set = elim (Bool-cases (ltb path_max (length rel + 2))) [
  | inl long ↦ rw long tt
  | inr fits ↦ rw fits (take-IsWritten rel)
]
from_cwd-IsWritten (d ∷ ds) rel set =
    elim (Bool-cases (ltb path_max (length (d ∷ ds) + length rel + 2))) [
      | inl long ↦ rw long tt
      | inr fits ↦
          let short = ltb→ge path_max (length (d ∷ ds) + length rel + 2) fits in
          rw fits (set, omega (arith, short, length-append ds (slash ∷ rel)))
    ]

-- From a working directory that is absolute or not set, a path that is written is absolute and fits the
-- buffer of 4096 bytes.
pub handle_relative_path-IsWritten :
    (rel cwd : List ℕ) → IsCwd cwd → IsWritten (handle_relative_path rel cwd)
unfolding handle_relative_path
handle_relative_path-IsWritten [] cwd set = from_cwd-IsWritten cwd [] set
handle_relative_path-IsWritten (c ∷ cs) cwd set = elim (Bool-cases (c == slash)) [
  | inl absolute ↦
      let e = (==_iff c slash).0 absolute in rw absolute (e, omega (arith, length-take 4094 cs))
  | inr relative ↦ rw relative (from_cwd-IsWritten cwd (c ∷ cs) set)
]
