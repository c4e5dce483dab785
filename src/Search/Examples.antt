-- ===== src/Search/Examples.antt =====
-- Tests and witnesses of the search.
use plenjos_kernel.Prelude.{ℕ, refl}
use plenjos_kernel.Search.{Comparison, greater, bsearch, Sorted, Right, bsearch_lem}

-- the key stands behind all of five elements
abbrev behind : ℕ → Comparison
behind k = greater

behind-Sorted : Sorted behind 5
behind-Sorted = record { less_on = λ i j le small e. e; greater_on = λ i j le small e. refl }

bsearch_lem_example : Right behind 5 (bsearch behind 5)
bsearch_lem_example = bsearch_lem behind 5 behind-Sorted
