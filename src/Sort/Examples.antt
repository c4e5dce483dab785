-- ===== src/Sort/Examples.antt =====
-- An array of single bytes sorted, and the theorem at it.
use plenjos_kernel.Prelude.{ℕ, ◌≡◌, refl, arith, List, [], ◌∷◌, get_or, length}
use mathlib.Core.List.{Perm}
use plenjos_kernel.Prelude.Int.{ℤ, pos, ◌-ℤ◌}
use plenjos_kernel.Sort.{_swap, swap_at, sink, sort_from, qsort}
use plenjos_kernel.Sort.Laws.{OneWay, Ascending, qsort_lem}

-- the difference of the first bytes
abbrev by_byte : List ℕ → List ℕ → ℤ
unfolding ◌-ℤ◌
by_byte a b = pos (get_or a 0 0) -ℤ pos (get_or b 0 0)

abbrev bytes : List (List ℕ)
bytes = (5 ∷ []) ∷ (2 ∷ []) ∷ (9 ∷ []) ∷ (2 ∷ []) ∷ []

bytes_sorted : qsort by_byte 1 4 bytes ≡ (2 ∷ []) ∷ (2 ∷ []) ∷ (5 ∷ []) ∷ (9 ∷ []) ∷ []
unfolding qsort sort_from sink swap_at _swap by_byte ◌-ℤ◌
bytes_sorted = refl

by_byte-OneWay : OneWay by_byte 1
unfolding by_byte ◌-ℤ◌
by_byte-OneWay a b h = ground arith

qsort_lem_example :
    Ascending by_byte 1 (qsort by_byte 1 (length bytes) bytes)
    × Perm (qsort by_byte 1 (length bytes) bytes) bytes
qsort_lem_example = qsort_lem by_byte 1 bytes (refl, (refl, (refl, (refl, tt)))) by_byte-OneWay
