-- ===== src/Sort.antt =====
-- usr/libc/src/stdlib/ssort.c: `qsort`, an insertion sort by exchanges of neighbours. The array is the
-- list of its elements, each a block of `size` bytes; the comparison is the caller's.
use plenjos_kernel.Prelude.{ℕ, zero, suc, ◌-◌, Bool, List, [], ◌∷◌, if◌then◌else◌, get_or, set}
use plenjos_kernel.Prelude.Int.{ℤ, pos, ltb_ℤ}
pub mod Insert
pub mod Laws
mod Examples

-- `_swap`: the bytes of the two elements are exchanged one by one, `size` of them
unfoldable pub _swap : ℕ → List ℕ → List ℕ → List ℕ × List ℕ
_swap zero s1 s2 = (s1, s2)
_swap (suc size) [] s2 = ([], s2)
_swap (suc size) (a ∷ s1) [] = (a ∷ s1, [])
_swap (suc size) (a ∷ s1) (b ∷ s2) = let (t1, t2) = _swap size s1 s2 in (b ∷ t1, a ∷ t2)

-- the exchange of the elements j and j + 1
unfoldable pub swap_at : ℕ → ℕ → List (List ℕ) → List (List ℕ)
unfolding _swap
swap_at size j arr =
    let (t1, t2) = _swap size (get_or arr j []) (get_or arr (suc j) []) in
    set (set arr j t1) (suc j) t2

module _ (compar : List ℕ → List ℕ → ℤ) (size : ℕ) where
  -- `compar(a, b) > 0`
  abbrev pub above : List ℕ → List ℕ → Bool
  above a b = ltb_ℤ (pos 0) (compar a b)

  -- the inner loop, from the element j down
  unfoldable pub sink : ℕ → List (List ℕ) → List (List ℕ)
  unfolding swap_at
  sink zero arr = arr
  sink (suc j) arr =
      let rest = sink j (swap_at size j arr) in
      if above (get_or arr j []) (get_or arr (suc j) []) then rest else arr

  -- the outer loop, with `rounds` elements to come from the element i on
  unfoldable pub sort_from : ℕ → ℕ → List (List ℕ) → List (List ℕ)
  unfolding sink
  sort_from zero i arr = arr
  sort_from (suc rounds) i arr = sort_from rounds (suc i) (sink i arr)

  unfoldable pub qsort : ℕ → List (List ℕ) → List (List ℕ)
  unfolding sort_from
  qsort nmemb arr = sort_from (nmemb - 1) 1 arr
