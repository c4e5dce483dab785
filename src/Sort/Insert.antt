-- ===== src/Sort/Insert.antt =====
-- The loops of `qsort` (usr/libc/src/stdlib/ssort.c) as insertions: the sorted part of the array, its
-- last element first, and the part behind it.
use plenjos_kernel.Prelude.{
  ℕ, zero, suc, ◌+◌, ◌-◌, ◌≡◌, refl, sym, ap, ap₂, ◌∙◌, arith, Bool, true, false, List, [], ◌∷◌,
  if◌then◌else◌, get_or, set, length, All,
}
use plenjos_kernel.Prelude.Int.{ℤ}
use plenjos_kernel.Sort.{_swap, swap_at, above, sink, sort_from, qsort}

-- the array whose sorted part is `r`, its last element first
unfoldable pub rev_append {ℓ} : {A : Type ℓ} → List A → List A → List A
rev_append [] t = t
rev_append (x ∷ r) t = rev_append r (x ∷ t)

get_or-rev_append :
    (r t : List (List ℕ)) (k : ℕ) → get_or (rev_append r t) (length r + k) [] ≡ get_or t k []
unfolding rev_append
get_or-rev_append [] t k = ap (λ i. get_or t i []) (omega arith)
get_or-rev_append (x ∷ r) t k =
    ap (λ i. get_or (rev_append r (x ∷ t)) i []) (omega arith) ∙ get_or-rev_append r (x ∷ t) (suc k)

set-rev_append :
    (r t : List (List ℕ)) (k : ℕ) (v : List ℕ)
    → set (rev_append r t) (length r + k) v ≡ rev_append r (set t k v)
unfolding rev_append
set-rev_append [] t k v = ap (λ i. set t i v) (omega arith)
set-rev_append (x ∷ r) t k v =
    ap (λ i. set (rev_append r (x ∷ t)) i v) (omega arith) ∙ set-rev_append r (x ∷ t) (suc k) v

-- Elements of the size given are exchanged whole.
_swap-exchanges :
    (size : ℕ) (s1 s2 : List ℕ) → length s1 ≡ size → length s2 ≡ size → _swap size s1 s2 ≡ (s2, s1)
unfolding _swap
_swap-exchanges zero [] [] h k = refl
_swap-exchanges zero [] (b ∷ s2) h k = absurd (omega arith)
_swap-exchanges zero (a ∷ s1) s2 h k = absurd (omega arith)
_swap-exchanges (suc size) [] s2 h k = absurd (omega arith)
_swap-exchanges (suc size) (a ∷ s1) [] h k = absurd (omega arith)
_swap-exchanges (suc size) (a ∷ s1) (b ∷ s2) h k =
    ap (λ p. (b ∷ p.0, a ∷ p.1)) (_swap-exchanges size s1 s2 (omega arith) (omega arith))

at-first :
    (r : List (List ℕ)) (x : List ℕ) (t : List (List ℕ))
    → get_or (rev_append r (x ∷ t)) (length r) [] ≡ x
at-first r x t =
    ap (λ i. get_or (rev_append r (x ∷ t)) i []) (omega arith) ∙ get_or-rev_append r (x ∷ t) 0

at-second :
    (r : List (List ℕ)) (x y : List ℕ) (t : List (List ℕ))
    → get_or (rev_append r (x ∷ y ∷ t)) (suc (length r)) [] ≡ y
at-second r x y t =
    ap (λ i. get_or (rev_append r (x ∷ y ∷ t)) i []) (omega arith)
    ∙ get_or-rev_append r (x ∷ y ∷ t) 1

put-both :
    (r : List (List ℕ)) (x y : List ℕ) (t : List (List ℕ)) (v w : List ℕ)
    → set (set (rev_append r (x ∷ y ∷ t)) (length r) v) (suc (length r)) w
      ≡ rev_append r (v ∷ w ∷ t)
put-both r x y t v w =
    ap₂ (λ i j. set (set (rev_append r (x ∷ y ∷ t)) i v) j w) (omega arith) (omega arith)
    ∙ ap (λ a. set a (length r + 1) w) (set-rev_append r (x ∷ y ∷ t) 0 v)
    ∙ set-rev_append r (v ∷ y ∷ t) 1 w

swap_at-exchanges :
    (size : ℕ) (r : List (List ℕ)) (x y : List ℕ) (t : List (List ℕ))
    → length x ≡ size
    → length y ≡ size
    → swap_at size (length r) (rev_append r (x ∷ y ∷ t)) ≡ rev_append r (y ∷ x ∷ t)
unfolding swap_at
swap_at-exchanges size r x y t h k =
    ap (λ p. set (set (rev_append r (x ∷ y ∷ t)) (length r) p.0) (suc (length r)) p.1)
      (ap₂ (_swap size) (at-first r x (y ∷ t)) (at-second r x y t) ∙ _swap-exchanges size x y h k)
    ∙ put-both r x y t y x

module _ (compar : List ℕ → List ℕ → ℤ) (size : ℕ) where
  -- an element put below those that compare above it
  unfoldable pub insert : List ℕ → List (List ℕ) → List (List ℕ)
  insert y [] = y ∷ []
  insert y (x ∷ r) = let rest = x ∷ insert y r in if above compar size x y then rest else y ∷ x ∷ r

  unfoldable pub insert_all : List (List ℕ) → List (List ℕ) → List (List ℕ)
  unfolding insert
  insert_all [] r = r
  insert_all (y ∷ ys) r = insert_all ys (insert y r)

  abbrev pub Sized : List (List ℕ) → Type 0
  Sized xs = All (λ x. length x ≡ size) xs

  -- the inner loop inserts one element into the sorted part
  sink-inserts :
      (r : List (List ℕ)) (y : List ℕ) (t : List (List ℕ))
      → Sized r
      → length y ≡ size
      → sink compar size (length r) (rev_append r (y ∷ t)) ≡ rev_append (insert y r) t
  unfolding sink insert rev_append
  sink-inserts [] y t h k = refl
  sink-inserts (x ∷ r) y t h k =
      let arr = rev_append r (x ∷ y ∷ t) in
      let j = length r in
      ap₂ (λ a b. if above compar size a b then sink compar size j (swap_at size j arr) else arr)
        (at-first r x (y ∷ t)) (at-second r x y t)
      ∙ ap (λ s. if above compar size x y then sink compar size j s else arr)
          (swap_at-exchanges size r x y t h.0 k)
      ∙ ap (λ s. if above compar size x y then s else arr) (sink-inserts r y (x ∷ t) h.1 k)
      ∙ choose (above compar size x y)
    where
      choose :
          (b : Bool)
          → (if b then rev_append (insert y r) (x ∷ t) else rev_append r (x ∷ y ∷ t))
            ≡ rev_append (if b then x ∷ insert y r else y ∷ x ∷ r) t
      choose true = refl
      choose false = refl

  insert-Sized : (y : List ℕ) (r : List (List ℕ)) → length y ≡ size → Sized r → Sized (insert y r)
  unfolding insert
  insert-Sized y [] k h = (k, tt)
  insert-Sized y (x ∷ r) k h = choose (above compar size x y) (insert-Sized y r k h.1)
    where
      choose : (b : Bool) → Sized (insert y r) → Sized (if b then x ∷ insert y r else y ∷ x ∷ r)
      choose true rest = (h.0, rest)
      choose false rest = (k, h)

  length-insert : (y : List ℕ) (r : List (List ℕ)) → length (insert y r) ≡ suc (length r)
  unfolding insert
  length-insert y [] = refl
  length-insert y (x ∷ r) = choose (above compar size x y) (length-insert y r)
    where
      choose :
          (b : Bool)
          → length (insert y r) ≡ suc (length r)
          → length (if b then x ∷ insert y r else y ∷ x ∷ r) ≡ suc (suc (length r))
      choose true e = ap suc e
      choose false e = refl

  -- the outer loop inserts what is left of the array, element by element
  sort_from-inserts :
      (ys r : List (List ℕ))
      → Sized r
      → Sized ys
      → sort_from compar size (length ys) (length r) (rev_append r ys)
        ≡ rev_append (insert_all ys r) []
  unfolding sort_from insert_all
  sort_from-inserts [] r h k = refl
  sort_from-inserts (y ∷ ys) r h k =
      ap₂ (sort_from compar size (length ys)) (sym (length-insert y r)) (sink-inserts r y ys h k.0)
      ∙ sort_from-inserts ys (insert y r) (insert-Sized y r k.0 h) k.1

  -- `qsort` of a whole array
  pub qsort-inserts :
      (xs : List (List ℕ))
      → Sized xs
      → qsort compar size (length xs) xs ≡ rev_append (insert_all xs []) []
  unfolding qsort insert_all insert rev_append
  qsort-inserts [] h = refl
  qsort-inserts (x ∷ xs) h =
      let e : length (x ∷ xs) - 1 ≡ length xs = omega arith in
      ap (λ n. sort_from compar size n 1 (x ∷ xs)) e ∙ sort_from-inserts xs (x ∷ []) (h.0, tt) h.1
