-- ===== src/Sort/Laws.antt =====
-- `qsort` (usr/libc/src/stdlib/ssort.c) sorts: its result is in order, and holds the elements it got.
use plenjos_kernel.Prelude.{
  ℕ, ◌≡◌, refl, sym, subst, Bool, true, false, List, [], ◌∷◌, if◌then◌else◌, length, ◌++◌,
  append-nil,
}
use mathlib.Core.List.{Perm, perm_middle}
use mathlib.Core.List.Perm
use plenjos_kernel.Prelude.Int.{ℤ}
use plenjos_kernel.Sort.{above, qsort}
use plenjos_kernel.Sort.Insert.{rev_append, insert, insert_all, Sized, qsort-inserts}

module _ (compar : List ℕ → List ℕ → ℤ) (size : ℕ) where
  -- `a` may stand before `b`
  abbrev pub AtMost : List ℕ → List ℕ → Type 0
  AtMost a b = above compar size a b ≡ false

  -- of two elements at most one compares above the other
  abbrev pub OneWay : Type 0
  OneWay = (a b : List ℕ) → above compar size a b ≡ true → AtMost b a

  -- the head of the list, if there is one, may stand behind an element, or before it
  abbrev pub HeadAbove : List ℕ → List (List ℕ) → Type 0
  HeadAbove x [] = Unit
  HeadAbove x (y ∷ ys) = AtMost x y

  abbrev HeadBelow : List ℕ → List (List ℕ) → Type 0
  HeadBelow x [] = Unit
  HeadBelow x (y ∷ ys) = AtMost y x

  -- neighbours are in order
  abbrev pub Ascending : List (List ℕ) → Type 0
  Ascending [] = Unit
  Ascending (x ∷ xs) = HeadAbove x xs × Ascending xs

  abbrev Descending : List (List ℕ) → Type 0
  Descending [] = Unit
  Descending (x ∷ xs) = HeadBelow x xs × Descending xs

  insert-HeadBelow :
      (x y : List ℕ) (r : List (List ℕ))
      → AtMost y x
      → HeadBelow x r
      → HeadBelow x (insert compar size y r)
  unfolding insert
  insert-HeadBelow x y [] h k = h
  insert-HeadBelow x y (z ∷ r) h k = choose (above compar size z y)
    where
      choose : (b : Bool) → HeadBelow x (if b then z ∷ insert compar size y r else y ∷ z ∷ r)
      choose true = k
      choose false = h

  insert-Descending :
      (y : List ℕ) (r : List (List ℕ)) → OneWay → Descending r → Descending (insert compar size y r)
  unfolding insert
  insert-Descending y [] o d = (tt, tt)
  insert-Descending y (x ∷ r) o d =
      choose (above compar size x y) refl (insert-Descending y r o d.1)
    where
      choose :
          (b : Bool)
          → above compar size x y ≡ b
          → Descending (insert compar size y r)
          → Descending (if b then x ∷ insert compar size y r else y ∷ x ∷ r)
      choose true e rest = (insert-HeadBelow x y r (o x y e) d.0, rest)
      choose false e rest = (e, d)

  insert_all-Descending :
      (ys r : List (List ℕ)) → OneWay → Descending r → Descending (insert_all compar size ys r)
  unfolding insert_all
  insert_all-Descending [] r o d = d
  insert_all-Descending (y ∷ ys) r o d =
      insert_all-Descending ys (insert compar size y r) o (insert-Descending y r o d)

  Fits : List (List ℕ) → List (List ℕ) → Type 0
  Fits [] t = Unit
  Fits (x ∷ r) t = HeadAbove x t

  Fits-nil : (r : List (List ℕ)) → Fits r []
  unfolding Fits
  Fits-nil [] = tt
  Fits-nil (x ∷ r) = tt

  HeadBelow-Fits : (x : List ℕ) (r t : List (List ℕ)) → HeadBelow x r → Fits r (x ∷ t)
  unfolding Fits
  HeadBelow-Fits x [] t h = tt
  HeadBelow-Fits x (y ∷ r) t h = h

  rev_append-Ascending :
      (r t : List (List ℕ)) → Descending r → Ascending t → Fits r t → Ascending (rev_append r t)
  unfolding rev_append Fits
  rev_append-Ascending [] t d a f = a
  rev_append-Ascending (x ∷ r) t d a f =
      rev_append-Ascending r (x ∷ t) d.1 (f, a) (HeadBelow-Fits x r t d.0)

  rev_append-perm : (r t : List (List ℕ)) → Perm (rev_append r t) (r ++ t)
  unfolding rev_append
  rev_append-perm [] t = Perm.rfl
  rev_append-perm (x ∷ r) t = Perm.trans (rev_append-perm r (x ∷ t)) (perm_middle r t)

  insert-perm : (y : List ℕ) (r : List (List ℕ)) → Perm (insert compar size y r) (y ∷ r)
  unfolding insert
  insert-perm y [] = Perm.rfl
  insert-perm y (x ∷ r) = choose (above compar size x y) (insert-perm y r)
    where
      choose :
          (b : Bool)
          → Perm (insert compar size y r) (y ∷ r)
          → Perm (if b then x ∷ insert compar size y r else y ∷ x ∷ r) (y ∷ x ∷ r)
      choose true p = Perm.trans (Perm.cons x p) (Perm.swap y x r)
      choose false p = Perm.rfl

  insert_all-perm : (ys r : List (List ℕ)) → Perm (insert_all compar size ys r) (ys ++ r)
  unfolding insert_all
  insert_all-perm [] r = Perm.rfl
  insert_all-perm (y ∷ ys) r =
      Perm.trans (insert_all-perm ys (insert compar size y r))
        (Perm.trans (Perm.append_left ys (insert-perm y r)) (perm_middle ys r))

  -- Where all elements have the size given, and of two elements at most one compares above the other,
  -- `qsort` of a whole array leaves every two neighbours in order, and the elements are the same as
  -- before, each as often.
  pub qsort_lem :
      (xs : List (List ℕ))
      → Sized compar size xs
      → OneWay
      → Ascending (qsort compar size (length xs) xs) × Perm (qsort compar size (length xs) xs) xs
  qsort_lem xs h o =
      let r = insert_all compar size xs [] in
      let run = qsort-inserts compar size xs h in
      (
        subst Ascending (sym run)
            (rev_append-Ascending r [] (insert_all-Descending xs [] o tt) tt (Fits-nil r)),
        subst (λ ys. Perm ys xs) (sym run)
            (Perm.trans (subst (Perm (rev_append r [])) (append-nil r) (rev_append-perm r []))
              (subst (Perm r) (append-nil xs) (insert_all-perm xs []))),
      )
