-- ===== src/Prelude/Total.antt =====
-- A weight summed over a list, for counting the threads that stand in some state.
use plenjos_kernel.Prelude.{
  ℕ, zero, suc, ◌+◌, ◌≤◌, ◌≡◌, ◌≢◌, refl, ap, List, [], ◌∷◌, some, arith, get_elem?, set, replicate,
}

module _ {A : Type 0} (w : A → ℕ) where
  abbrev pub total : List A → ℕ
  total [] = 0
  total (x ∷ xs) = w x + total xs

  -- Replacing one item changes the sum by the difference of the two weights.
  pub total-set :
      (xs : List A) (i : ℕ) (a b : A)
      → get_elem? xs i ≡ some a
      → total (set xs i b) + w a ≡ total xs + w b
  total-set [] i a b h = ground arith
  total-set (x ∷ xs) zero a b h = ground arith
  total-set (x ∷ xs) (suc i) a b h = omega (arith, total-set xs i a b h)

  -- The weight of one item is part of the sum.
  pub le-total : (xs : List A) (i : ℕ) (a : A) → get_elem? xs i ≡ some a → w a ≤ total xs
  le-total [] i a h = ground arith
  le-total (x ∷ xs) zero a h = ground arith
  le-total (x ∷ xs) (suc i) a h = omega (arith, le-total xs i a h)

  -- So are the weights of two items at different places.
  pub add-le-total :
      (xs : List A) (i j : ℕ) (a b : A)
      → i ≢ j
      → get_elem? xs i ≡ some a
      → get_elem? xs j ≡ some b
      → w a + w b ≤ total xs
  add-le-total [] i j a b ne h k = ground arith
  add-le-total (x ∷ xs) zero zero a b ne h k = absurd (ne refl)
  add-le-total (x ∷ xs) zero (suc j) a b ne h k = ground (arith, le-total xs j b)
  add-le-total (x ∷ xs) (suc i) zero a b ne h k = ground (arith, le-total xs i a)
  add-le-total (x ∷ xs) (suc i) (suc j) a b ne h k =
      omega (arith, add-le-total xs i j a b (λ e. ne (ap suc e)) h k)

  pub total-replicate : (n : ℕ) (a : A) → w a ≡ 0 → total (replicate n a) ≡ 0
  total-replicate zero a h = refl
  total-replicate (suc n) a h = omega (arith, total-replicate n a h)
