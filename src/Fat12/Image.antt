-- ===== src/Fat12/Image.antt =====
-- Byte ranges of a disk image.
use plenjos_kernel.Prelude.{
  ℕ, zero, suc, ◌+◌, ◌-◌, ◌≤◌, ◌<◌, ◌≡◌, refl, ap, ap₂, ◌∙◌, arith, List, [], ◌∷◌, ◌++◌, take, drop,
  get_or,
}

-- the `n` bytes of the image from `start` on
abbrev pub range : (ℕ → ℕ) → ℕ → ℕ → List ℕ
range img start zero = []
range img start (suc n) = img start ∷ range img (start + 1) n

pub range-cong : (img : ℕ → ℕ) {n m a b : ℕ} → n ≡ m → a ≡ b → range img n a ≡ range img m b
range-cong img p q = ap₂ (range img) p q

pub take-range :
    (img : ℕ → ℕ) (k start n : ℕ) → k ≤ n → take k (range img start n) ≡ range img start k
take-range img zero start n small = refl
take-range img (suc k) start zero small = absurd (omega (arith, small))
take-range img (suc k) start (suc n) small =
    ap (λ r. img start ∷ r) (take-range img k (start + 1) n (omega (arith, small)))

pub drop-range :
    (img : ℕ → ℕ) (k start n : ℕ)
    → k ≤ n
    → drop k (range img start n) ≡ range img (start + k) (n - k)
drop-range img zero start n small = range-cong img (omega arith) (omega arith)
drop-range img (suc k) start zero small = absurd (omega (arith, small))
drop-range img (suc k) start (suc n) small =
    drop-range img k (start + 1) n (omega (arith, small))
    ∙ range-cong img (omega arith) (omega arith)

pub range-append :
    (img : ℕ → ℕ) (start a b : ℕ)
    → range img start a ++ range img (start + a) b ≡ range img start (a + b)
range-append img start zero b = range-cong img {a = b} (omega arith) (omega arith)
range-append img start (suc a) b =
    ap (λ r. img start ∷ r)
      (ap (λ r. range img (start + 1) a ++ r) (range-cong img {a = b} (omega arith) refl)
        ∙ range-append img (start + 1) a b)
    ∙ range-cong img {n = start} {m = start} {a = suc (a + b)} refl (omega arith)

pub get-range :
    (img : ℕ → ℕ) (i start n d : ℕ) → i < n → get_or (range img start n) i d ≡ img (start + i)
get-range img i start zero d small = absurd (omega (arith, small))
get-range img zero start (suc n) d small = ap img (omega arith)
get-range img (suc i) start (suc n) d small =
    get-range img i (start + 1) n d (omega (arith, small)) ∙ ap img (omega arith)
