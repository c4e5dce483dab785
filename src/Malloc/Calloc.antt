-- ===== src/Malloc/Calloc.antt =====
-- The overflow test of `calloc` is exact.
use plenjos_kernel.Prelude.{
  ℕ, ◌*◌, ◌/◌, ◌%◌, ◌^◌, ◌≤◌, ◌≡◌, refl, sym, ap, ◌∙◌, arith, false, ◌==◌, leb, ==_refl, ne→==,
  le→leb, gt→leb,
}
use native.Mathlib.Nat.{mod-eq_of_lt, mod-lt, mul-div_cancel_left, mul-div-le}
use native.Mathlib.Decide.{dec_lt}
use plenjos_kernel.Malloc.{overflows}

-- For a number of members that is not 0, calloc refuses exactly the products that do not fit 64 bits.
pub overflows_lem :
    (nmemb size : ℕ) → 1 ≤ nmemb → overflows nmemb size ≡ leb (2 ^ 64) (nmemb * size)
unfolding overflows
overflows_lem nmemb size some_members = elim (dec_lt (nmemb * size) (2 ^ 64)) [
  | yes fits ↦
      let whole : nmemb * size % 2 ^ 64 / nmemb ≡ size =
        ap (λ n. n / nmemb) (mod-eq_of_lt fits)
        ∙ mul-div_cancel_left size (omega (arith, some_members)) in
      rw (
        ne→== nmemb 0 (omega (arith, some_members)),
        whole,
        ==_refl size,
        gt→leb (2 ^ 64) (nmemb * size) fits,
      )
  | no over ↦
      let low = mul-div-le (nmemb * size % 2 ^ 64) nmemb in
      let small = mod-lt (nmemb * size) {m = 2 ^ 64} (omega arith) in
      let differ : (nmemb * size % 2 ^ 64 / nmemb == size) ≡ false =
        ne→== _ size
          (λ e. absurd (omega (arith, over, small, ap (λ q. nmemb * q) (sym e) ∙ refl, low))) in
      rw (
        ne→== nmemb 0 (omega (arith, some_members)),
        differ,
        le→leb (2 ^ 64) (nmemb * size) (omega (arith, over)),
      )
]
