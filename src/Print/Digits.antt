-- ===== src/Print/Digits.antt =====
-- The digits that lib/stdio/stdio_out.c prints, read back as a number, and the buffer they go through.
use plenjos_kernel.Prelude.{
  ℕ, zero, suc, ◌+◌, ◌-◌, ◌*◌, ◌/◌, ◌%◌, ◌^◌, ◌≤◌, ◌<◌, ◌≡◌, ◌≢◌, ◌⊎◌, inl, inr, refl, sym, ap, ◌∙◌,
  subst, arith, Bool, true, false, List, [], ◌∷◌, ltb, ◌==◌, ◌&&◌, not, if◌then◌else◌, length,
  Bool-cases, ltb→lt, ltb→ge,
}
use native.Mathlib.Nat.{pow-zero, pow-succ'}
use plenjos_kernel.Print.{
  hex_index, Printed, printed, overruns, reads_past, no_argument, Filled, filled, past_end,
  fill_digits, print_vals, printf_binary, printf_uint, printf_ulong,
}

-- the digit that a character stands for
abbrev pub digit : ℕ → ℕ
digit c = if ltb c 58 then c - 48 else c - 87

-- The number that a text stands for, behind the digits that make `acc`.
unfoldable pub read : ℕ → ℕ → List ℕ → ℕ
read base acc [] = acc
read base acc (c ∷ cs) = read base (acc * base + digit c) cs

pub digit-hex_index : (d : ℕ) → d < 16 → digit (hex_index d) ≡ d
unfolding hex_index
digit-hex_index d h = ground arith

-- What the laws ask of a base.
pub record IsBase (base : ℕ) : Type 0 where
  pub small : (n : ℕ) → n % base < 16
  pub split : (n : ℕ) → n / base * base + n % base ≡ n
  pub less : (n p : ℕ) → n < base * p → n / base < p
  pub more : (n p : ℕ) → base * p ≤ n → p ≤ n / base
  pub falls : (n : ℕ) → 0 < n → n / base < n
  pub none_left : 0 / base ≡ 0
  pub positive : (k : ℕ) → 0 < base ^ k

power_positive : (b k : ℕ) → 0 < b → 0 < b ^ k
power_positive b zero h = subst (◌<◌ 0) (sym (pow-zero b)) (omega arith)
power_positive b (suc k) h =
    let ih = power_positive b k h in subst (◌<◌ 0) (sym (pow-succ' b k)) (grind arith)

pub two-IsBase : IsBase 2
two-IsBase = record {
  small = λ n. omega arith;
  split = λ n. omega arith;
  less = λ n p h. omega arith;
  more = λ n p h. omega arith;
  falls = λ n h. omega arith;
  none_left = refl;
  positive = λ k. power_positive 2 k (omega arith);
}

pub ten-IsBase : IsBase 10
ten-IsBase = record {
  small = λ n. omega arith;
  split = λ n. omega arith;
  less = λ n p h. omega arith;
  more = λ n p h. omega arith;
  falls = λ n h. omega arith;
  none_left = refl;
  positive = λ k. power_positive 10 k (omega arith);
}

module _ (base : ℕ) (b : IsBase base) (size : ℕ) where
  -- a digit more stands for the same number
  read-digit :
      (adj : ℕ) (vals : List ℕ)
      → read base (adj / base) (hex_index (adj % base) ∷ vals) ≡ read base adj vals
  unfolding read
  read-digit adj vals =
      ap (λ d. read base (adj / base * base + d) vals) (digit-hex_index (adj % base) (b.small adj))
      ∙ ap (λ n. read base n vals) (b.split adj)

  -- the test of the loop
  ends : ℕ → List ℕ → Bool
  ends adj vals = (adj == 0) && not (length vals == 0)

  quotient-enough :
      (adj fuel : ℕ) (vals : List ℕ)
      → adj < suc fuel
      → (length vals ≡ 0 → adj + 1 < suc fuel)
      → ends adj vals ≡ false
      → adj / base < fuel
  unfolding ends
  quotient-enough zero fuel vals enough start on = rw b.none_left (ground arith)
  quotient-enough (suc adj) fuel vals enough start on = let h = b.falls (suc adj) in omega arith

  fill-ends :
      (fuel adj : ℕ) (vals : List ℕ)
      → ends adj vals ≡ true
      → (fill_digits base size (suc fuel) adj vals ≡ filled vals) × (adj ≡ 0)
  unfolding fill_digits ends
  fill-ends fuel adj vals e = ground arith

  fill-step :
      (fuel adj : ℕ) (vals : List ℕ)
      → ends adj vals ≡ false
      → length vals < size
      → fill_digits base size (suc fuel) adj vals
        ≡ fill_digits base size fuel (adj / base) (hex_index (adj % base) ∷ vals)
  unfolding fill_digits ends
  fill-step fuel adj vals e room = ground arith

  fill-full :
      (fuel adj : ℕ) (vals : List ℕ)
      → ends adj vals ≡ false
      → length vals ≡ size
      → fill_digits base size (suc fuel) adj vals ≡ past_end
  unfolding fill_digits ends
  fill-full fuel adj vals e full = ground arith

  has_room : (adj : ℕ) (vals : List ℕ) → ends adj vals ≡ false → length vals ≢ 0 → 0 < adj
  unfolding ends
  has_room adj vals on nonempty = ground arith

  pub fill_digits-fits :
      (fuel room adj : ℕ) (vals : List ℕ)
      → adj < fuel
      → (length vals ≡ 0 → adj + 1 < fuel)
      → length vals + room ≡ size
      → (length vals ≡ 0 → 0 < room)
      → adj < base ^ room
      → (t : List ℕ) × (fill_digits base size fuel adj vals ≡ filled t)
        × (read base 0 t ≡ read base adj vals)
  fill_digits-fits zero room adj vals enough start fits some_room small = absurd (omega arith)
  fill_digits-fits (suc fuel) zero adj vals enough start fits some_room small =
      elim (Bool-cases (ends adj vals)) [
        | inl e ↦
            let (run, z) = fill-ends fuel adj vals e in
            (vals, run, ap (λ n. read base n vals) (sym z))
        | inr e ↦
            let h = has_room adj vals e (λ z. absurd (omega arith)) in
            let h' : adj < 1 = subst (◌<◌ adj) (pow-zero base) small in absurd (omega arith)
      ]
  fill_digits-fits (suc fuel) (suc room) adj vals enough start fits some_room small =
      elim (Bool-cases (ends adj vals)) [
        | inl e ↦
            let (run, z) = fill-ends fuel adj vals e in
            (vals, run, ap (λ n. read base n vals) (sym z))
        | inr e ↦
            let vals' = hex_index (adj % base) ∷ vals in
            let (t, run, value) =
              fill_digits-fits fuel room (adj / base) vals'
                (quotient-enough adj fuel vals enough start e) (λ z. absurd (omega arith))
                (omega arith) (λ z. absurd (omega arith))
                (b.less adj (base ^ room) (subst (◌<◌ adj) (pow-succ' base room) small)) in
            (t, fill-step fuel adj vals e (omega arith) ∙ run, value ∙ read-digit adj vals)
      ]

  more_left : (adj : ℕ) (vals : List ℕ) → 0 < adj → ends adj vals ≡ false
  unfolding ends
  more_left adj vals h = ground arith

  pub fill_digits-overruns :
      (fuel room adj : ℕ) (vals : List ℕ)
      → adj < fuel
      → length vals + room ≡ size
      → 0 < adj
      → base ^ room ≤ adj
      → fill_digits base size fuel adj vals ≡ past_end
  fill_digits-overruns zero room adj vals enough fits some_left large = absurd (omega arith)
  fill_digits-overruns (suc fuel) zero adj vals enough fits some_left large =
      fill-full fuel adj vals (more_left adj vals some_left) (omega arith)
  fill_digits-overruns (suc fuel) (suc room) adj vals enough fits some_left large =
      let h = b.falls adj some_left in
      let q = b.more adj (base ^ room) (subst (λ p. p ≤ adj) (pow-succ' base room) large) in
      let some = b.positive room in
      fill-step fuel adj vals (more_left adj vals some_left) (omega arith)
      ∙ fill_digits-overruns fuel room (adj / base) (hex_index (adj % base) ∷ vals) (omega arith)
          (omega arith) (omega arith) q

-- What is printed, as a number.
abbrev pub Prints : ℕ → ℕ → Printed → Type 0
Prints base n (printed t) = read base 0 t ≡ n
Prints base n overruns = ⊥
Prints base n reads_past = ⊥
Prints base n no_argument = ⊥

printed-Prints :
    (base n : ℕ) (f : Filled) (t : List ℕ)
    → f ≡ filled t
    → read base 0 t ≡ n
    → Prints base n (print_vals f)
unfolding print_vals
printed-Prints base n f t e v = rw e v

overrun_lem : (f : Filled) → f ≡ past_end → print_vals f ≡ overruns
unfolding print_vals
overrun_lem f e = rw e

-- Into a buffer of `size` cells go the digits of the numbers below base ^ size, and no others.
pub digits_lem :
    (base : ℕ) (b : IsBase base) (size n : ℕ)
    → 0 < size
    → ((n < base ^ size)
        × (t : List ℕ) × (fill_digits base size (n + 2) n [] ≡ filled t)
        × (read base 0 t ≡ n))
      ⊎ ((base ^ size ≤ n) × (fill_digits base size (n + 2) n [] ≡ past_end))
unfolding read
digits_lem base b size n room = elim (Bool-cases (ltb n (base ^ size))) [
  | inl e ↦
      let h = ltb→lt n (base ^ size) e in
      let (t, run, value) =
        fill_digits-fits base b size (n + 2) size n [] (omega arith) (λ z. omega arith)
          (omega arith) (λ z. room) h in
      inl (h, t, run, value)
  | inr e ↦
      let h = ltb→ge n (base ^ size) e in
      let some = b.positive size in
      inr (
        h,
        fill_digits-overruns base b size (n + 2) size n [] (omega arith) (omega arith) (omega arith)
            h,
      )
]

-- The digits of every 64-bit number fit into the 64 cells of `printf_binary`, and are printed: read
-- back in base 2 they give the number.
pub printf_binary-Prints : (n : ℕ) → n < 2 ^ 64 → Prints 2 n (printf_binary n)
unfolding printf_binary
printf_binary-Prints n h = elim (digits_lem 2 two-IsBase 64 n (omega arith)) [
  | inl (small, t, run, value) ↦ printed-Prints 2 n (fill_digits 2 64 (n + 2) n []) t run value
  | inr (large, run) ↦ absurd (omega arith)
]

-- A number of at most four digits is printed by `printf_uint` as text that gives it back; at any
-- larger number the fifth digit is stored past the end of the buffer `vals` on the stack.
pub printf_uint-Prints :
    (n : ℕ)
    → ((n < 10000) × Prints 10 n (printf_uint n)) ⊎ ((10000 ≤ n) × (printf_uint n ≡ overruns))
unfolding printf_uint
printf_uint-Prints n = elim (digits_lem 10 ten-IsBase 4 n (omega arith)) [
  | inl (small, t, run, value) ↦
      inl (small, printed-Prints 10 n (fill_digits 10 4 (n + 2) n []) t run value)
  | inr (large, run) ↦ inr (large, overrun_lem (fill_digits 10 4 (n + 2) n []) run)
]

-- `printf_ulong` prints the numbers of at most seven digits, and runs past its buffer at all others.
pub printf_ulong-Prints :
    (n : ℕ)
    → ((n < 10000000) × Prints 10 n (printf_ulong n))
      ⊎ ((10000000 ≤ n) × (printf_ulong n ≡ overruns))
unfolding printf_ulong
printf_ulong-Prints n = elim (digits_lem 10 ten-IsBase 7 n (omega arith)) [
  | inl (small, t, run, value) ↦
      inl (small, printed-Prints 10 n (fill_digits 10 7 (n + 2) n []) t run value)
  | inr (large, run) ↦ inr (large, overrun_lem (fill_digits 10 7 (n + 2) n []) run)
]
