-- ===== src/Print/Hex.antt =====
-- The hexadecimal digits of `printf_hex` (lib/stdio/stdio_out.c), read back as a number.
use plenjos_kernel.Prelude.{
  ℕ, zero, suc, ◌+◌, ◌-◌, ◌*◌, ◌/◌, ◌%◌, ◌^◌, ◌≤◌, ◌<◌, ◌≡◌, inl, inr, refl, ap, ◌∙◌, arith, Bool,
  true, false, List, ◌∷◌, ltb, ◌==◌, ◌&&◌, not, Bool-cases, length, min,
}
use plenjos_kernel.Print.{hex_index, printed, hex_from, printf_hex}
use plenjos_kernel.Print.Digits.{read, digit, digit-hex_index}

-- A digit 0 that is left out, and a digit that is shown, when `left` digits follow.
skip_sum :
    (left adj acc : ℕ)
    → left < 8
    → adj < 2 ^ 32
    → adj / 2 ^ 28 % 16 ≡ 0
    → acc ≡ 0
    → acc * 16 ^ left + adj * 16 % 2 ^ 64 / 16 ^ (8 - left)
      ≡ acc * 16 ^ suc left + adj / 16 ^ (8 - suc left)
skip_sum zero adj acc h small top z = omega arith
skip_sum (suc zero) adj acc h small top z = omega arith
skip_sum (suc (suc zero)) adj acc h small top z = omega arith
skip_sum (suc (suc (suc zero))) adj acc h small top z = omega arith
skip_sum (suc (suc (suc (suc zero)))) adj acc h small top z = omega arith
skip_sum (suc (suc (suc (suc (suc zero))))) adj acc h small top z = omega arith
skip_sum (suc (suc (suc (suc (suc (suc zero)))))) adj acc h small top z = omega arith
skip_sum (suc (suc (suc (suc (suc (suc (suc zero))))))) adj acc h small top z = omega arith
skip_sum (suc (suc (suc (suc (suc (suc (suc (suc left)))))))) adj acc h small top z =
    absurd (omega arith)

show_sum :
    (left adj acc : ℕ)
    → left < 8
    → adj < 2 ^ 32
    → (acc * 16 + adj / 2 ^ 28 % 16) * 16 ^ left + adj % 2 ^ 28 * 16 / 16 ^ (8 - left)
      ≡ acc * 16 ^ suc left + adj / 16 ^ (8 - suc left)
show_sum zero adj acc h small = omega arith
show_sum (suc zero) adj acc h small = omega arith
show_sum (suc (suc zero)) adj acc h small = omega arith
show_sum (suc (suc (suc zero))) adj acc h small = omega arith
show_sum (suc (suc (suc (suc zero)))) adj acc h small = omega arith
show_sum (suc (suc (suc (suc (suc zero))))) adj acc h small = omega arith
show_sum (suc (suc (suc (suc (suc (suc zero)))))) adj acc h small = omega arith
show_sum (suc (suc (suc (suc (suc (suc (suc zero))))))) adj acc h small = omega arith
show_sum (suc (suc (suc (suc (suc (suc (suc (suc left)))))))) adj acc h small = absurd (omega arith)

skips : ℕ → ℕ → Bool → ℕ → Bool
skips left pad started adj =
    not (pad == 0) && ltb pad (suc left) && (adj / 2 ^ 28 % 16 == 0) && not started

hex-skip :
    (left pad : ℕ) (started : Bool) (adj : ℕ)
    → skips left pad started adj ≡ true
    → (hex_from (suc left) pad started adj ≡ hex_from left pad started (adj * 16 % 2 ^ 64))
      × (adj / 2 ^ 28 % 16 ≡ 0)
      × (started ≡ false)
      × (pad ≤ left)
unfolding hex_from skips
hex-skip left pad started adj e = ground arith

hex-show :
    (left pad : ℕ) (started : Bool) (adj : ℕ)
    → skips left pad started adj ≡ false
    → hex_from (suc left) pad started adj
      ≡ hex_index (adj / 2 ^ 28 % 16) ∷ hex_from left pad true (adj % 2 ^ 28 * 16)
unfolding hex_from skips
hex-show left pad started adj e = ground arith

hex_from-read :
    (left pad : ℕ) (started : Bool) (adj acc : ℕ)
    → left ≤ 8
    → adj < 2 ^ 32
    → (started ≡ false → acc ≡ 0)
    → read 16 acc (hex_from left pad started adj) ≡ acc * 16 ^ left + adj / 16 ^ (8 - left)
unfolding hex_from read
hex_from-read zero pad started adj acc h small first = omega arith
hex_from-read (suc left) pad started adj acc h small first =
    elim (Bool-cases (skips left pad started adj)) [
      | inl e ↦
          let (run, top, off, narrow) = hex-skip left pad started adj e in
          ap (read 16 acc) run
          ∙ hex_from-read left pad started (adj * 16 % 2 ^ 64) acc (omega arith) (omega arith) first
          ∙ skip_sum left adj acc (omega arith) small top (first off)
      | inr e ↦
          let top = adj / 2 ^ 28 % 16 in
          let d : digit (hex_index top) ≡ top = digit-hex_index top (omega arith) in
          ap (read 16 acc) (hex-show left pad started adj e)
          ∙ ap (λ x. read 16 (acc * 16 + x) (hex_from left pad true (adj % 2 ^ 28 * 16))) d
          ∙ hex_from-read left pad true (adj % 2 ^ 28 * 16) (acc * 16 + top) (omega arith)
              (omega arith) (λ x. absurd (cc))
          ∙ show_sum left adj acc (omega arith) small
    ]

hex_from-length :
    (left pad : ℕ) (started : Bool) (adj : ℕ)
    → (length (hex_from left pad started adj) ≤ left)
      × (min pad left ≤ length (hex_from left pad started adj))
unfolding hex_from
hex_from-length zero pad started adj = (omega arith, omega arith)
hex_from-length (suc left) pad started adj = ground (
  arith,
  hex_from-length left pad started (adj * 16 % 2 ^ 64),
  hex_from-length left pad true (adj % 2 ^ 28 * 16),
)

-- What `printf_hex` prints behind `0x` gives the 32-bit number back, in base 16. It has at most 8
-- digits, and at least as many as `pad_to` asks for, up to 8.
pub printf_hex-Prints :
    (hex pad : ℕ)
    → hex < 2 ^ 32
    → (t : List ℕ) × (printf_hex hex pad ≡ printed (48 ∷ 120 ∷ t))
      × (read 16 0 t ≡ hex)
      × (min pad 8 ≤ length t)
      × (length t ≤ 8)
unfolding printf_hex
printf_hex-Prints hex pad h =
    let (most, least) = hex_from-length 8 pad false hex in
    (
      hex_from 8 pad false hex,
      refl,
      hex_from-read 8 pad false hex 0 (omega arith) h (λ e. refl) ∙ omega arith,
      least,
      most,
    )
