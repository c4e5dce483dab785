-- ===== src/Print.antt =====
-- lib/stdio/stdio_out.c: numbers and strings printed one character at a time, and the format of printf.
-- What is printed is the list of the characters given to `printf_ch`.
use plenjos_kernel.Prelude.{
  ℕ, zero, suc, ◌+◌, ◌-◌, ◌*◌, ◌/◌, ◌%◌, ◌^◌, Bool, true, false, List, [], ◌∷◌, ◌++◌, ◌==◌, ◌&&◌,
  not, ltb, if◌then◌else◌, length, take,
}
use plenjos_kernel.Prelude.Int.{ℤ, pos, negsuc, neg_part, pos_part}
pub mod Digits
pub mod Hex
pub mod Format
pub mod Parts
pub mod Console
mod Examples

-- `hex_indices[d]`
unfoldable pub hex_index : ℕ → ℕ
hex_index d = if ltb d 10 then 48 + d else 87 + d

-- The text that is printed; or a store past the end of the buffer `vals`, a read past the end of the
-- format, an argument that the caller did not give.
pub data Printed : Type 0 where
  printed : List ℕ → Printed
  overruns : Printed
  reads_past : Printed
  no_argument : Printed

-- The cells of `vals` that are written, the last one first, while a number is split into digits.
pub data Filled : Type 0 where
  filled : List ℕ → Filled
  past_end : Filled
  running : Filled

-- `while (adj || !i) { vals[i++] = hex_indices[adj % base]; adj /= base; }` for a buffer of `size` cells
unfoldable pub fill_digits : ℕ → ℕ → ℕ → ℕ → List ℕ → Filled
fill_digits base size zero adj vals = running
fill_digits base size (suc fuel) adj vals =
    let rest = fill_digits base size fuel (adj / base) (hex_index (adj % base) ∷ vals) in
    if (adj == 0) && not (length vals == 0)
    then filled vals
    else (if ltb (length vals) size then rest else past_end)

-- the zeros up to `min_digits`
unfoldable pub pad_digits : ℕ → ℕ → List ℕ → Filled
pad_digits size zero vals = filled vals
pad_digits size (suc more) vals =
    let rest = pad_digits size more (48 ∷ vals) in if ltb (length vals) size then rest else past_end

-- `while (i) printf_ch(vals[--i]);`
unfoldable pub print_vals : Filled → Printed
print_vals (filled vals) = printed vals
print_vals past_end = overruns
print_vals running = overruns

-- Each round divides by the base, so `adj` + 2 rounds are enough.
unfoldable pub printf_binary : ℕ → Printed
unfolding fill_digits print_vals
printf_binary binary = print_vals (fill_digits 2 64 (binary + 2) binary [])

-- `vals` has (8 * 4 + 9) / 10 cells.
unfoldable pub printf_uint : ℕ → Printed
unfolding fill_digits print_vals
printf_uint num = print_vals (fill_digits 10 ((8 * 4 + 9) / 10) (num + 2) num [])

-- `vals` has (8 * 8 + 9) / 10 cells.
unfoldable pub printf_ulong : ℕ → Printed
unfolding fill_digits print_vals
printf_ulong num = print_vals (fill_digits 10 ((8 * 8 + 9) / 10) (num + 2) num [])

-- what is printed before and after; a fault ends the call
abbrev pub then_print : Printed → Printed → Printed
then_print (printed t) (printed u) = printed (t ++ u)
then_print (printed t) overruns = overruns
then_print (printed t) reads_past = reads_past
then_print (printed t) no_argument = no_argument
then_print overruns rest = overruns
then_print reads_past rest = reads_past
then_print no_argument rest = no_argument

unfoldable pub pad_to : ℕ → ℕ → Filled → Filled
unfolding pad_digits
pad_to size min_digits (filled vals) = pad_digits size (min_digits - length vals) vals
pad_to size min_digits past_end = past_end
pad_to size min_digits running = running

abbrev pub minus : ℤ → Printed
minus (pos n) = printed []
minus (negsuc n) = printed (45 ∷ [])

-- the body that `printf_int` and `printf_long` share, for a buffer of `size` cells
unfoldable pub printf_signed : ℕ → ℤ → ℕ → Printed
unfolding pad_to fill_digits print_vals
printf_signed size num min_digits =
    let adj = pos_part num + neg_part num in
    then_print (minus num)
      (print_vals (pad_to size min_digits (fill_digits 10 size (adj + 2) adj [])))

unfoldable pub printf_int : ℤ → ℕ → Printed
unfolding printf_signed
printf_int num min_digits = printf_signed ((8 * 4 + 9) / 10) num min_digits

unfoldable pub printf_long : ℤ → ℕ → Printed
unfolding printf_signed
printf_long num min_digits = printf_signed ((8 * 8 + 9) / 10) num min_digits

-- The loop of `printf_hex`, with `left` = 8 - i digits to come.
unfoldable pub hex_from : ℕ → ℕ → Bool → ℕ → List ℕ
hex_from zero pad started adj = []
hex_from (suc left) pad started adj =
    let top = adj / 2 ^ 28 % 16 in
    let skipped = hex_from left pad started (adj * 16 % 2 ^ 64) in
    let shown = hex_index top ∷ hex_from left pad true (adj % 2 ^ 28 * 16) in
    if not (pad == 0) && ltb pad (suc left) && (top == 0) && not started then skipped else shown

unfoldable pub printf_hex : ℕ → ℕ → Printed
printf_hex hex pad = printed (48 ∷ 120 ∷ hex_from 8 pad false hex)

-- The loop of `printf_hex_long`, with `left` = 16 - i digits to come.
unfoldable pub hex_long_from : ℕ → ℕ → Bool → ℕ → List ℕ
hex_long_from zero pad started adj = []
hex_long_from (suc left) pad started adj =
    let top = adj / 2 ^ 60 % 16 in
    let skipped = hex_long_from left pad started (adj * 16 % 2 ^ 64) in
    let shown = hex_index top ∷ hex_long_from left pad true (adj % 2 ^ 60 * 16) in
    if not (pad == 0) && ltb pad (suc left) && (top == 0) && not started then skipped else shown

unfoldable pub printf_hex_long : ℕ → ℕ → Printed
printf_hex_long hex pad = printed (48 ∷ 120 ∷ hex_long_from 16 pad false hex)

-- `printf_str`: the characters up to the NUL, at most `max_chars`
unfoldable pub printf_str : List ℕ → ℕ → Printed
printf_str str max_chars = printed (take max_chars str)
