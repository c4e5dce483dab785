-- ===== src/Print/Format.antt =====
-- `_printf_internal` (lib/stdio/stdio_out.c): the format and its arguments, 64-bit words. `memory` is
-- the string that stands at an address.
use plenjos_kernel.Prelude.{
  ℕ, ◌+◌, ◌-◌, ◌*◌, ◌%◌, ◌^◌, Bool, List, [], ◌∷◌, ltb, leb, ◌==◌, ◌&&◌, ◌||◌, if◌then◌else◌,
}
use plenjos_kernel.Prelude.Int.{ℤ, pos, negsuc}
use plenjos_kernel.Print.{
  Printed, printed, reads_past, no_argument, then_print, printf_binary, printf_int, printf_uint,
  printf_long, printf_ulong, printf_hex, printf_hex_long, printf_str,
}

-- where the loop stands in a directive
pub data Mode : Type 0 where
  plain : Mode
  percent : Mode
  long : Mode
  precise : ℕ → Mode

-- what one character of the format leads to
pub data Next : Type 0 where
  into : Mode → Next
  shows : ℕ → Next
  converts : (ℕ → Printed) → Next
  ignores : Next

abbrev pub to_int : ℕ → ℤ
to_int w = let v = w % 2 ^ 32 in if ltb v (2 ^ 31) then pos v else negsuc (2 ^ 32 - 1 - v)

abbrev pub to_long : ℕ → ℤ
to_long w = let v = w % 2 ^ 64 in if ltb v (2 ^ 63) then pos v else negsuc (2 ^ 64 - 1 - v)

abbrev pub is_digit : ℕ → Bool
is_digit c = leb 48 c && leb c 57

module _ (memory : ℕ → List ℕ) where
  -- the `switch` behind a percent sign: d, i, u, b, B, f, c, s, x, p, l, and `.` or `0`
  unfoldable pub after_percent : ℕ → Next
  after_percent c =
      if (c == 100) || (c == 105)
      then converts (λ w. printf_int (to_int w) 0)
      else (if c == 117
          then converts (λ w. printf_uint (w % 2 ^ 32))
          else (if c == 98
              then converts (λ w. printf_binary w)
              else (if c == 66
                  then converts (λ w. then_print (printed (48 ∷ 98 ∷ [])) (printf_binary w))
                  else (if c == 102
                      then ignores
                      else (if c == 99
                          then converts (λ w. printed ((w % 256) ∷ []))
                          else (if c == 115
                              then converts (λ w. printf_str (memory w) 65535)
                              else (if c == 120
                                  then converts (λ w. printf_hex (w % 2 ^ 32) 0)
                                  else (if c == 112
                                      then converts (λ w. printf_hex_long w 0)
                                      else (if c == 108
                                          then into long
                                          else (if (c == 46) || (c == 48)
                                              then into (precise 0)
                                              else shows c))))))))))

  unfoldable pub after_long : ℕ → Next
  after_long c =
      if c == 100
      then converts (λ w. printf_long (to_long w) 0)
      else (if c == 117 then converts (λ w. printf_ulong w) else converts (λ w. printed []))

  -- the digits of a precision, a `uint16_t`, and the `switch` behind them: s, d, f, x
  unfoldable pub after_precision : ℕ → ℕ → Next
  after_precision p c =
      if is_digit c
      then into (precise ((p * 10 + (c - 48)) % 2 ^ 16))
      else (if c == 115
          then converts (λ w. printf_str (memory w) p)
          else (if c == 100
              then converts (λ w. printf_int (to_int w) p)
              else (if c == 102
                  then ignores
                  else (if c == 120
                      then converts (λ w. printf_hex (w % 2 ^ 32) p)
                      else converts (λ w. printed [])))))

  unfoldable pub next : Mode → ℕ → Next
  unfolding after_percent after_long after_precision
  next plain c = if c == 37 then into percent else shows c
  next percent c = after_percent c
  next long c = after_long c
  next (precise p) c = after_precision p c

  -- The end of the format inside a directive is taken for one more character, and the loop goes on
  -- behind the NUL.
  unfoldable pub ended : Mode → Printed
  ended plain = printed []
  ended percent = reads_past
  ended long = reads_past
  ended (precise p) = reads_past

  unfoldable pub format_from : Mode → List ℕ → List ℕ → Printed
  unfolding next ended
  format_from mode [] args = ended mode
  format_from mode (c ∷ cs) args = elim (next mode c) [
    | into m ↦ format_from m cs args
    | shows d ↦ then_print (printed (d ∷ [])) (format_from plain cs args)
    | ignores ↦ format_from plain cs args
    | converts f ↦ elim args [
      | [] ↦ no_argument
      | w ∷ ws ↦ then_print (f w) (format_from plain cs ws)
    ]
  ]

  unfoldable pub _printf_internal : List ℕ → List ℕ → Printed
  unfolding format_from
  _printf_internal format args = format_from plain format args
