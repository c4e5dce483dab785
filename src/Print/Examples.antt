-- ===== src/Print/Examples.antt =====
-- Numbers and formats printed, and the theorems at them.
use plenjos_kernel.Prelude.{ℕ, false, ◌≤◌, ◌<◌, ◌≡◌, ◌⊎◌, refl, arith, List, [], ◌∷◌, ◌++◌}
use plenjos_kernel.Prelude.Int.{negsuc}
use plenjos_kernel.Print.{
  printed, overruns, no_argument, then_print, hex_index, fill_digits, print_vals, printf_int,
  printf_uint, printf_hex, hex_from, pad_to, pad_digits, printf_signed, printf_str,
}
use plenjos_kernel.Print.Digits.{Prints, printf_uint-Prints}
use plenjos_kernel.Print.Format.{
  _printf_internal, format_from, next, after_percent, after_precision, ended,
}
use plenjos_kernel.Print.Parts.{
  Part, literal, signed, padded_hex, string, spell_all, arguments, meanings, printf_parts,
}
use plenjos_kernel.Print.Console.{
  Console, glyph, kputchar, scroll_console, scroll_full, draw, draw_cursor, put_newline, put_char,
  printf_ch, print_text, Shows, print_text-Shows,
}

uint_year : printf_uint 2026 ≡ printed (50 ∷ 48 ∷ 50 ∷ 54 ∷ [])
unfolding printf_uint fill_digits hex_index print_vals
uint_year = refl

uint_port : printf_uint 65535 ≡ overruns
unfolding printf_uint fill_digits hex_index print_vals
uint_port = refl

int_padded : printf_int (negsuc 4) 3 ≡ printed (45 ∷ 48 ∷ 48 ∷ 53 ∷ [])
unfolding printf_int printf_signed fill_digits hex_index print_vals pad_to pad_digits
int_padded = refl

hex_padded : printf_hex 31 3 ≡ printed (48 ∷ 120 ∷ 48 ∷ 49 ∷ 102 ∷ [])
unfolding printf_hex hex_from hex_index
hex_padded = refl

printf_uint-Prints_example :
    ((2026 < 10000) × Prints 10 2026 (printf_uint 2026))
    ⊎ ((10000 ≤ 2026) × (printf_uint 2026 ≡ overruns))
printf_uint-Prints_example = printf_uint-Prints 2026

-- the string that stands at every address: `ok`
abbrev strings : ℕ → List ℕ
strings a = 111 ∷ 107 ∷ []

-- `n%d %.3x%s`
abbrev parts : List Part
parts = literal 110 ∷ signed 7 ∷ literal 32 ∷ padded_hex (51 ∷ []) 31 ∷ string 4096 ∷ []

parts_text :
    _printf_internal strings
      (110 ∷ 37 ∷ 100 ∷ 32 ∷ 37 ∷ 46 ∷ 51 ∷ 120 ∷ 37 ∷ 115 ∷ [])
      (7 ∷ 31 ∷ 4096 ∷ [])
    ≡ printed (110 ∷ 55 ∷ 32 ∷ 48 ∷ 120 ∷ 48 ∷ 49 ∷ 102 ∷ 111 ∷ 107 ∷ [])
unfolding _printf_internal format_from next after_percent after_precision ended printf_int
    printf_signed fill_digits hex_index print_vals pad_to pad_digits printf_hex hex_from printf_str
parts_text = refl

no_words : _printf_internal strings (37 ∷ 100 ∷ []) [] ≡ no_argument
unfolding _printf_internal format_from next after_percent
no_words = refl

printf_parts_example :
    _printf_internal strings (spell_all parts ++ 33 ∷ []) (arguments parts ++ [])
    ≡ then_print (meanings strings parts) (_printf_internal strings (33 ∷ []) [])
printf_parts_example =
    printf_parts strings parts (33 ∷ []) []
      (ground arith, (tt, (ground arith, ((refl, tt), (tt, tt)))))

abbrev console : Console
console = record { console_pos = 3; cursor = false; screen = [] }

-- two lines of four characters: the first letter would stand in the last column
console_text : (print_text 4 2 (97 ∷ 98 ∷ []) console).screen ≡ glyph 98 0 1 ∷ []
unfolding print_text printf_ch scroll_full scroll_console put_newline put_char draw draw_cursor
    kputchar
console_text = refl

print_text-Shows_example : Shows 4 2 (print_text 4 2 (97 ∷ 98 ∷ []) console)
print_text-Shows_example =
    print_text-Shows 4 2 (omega arith) (omega arith) (omega arith) (97 ∷ 98 ∷ []) console
      (record { place = omega arith; drawn = tt })
