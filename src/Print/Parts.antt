-- ===== src/Print/Parts.antt =====
-- What a format says, part by part, and that `_printf_internal` (lib/stdio/stdio_out.c) prints it.
use plenjos_kernel.Prelude.{
  ℕ, ◌+◌, ◌-◌, ◌*◌, ◌%◌, ◌^◌, ◌≡◌, ◌≢◌, refl, sym, ap, ap₂, ◌∙◌, true, List, [], ◌∷◌, ◌++◌, All,
  append_assoc, append-nil, ne→==,
}
use plenjos_kernel.Print.{
  Printed, printed, overruns, reads_past, no_argument, then_print, printf_binary, printf_int,
  printf_uint, printf_long, printf_ulong, printf_hex, printf_hex_long, printf_str,
}
use plenjos_kernel.Print.Format.{
  Mode, Next, plain, precise, to_int, to_long, is_digit, into, shows, converts, ignores, next,
  after_percent, after_long, after_precision, ended, format_from, _printf_internal,
}

-- A character, or a directive with its argument, some with the digits of a precision.
pub data Part : Type 0 where
  literal : ℕ → Part
  signed : ℕ → Part
  unsigned : ℕ → Part
  binary : ℕ → Part
  string : ℕ → Part
  hex : ℕ → Part
  pointer : ℕ → Part
  long_signed : ℕ → Part
  long_unsigned : ℕ → Part
  padded : List ℕ → ℕ → Part
  padded_hex : List ℕ → ℕ → Part
  cut_string : List ℕ → ℕ → Part

unfoldable pub spell : Part → List ℕ
spell (literal c) = c ∷ []
spell (signed w) = 37 ∷ 100 ∷ []
spell (unsigned w) = 37 ∷ 117 ∷ []
spell (binary w) = 37 ∷ 98 ∷ []
spell (string w) = 37 ∷ 115 ∷ []
spell (hex w) = 37 ∷ 120 ∷ []
spell (pointer w) = 37 ∷ 112 ∷ []
spell (long_signed w) = 37 ∷ 108 ∷ 100 ∷ []
spell (long_unsigned w) = 37 ∷ 108 ∷ 117 ∷ []
spell (padded ds w) = 37 ∷ 46 ∷ ds ++ 100 ∷ []
spell (padded_hex ds w) = 37 ∷ 46 ∷ ds ++ 120 ∷ []
spell (cut_string ds w) = 37 ∷ 46 ∷ ds ++ 115 ∷ []

unfoldable pub argument : Part → List ℕ
argument (literal c) = []
argument (signed w) = w ∷ []
argument (unsigned w) = w ∷ []
argument (binary w) = w ∷ []
argument (string w) = w ∷ []
argument (hex w) = w ∷ []
argument (pointer w) = w ∷ []
argument (long_signed w) = w ∷ []
argument (long_unsigned w) = w ∷ []
argument (padded ds w) = w ∷ []
argument (padded_hex ds w) = w ∷ []
argument (cut_string ds w) = w ∷ []

-- the number that digits make, in 16 bits
unfoldable pub precision : ℕ → List ℕ → ℕ
precision p [] = p
precision p (d ∷ ds) = precision ((p * 10 + (d - 48)) % 2 ^ 16) ds

-- A literal is no percent sign, and a precision consists of digits.
abbrev pub IsPart : Part → Type 0
IsPart (literal c) = c ≢ 37
IsPart (padded ds w) = All (λ d. is_digit d ≡ true) ds
IsPart (padded_hex ds w) = All (λ d. is_digit d ≡ true) ds
IsPart (cut_string ds w) = All (λ d. is_digit d ≡ true) ds
IsPart part = Unit

unfoldable pub spell_all : List Part → List ℕ
unfolding spell
spell_all [] = []
spell_all (p ∷ ps) = spell p ++ spell_all ps

unfoldable pub arguments : List Part → List ℕ
unfolding argument
arguments [] = []
arguments (p ∷ ps) = argument p ++ arguments ps

module _ (memory : ℕ → List ℕ) where
  unfoldable pub meaning : Part → Printed
  unfolding precision
  meaning (literal c) = printed (c ∷ [])
  meaning (signed w) = printf_int (to_int w) 0
  meaning (unsigned w) = printf_uint (w % 2 ^ 32)
  meaning (binary w) = printf_binary w
  meaning (string w) = printf_str (memory w) 65535
  meaning (hex w) = printf_hex (w % 2 ^ 32) 0
  meaning (pointer w) = printf_hex_long w 0
  meaning (long_signed w) = printf_long (to_long w) 0
  meaning (long_unsigned w) = printf_ulong w
  meaning (padded ds w) = printf_int (to_int w) (precision 0 ds)
  meaning (padded_hex ds w) = printf_hex (w % 2 ^ 32) (precision 0 ds)
  meaning (cut_string ds w) = printf_str (memory w) (precision 0 ds)

  unfoldable pub meanings : List Part → Printed
  unfolding meaning
  meanings [] = printed []
  meanings (p ∷ ps) = then_print (meaning p) (meanings ps)

  next_digit :
      (p d : ℕ)
      → is_digit d ≡ true
      → next memory (precise p) d ≡ into (precise ((p * 10 + (d - 48)) % 2 ^ 16))
  unfolding next after_precision
  next_digit p d h = rw h

  next_literal : (c : ℕ) → c ≢ 37 → next memory plain c ≡ shows c
  unfolding next
  next_literal c h = rw (ne→== c 37 h)

  -- what the loop does with a character
  follow : List ℕ → List ℕ → Next → Printed
  follow cs args (into m) = format_from memory m cs args
  follow cs args (shows d) = then_print (printed (d ∷ [])) (format_from memory plain cs args)
  follow cs args ignores = format_from memory plain cs args
  follow cs [] (converts f) = no_argument
  follow cs (w ∷ ws) (converts f) = then_print (f w) (format_from memory plain cs ws)

  follow-lem :
      (mode : Mode) (c : ℕ) (cs args : List ℕ) (n : Next)
      → next memory mode c ≡ n
      → format_from memory mode (c ∷ cs) args ≡ follow cs args n
  unfolding format_from follow
  follow-lem mode c cs args (into m) e = rw (e, format_from) refl
  follow-lem mode c cs args (shows d) e = rw (e, format_from) refl
  follow-lem mode c cs args ignores e = rw (e, format_from) refl
  follow-lem mode c cs [] (converts f) e = rw (e, format_from) refl
  follow-lem mode c cs (w ∷ ws) (converts f) e = rw (e, format_from) refl

  -- the digits of a precision are read one by one
  digits_run :
      (ds : List ℕ) (p : ℕ) (cs args : List ℕ)
      → All (λ d. is_digit d ≡ true) ds
      → format_from memory (precise p) (ds ++ cs) args
        ≡ format_from memory (precise (precision p ds)) cs args
  unfolding precision follow
  digits_run [] p cs args a = refl
  digits_run (d ∷ ds) p cs args a =
      follow-lem (precise p) d (ds ++ cs) args (into (precise ((p * 10 + (d - 48)) % 2 ^ 16)))
        (next_digit p d a.0)
      ∙ digits_run ds ((p * 10 + (d - 48)) % 2 ^ 16) cs args a.1

  part_run :
      (part : Part) (cs args : List ℕ)
      → IsPart part
      → format_from memory plain (spell part ++ cs) (argument part ++ args)
        ≡ then_print (meaning part) (format_from memory plain cs args)
  unfolding spell argument meaning format_from next after_percent after_long after_precision follow
  part_run (literal c) cs args h = follow-lem plain c cs args (shows c) (next_literal c h)
  part_run (signed w) cs args h = refl
  part_run (unsigned w) cs args h = refl
  part_run (binary w) cs args h = refl
  part_run (string w) cs args h = refl
  part_run (hex w) cs args h = refl
  part_run (pointer w) cs args h = refl
  part_run (long_signed w) cs args h = refl
  part_run (long_unsigned w) cs args h = refl
  part_run (padded ds w) cs args h =
      ap (λ t. format_from memory (precise 0) t (w ∷ args)) (append_assoc ds (100 ∷ []) cs)
      ∙ digits_run ds 0 (100 ∷ cs) (w ∷ args) h
  part_run (padded_hex ds w) cs args h =
      ap (λ t. format_from memory (precise 0) t (w ∷ args)) (append_assoc ds (120 ∷ []) cs)
      ∙ digits_run ds 0 (120 ∷ cs) (w ∷ args) h
  part_run (cut_string ds w) cs args h =
      ap (λ t. format_from memory (precise 0) t (w ∷ args)) (append_assoc ds (115 ∷ []) cs)
      ∙ digits_run ds 0 (115 ∷ cs) (w ∷ args) h

  then_print_assoc :
      (a b c : Printed) → then_print (then_print a b) c ≡ then_print a (then_print b c)
  then_print_assoc (printed t) (printed u) (printed v) = ap printed (append_assoc t u v)
  then_print_assoc (printed t) (printed u) overruns = refl
  then_print_assoc (printed t) (printed u) reads_past = refl
  then_print_assoc (printed t) (printed u) no_argument = refl
  then_print_assoc (printed t) overruns c = refl
  then_print_assoc (printed t) reads_past c = refl
  then_print_assoc (printed t) no_argument c = refl
  then_print_assoc overruns b c = refl
  then_print_assoc reads_past b c = refl
  then_print_assoc no_argument b c = refl

  print_nothing : (a : Printed) → a ≡ then_print (printed []) a
  print_nothing (printed t) = refl
  print_nothing overruns = refl
  print_nothing reads_past = refl
  print_nothing no_argument = refl

  -- The parts of a format are printed in their order, each with its own argument, and then whatever
  -- follows them in the format, with the arguments that are left.
  pub printf_parts :
      (ps : List Part) (cs args : List ℕ)
      → All IsPart ps
      → _printf_internal memory (spell_all ps ++ cs) (arguments ps ++ args)
        ≡ then_print (meanings ps) (_printf_internal memory cs args)
  unfolding _printf_internal spell_all arguments meanings
  printf_parts [] cs args h = print_nothing (format_from memory plain cs args)
  printf_parts (p ∷ ps) cs args h =
      ap₂ (format_from memory plain) (append_assoc (spell p) (spell_all ps) cs)
        (append_assoc (argument p) (arguments ps) args)
      ∙ part_run p (spell_all ps ++ cs) (arguments ps ++ args) h.0
      ∙ ap (then_print (meaning p)) (printf_parts ps cs args h.1)
      ∙ sym (then_print_assoc (meaning p) (meanings ps) (format_from memory plain cs args))

  -- A format that ends with a percent sign, behind parts that are printed, makes `_printf_internal` read
  -- past the NUL at its end.
  pub printf_percent_last :
      (ps : List Part) (t : List ℕ)
      → All IsPart ps
      → meanings ps ≡ printed t
      → _printf_internal memory (spell_all ps ++ 37 ∷ []) (arguments ps) ≡ reads_past
  unfolding _printf_internal format_from next after_percent ended
  printf_percent_last ps t h e =
      ap (_printf_internal memory (spell_all ps ++ 37 ∷ [])) (sym (append-nil (arguments ps)))
      ∙ printf_parts ps (37 ∷ []) [] h
      ∙ ap (λ m. then_print m (_printf_internal memory (37 ∷ []) [])) e
      ∙ last
    where
      last : then_print (printed t) (_printf_internal memory (37 ∷ []) []) ≡ reads_past
      last = refl
