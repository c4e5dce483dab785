-- ===== src/Print/Console.antt =====
-- lib/stdio/stdio_out.c: where on the console the characters go, for a console of `width` by `height`
-- characters; with the guard of `kputchar` (devices/kconsole.c). The screen is what is drawn on it, the
-- last first.
use plenjos_kernel.Prelude.{
  ℕ, ◌+◌, ◌-◌, ◌*◌, ◌/◌, ◌%◌, ◌^◌, ◌≤◌, ◌<◌, ◌≡◌, ◌≢◌, refl, sym, subst, arith, Bool, true, false,
  List, [], ◌∷◌, leb, ◌==◌, if◌then◌else◌, All, ◌⊎◌, ltb, ap, Bool-cases, inl, inr, ne→==, le→leb,
  gt→leb,
}
use native.Mathlib.Nat.{
  div-lt_iff_lt-mul, le-div_iff_mul-le, mul-le-mul_right, div-add-mod', mod-lt,
}

-- A character at a place, in white on black, or black on white for the cursor; a line that goes up.
pub data Drawn : Type 0 where
  glyph : ℕ → ℕ → ℕ → Drawn
  cursor_at : ℕ → ℕ → Drawn
  scrolled : Drawn

pub record Console : Type 0 where
  pub console_pos : ℕ  -- uint64_t
  pub cursor : Bool
  pub screen : List Drawn

module _ (width height : ℕ) where
  abbrev pub x_of : ℕ → ℕ
  x_of pos = pos % width

  abbrev pub y_of : ℕ → ℕ
  y_of pos = pos / width

  -- `kputchar`, which leaves out the last column
  unfoldable pub kputchar : Drawn → ℕ → Console → Console
  kputchar d x s = if leb width (x + 1) then s else record s { screen = d ∷ s.screen }

  unfoldable pub scroll_console : Console → Console
  scroll_console s = record s {
    console_pos = (s.console_pos + 2 ^ 64 - width) % 2 ^ 64;
    screen = scrolled ∷ s.screen;
  }

  -- `if (GET_CONSOLE_Y(console_pos) >= CONSOLE_H()) scroll_console();`
  unfoldable pub scroll_full : Console → Console
  unfolding scroll_console
  scroll_full s = if leb height (y_of s.console_pos) then scroll_console s else s

  unfoldable pub draw : ℕ → Console → Console
  unfolding kputchar
  draw ch s = kputchar (glyph ch (x_of s.console_pos) (y_of s.console_pos)) (x_of s.console_pos) s

  unfoldable pub draw_cursor : Console → Console
  unfolding kputchar
  draw_cursor s =
      if s.cursor
      then kputchar (cursor_at (x_of s.console_pos) (y_of s.console_pos)) (x_of s.console_pos) s
      else s

  -- the two branches of `printf_ch`; 10 is the newline, 32 the space that the cursor is removed with
  unfoldable pub put_newline : Console → Console
  unfolding draw scroll_full
  put_newline s =
      let t = if s.cursor then draw 32 s else s in
      scroll_full
        (record t { console_pos = (t.console_pos + (width - x_of t.console_pos)) % 2 ^ 64 })

  unfoldable pub put_char : ℕ → Console → Console
  unfolding draw
  put_char ch s = let t = draw ch s in record t { console_pos = (t.console_pos + 1) % 2 ^ 64 }

  -- `printf_ch` when the console is not the serial line
  unfoldable pub printf_ch : ℕ → Console → Console
  unfolding scroll_full put_newline put_char draw_cursor
  printf_ch ch s =
      let t = scroll_full s in draw_cursor (if ch == 10 then put_newline t else put_char ch t)

  unfoldable pub print_text : List ℕ → Console → Console
  unfolding printf_ch
  print_text [] s = s
  print_text (ch ∷ text) s = print_text text (printf_ch ch s)

  -- A character is drawn on the screen, left of its last column; the cursor too, or else at the start
  -- of the line below the screen.
  abbrev pub OnScreen : Drawn → Type 0
  OnScreen (glyph ch x y) = (x + 1 < width) × (y < height)
  OnScreen (cursor_at x y) = (x + 1 < width) × ((y < height) ⊎ ((x ≡ 0) × (y ≡ height)))
  OnScreen scrolled = Unit

  -- The place for the next character is on the screen or right behind it, as all characters are.
  pub record Shows (s : Console) : Type 0 where
    pub place : s.console_pos ≤ height * width
    pub drawn : All OnScreen s.screen

  module _ (wide : 0 < width) (high : width ≤ height * width) (fits : height * width < 2 ^ 64) where
    y_inside : (pos : ℕ) → pos < height * width → pos / width < height
    y_inside pos h = (div-lt_iff_lt-mul wide).1 h

    inside_y : (pos : ℕ) → pos / width < height → pos < height * width
    inside_y pos h = (div-lt_iff_lt-mul wide).0 h

    after_scroll :
        (n w pos : ℕ) → 0 < w → w ≤ n → n < 2 ^ 64 → pos ≡ n → (pos + 2 ^ 64 - w) % 2 ^ 64 < n
    after_scroll n w pos a b c e = omega arith

    below_all : (pos : ℕ) → pos ≤ height * width → height ≤ pos / width → pos ≡ height * width
    below_all pos h full = let k = (le-div_iff_mul-le wide).0 full in omega arith

    -- after the first test the place is on the screen
    scroll_full-inside :
        (s : Console)
        → Shows s
        → Shows (scroll_full s) × ((scroll_full s).console_pos < height * width)
    unfolding scroll_full scroll_console
    scroll_full-inside s h = elim (Bool-cases (leb height (y_of s.console_pos))) [
      | inl full ↦
          let at_end = below_all s.console_pos h.place (leb_le height (y_of s.console_pos) full) in
          let k =
            after_scroll (height * width) width s.console_pos wide high (omega arith) at_end in
          rw (full, scroll_full) (record { place = omega arith; drawn = (tt, h.drawn) }, k)
      | inr room ↦ rw room (h, inside_y s.console_pos (ground arith))
    ]
      where
        leb_le : (a b : ℕ) → leb a b ≡ true → a ≤ b
        leb_le a b e = ground arith

    draw-Shows :
        (ch : ℕ) (s : Console) → Shows s → s.console_pos < height * width → Shows (draw ch s)
    unfolding draw kputchar
    draw-Shows ch s h inside = elim (Bool-cases (leb width (x_of s.console_pos + 1))) [
      | inl last ↦ rw last h
      | inr left ↦ rw left (record {
        place = h.place;
        drawn = ((ground arith, y_inside s.console_pos inside), h.drawn);
      })
    ]

    draw-place : (ch : ℕ) (s : Console) → (draw ch s).console_pos ≡ s.console_pos
    unfolding draw kputchar
    draw-place ch s = ground arith

    -- the place right behind the screen is the start of the line below it
    behind_screen : (pos : ℕ) → pos ≡ height * width → (pos % width ≡ 0) × (pos / width ≡ height)
    behind_screen pos e =
        let low : height ≤ pos / width = (le-div_iff_mul-le wide).1 (omega (arith, e)) in
        let up : pos / width < height + 1 = (div-lt_iff_lt-mul wide).1 (below_next pos e) in
        let y : pos / width ≡ height = omega arith in
        let split = div-add-mod' pos width in (rest pos y e split, y)
      where
        below_next : (p : ℕ) → p ≡ height * width → p < (height + 1) * width
        below_next p e =
            let k : (height + 1) * width ≡ height * width + width = omega arith in omega arith

        rest :
            (p : ℕ)
            → p / width ≡ height
            → p ≡ height * width
            → p / width * width + p % width ≡ p
            → p % width ≡ 0
        rest p y e split =
            let f : p / width * width ≡ height * width = ap (λ k. k * width) y in omega arith

    cursor-OnScreen :
        (pos : ℕ)
        → pos ≤ height * width
        → pos % width + 1 < width
        → OnScreen (cursor_at (x_of pos) (y_of pos))
    cursor-OnScreen pos place left = elim (Bool-cases (ltb pos (height * width))) [
      | inl inside ↦ (left, inl (y_inside pos (ground arith)))
      | inr outside ↦ (left, inr (behind_screen pos (ground arith)))
    ]

    draw_cursor-Shows : (s : Console) → Shows s → Shows (draw_cursor s)
    unfolding draw_cursor kputchar
    draw_cursor-Shows s h = choose s.cursor (leb width (x_of s.console_pos + 1)) refl
      where
        choose :
            (b c : Bool)
            → leb width (x_of s.console_pos + 1) ≡ c
            → Shows (
                if b
                then (if c then s else record s {
                  screen = cursor_at (x_of s.console_pos) (y_of s.console_pos) ∷ s.screen;
                })
                else s)
        choose true true e = h
        choose true false e = record {
          place = h.place;
          drawn = (cursor-OnScreen s.console_pos h.place (ground arith), h.drawn);
        }
        choose false c e = h

    next_line :
        (pos : ℕ) → pos < height * width → (pos + (width - pos % width)) % 2 ^ 64 ≤ height * width
    next_line pos inside =
        let q = y_inside pos inside in
        let split = div-add-mod' pos width in
        let r = mod-lt pos wide in
        let m : (pos / width + 1) * width ≤ height * width = mul-le-mul_right width (omega arith) in
        let e : (pos / width + 1) * width ≡ pos / width * width + width = omega arith in omega arith

    put_newline-Shows :
        (s : Console) → Shows s → s.console_pos < height * width → Shows (put_newline s)
    unfolding put_newline
    put_newline-Shows s h inside = choose s.cursor
      where
        behind :
            (t : Console)
            → Shows t
            → t.console_pos < height * width
            → Shows (
                scroll_full (record t {
                  console_pos = (t.console_pos + (width - x_of t.console_pos)) % 2 ^ 64;
                }))
        behind t k below =
            (scroll_full-inside
              (record t { console_pos = (t.console_pos + (width - x_of t.console_pos)) % 2 ^ 64 })
              (record { place = next_line t.console_pos below; drawn = k.drawn })).0

        choose :
            (b : Bool)
            → (let t = if b then draw 32 s else s in
                Shows (
                  scroll_full (record t {
                    console_pos = (t.console_pos + (width - x_of t.console_pos)) % 2 ^ 64;
                  })))
        choose true =
            behind (draw 32 s) (draw-Shows 32 s h inside)
              (subst (λ n. n < height * width) (sym (draw-place 32 s)) inside)
        choose false = behind s h inside

    put_char-Shows :
        (ch : ℕ) (s : Console) → Shows s → s.console_pos < height * width → Shows (put_char ch s)
    unfolding put_char
    put_char-Shows ch s h inside =
        let k = draw-Shows ch s h inside in
        let e = draw-place ch s in record { place = omega arith; drawn = k.drawn }

    -- On a console of at least one line of at least one character, and of less than 2^64 characters, the
    -- following holds after any text if it held before. The place of the next character is on the
    -- screen or right behind it. Every character drawn is on one of its lines, left of the last
    -- column, and so is every cursor drawn, unless it is at the start of the line below the screen.
    pub print_text-Shows : (text : List ℕ) (s : Console) → Shows s → Shows (print_text text s)
    unfolding print_text printf_ch
    print_text-Shows [] s h = h
    print_text-Shows (ch ∷ text) s h =
        let (k, inside) = scroll_full-inside s h in
        let t = scroll_full s in
        print_text-Shows text (printf_ch ch s) (
          draw_cursor-Shows (if ch == 10 then put_newline t else put_char ch t)
            (choose (ch == 10) (put_newline-Shows t k inside) (put_char-Shows ch t k inside)))
      where
        choose :
            (b : Bool)
            → Shows (put_newline (scroll_full s))
            → Shows (put_char ch (scroll_full s))
            → Shows (if b then put_newline (scroll_full s) else put_char ch (scroll_full s))
        choose true k l = k
        choose false k l = l

    -- A character other than a newline that is printed at the last column of a line on the screen, with
    -- the cursor off, is not drawn, and the next one goes to the line below.
    pub printf_ch_last_column :
        (ch : ℕ) (s : Console)
        → ch ≢ 10
        → s.cursor ≡ false
        → s.console_pos < height * width
        → s.console_pos % width + 1 ≡ width
        → ((printf_ch ch s).screen ≡ s.screen) × ((printf_ch ch s).console_pos ≡ s.console_pos + 1)
    unfolding printf_ch scroll_full put_char draw kputchar draw_cursor
    printf_ch_last_column ch s other off inside last =
        let y = y_inside s.console_pos inside in
        rw
          (
            gt→leb height (s.console_pos / width) y,
            ne→== ch 10 other,
            le→leb width (s.console_pos % width + 1) (omega arith),
            off,
          )
          (refl, omega arith)

    -- A character other than a newline that is printed with the cursor on at the last place of the
    -- screen, wider than one column, draws the cursor at the start of the line below the screen.
    pub printf_ch_cursor_below :
        (ch : ℕ) (s : Console)
        → ch ≢ 10
        → s.cursor ≡ true
        → 1 < width
        → s.console_pos % width + 1 ≡ width
        → s.console_pos + 1 ≡ height * width
        → (printf_ch ch s).screen ≡ cursor_at 0 height ∷ s.screen
    unfolding printf_ch scroll_full put_char draw kputchar draw_cursor
    printf_ch_cursor_below ch s other on wider column last =
        let y = y_inside s.console_pos (omega arith) in
        let (x', y') = behind_screen (s.console_pos + 1) last in
        let small : (s.console_pos + 1) % 2 ^ 64 ≡ s.console_pos + 1 = omega arith in
        rw
          (
            gt→leb height (s.console_pos / width) y,
            ne→== ch 10 other,
            le→leb width (s.console_pos % width + 1) (omega arith),
            on,
            small,
            x',
            y',
            gt→leb width 1 wider,
          )
          refl
