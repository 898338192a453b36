-- ===== src/Video.antt =====
-- Kernel/drivers/videoDriver.c: the two halves of the screen, their cursors, and what is drawn, as a list
-- of writes to pixels and copies of rows in their order. The glyphs of fonts.c are a parameter.
mod Cursor
pub mod Screens
pub mod Pixels
mod Tests
use dog_os.Prelude.{
  ℕ, zero, suc, ◌+◌, ◌-◌, ◌*◌, ◌/◌, ◌%◌, ◌^◌, Bool, true, false, ◌&&◌, List, [], ◌∷◌, ◌++◌, ltb,
  leb, ◌==◌, if◌then◌else◌,
}

abbrev pub char_width : ℕ
char_width = 8

abbrev pub char_height : ℕ
char_height = 16

abbrev pub backspace : ℕ
backspace = 8

abbrev pub black : ℕ
black = 0

abbrev pub white : ℕ
white = 0xFFFFFF

-- Subtraction of a `uint32_t`.
abbrev pub sub32 : ℕ → ℕ → ℕ
sub32 a b = (a + 2 ^ 32 - b) % 2 ^ 32

-- A half of the screen.
pub record Screen : Type 0 where
  pub current_x : ℕ
  pub current_y : ℕ
  pub offset : ℕ
  pub width : ℕ
  pub height : ℕ

-- A write to a pixel, and a copy of `bytes` bytes of row `row + 1` to row `row`, from the pixel `x` on.
pub data Draw : Type 0 where
  pixel : (x y colour : ℕ) → Draw
  copy_row : (row x bytes : ℕ) → Draw

-- The static variables: the half in use and the other one, whether the first is in use, and what was
-- drawn.
pub record Video : Type 0 where
  pub screen : Screen
  pub other : Screen
  pub first_in_use : Bool
  pub line_counter : ℕ
  pub user_length : ℕ
  pub width : ℕ
  pub height : ℕ
  pub drawn : List Draw

abbrev pub draw : List Draw → Video → Video
draw ds v = record v { drawn = v.drawn ++ ds }

-- `f` of the `n` numbers from `a` on, in a row.
abbrev pub each_from : ℕ → ℕ → (ℕ → List Draw) → List Draw
each_from zero a f = []
each_from (suc n) a f = f a ++ each_from n (a + 1) f

-- `divideScreen`
unfoldable pub divide_screen : ℕ → Video → Video
divide_screen colour v =
    draw
      (each_from (2 * char_width + 1) (v.width / 2 - char_width)
        (λ x. each_from v.height 0 (λ y. pixel x y colour ∷ [])))
      v

-- `clearLine`
unfoldable pub clear_line : Video → Video
clear_line v =
    let s = v.screen in
    draw
      (each_from (s.width - 2 * char_width + 1) 0 (λ x.
        each_from (s.height + 1 - s.current_y) s.current_y
          (λ y. pixel (x + s.offset) y black ∷ [])))
      v

-- `scrollDown`
unfoldable pub scroll_down : Video → Video
unfolding clear_line
scroll_down v =
    let first =
      each_from (char_height * 2) 0
        (λ i. each_from v.height 0 (λ j. copy_row j 0 (v.width * 3 / 2) ∷ [])) in
    let second = each_from (char_height * 2) 0 (λ i. each_from v.height 0 (λ j.
      copy_row j (v.width / 2 + 2 * char_width) (v.width * 3 / 2 - 4 * char_width * 3) ∷ [])) in
    clear_line (draw (if v.first_in_use then first else second) v)

-- `newLine`
unfoldable pub new_line : Video → Video
unfolding scroll_down divide_screen
new_line v =
    let s = v.screen in
    let up = divide_screen white (
      scroll_down (record v { screen = record s { current_y = sub32 s.current_y char_height } })) in
    let down = record v {
      screen = record s { current_y = (s.current_y + char_height) % 2 ^ 32 };
    } in
    let moved = if leb (sub32 s.height s.current_y) char_height then up else down in
    record moved { screen = record moved.screen { current_x = 0 } }

-- The row `i` of a glyph.
abbrev pub glyph_row : (map : ℕ → ℕ) (x y i font_colour bg_colour : ℕ) → List Draw
glyph_row map x y i font_colour bg_colour = each_from char_width 0 (λ j.
    pixel (x + j) y (if map i / 2 ^ (char_width - j - 1) % 2 == 0 then bg_colour else font_colour)
    ∷ [])

-- What `printChar` draws from `x` and `y` on: the first row starts at `x`, the others where the cursor is.
abbrev pub glyph : (map : ℕ → ℕ) (x y font_colour bg_colour : ℕ) → Screen → List Draw
glyph map x y font_colour bg_colour s =
    glyph_row map x y 0 font_colour bg_colour
    ++ each_from (char_height - 1) 1
        (λ i. glyph_row map (s.current_x + s.offset) (y + i) i font_colour bg_colour)

-- The end of a line is reached.
abbrev pub at_end : Screen → Bool
at_end s = leb s.width (sub32 ((s.current_x + s.offset) % 2 ^ 32 + 2 * char_width) s.offset)

-- `printChar` up to the tests of the character.
unfoldable pub wrap : Video → Video
unfolding new_line
wrap v = if at_end v.screen then new_line (record v { line_counter = v.line_counter + 1 }) else v

-- `printChar` of a character that is drawn.
unfoldable pub put_glyph : (map : ℕ → ℕ) (font_colour bg_colour : ℕ) (next : Bool) → Video → Video
unfolding wrap
put_glyph map font_colour bg_colour next v =
    let s = v.screen in
    let x = s.current_x + s.offset in
    let y = if at_end s then s.current_y + char_height else s.current_y in
    let w = wrap v in
    let shown = draw (glyph map x y font_colour bg_colour w.screen) w in
    if next
    then record shown {
      screen = record shown.screen { current_x = (shown.screen.current_x + char_width) % 2 ^ 32 };
    }
    else shown

-- `deleteChar`
unfoldable pub delete_char : (get_char_map : ℕ → ℕ → ℕ) → Video → Video
unfolding put_glyph
delete_char get_char_map v =
    let s = v.screen in
    let above = record v {
      screen = record s {
        current_y = sub32 s.current_y char_height;
        current_x = sub32 s.width (2 * char_width);
      };
      line_counter = sub32 v.line_counter 1;
    } in
    let there = if s.current_x == 0 then above else v in
    let back = record there {
      screen = record there.screen { current_x = sub32 there.screen.current_x char_width };
    } in
    if leb s.current_x (v.user_length * char_width) && (v.line_counter == 0)
    then v
    else if (s.current_x == 0) && (s.current_y == 0)
    then v
    else put_glyph (get_char_map b' ') black black false back

-- `printChar`
unfoldable pub print_char :
    (get_char_map : ℕ → ℕ → ℕ) (c font_colour bg_colour : ℕ) (next : Bool) → Video → Video
unfolding wrap new_line delete_char put_glyph
print_char get_char_map c font_colour bg_colour next v =
    if c == b'\n'
    then new_line (record (wrap v) { line_counter = 0 })
    else if c == backspace
    then delete_char get_char_map (wrap v)
    else put_glyph (get_char_map c) font_colour bg_colour next v

-- `clearScreen`
unfoldable pub clear_screen : Video → Video
clear_screen v =
    let s = v.screen in
    let cleared =
      draw
        (each_from s.height 0
          (λ i. each_from (s.width - 2 * char_width) 0 (λ j. pixel (j + s.offset) i black ∷ [])))
        v in
    record cleared { screen = record s { current_x = 0; current_y = 0 } }

-- `changeCurrentScreen`, with `stopCursor` before the halves change.
unfoldable pub change_current_screen : (get_char_map : ℕ → ℕ → ℕ) → Video → Video
unfolding put_glyph
change_current_screen get_char_map v =
    let stopped = put_glyph (get_char_map b' ') black black false (record v { line_counter = 0 }) in
    record stopped {
      screen = stopped.other;
      other = stopped.screen;
      first_in_use = if stopped.first_in_use then false else true;
    }
