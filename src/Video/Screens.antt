-- ===== src/Video/Screens.antt =====
-- The two halves of the screen of drivers/videoDriver.c: `initializeVideo`, the blinking cursor, and that
-- everything that is drawn on one half leaves the other.
use dog_os.Prelude.{
  ℕ, ◌+◌, ◌*◌, ◌/◌, ◌%◌, ◌^◌, ◌<◌, ◌≤◌, ◌≡◌, refl, sym, subst, ◌∙◌, Bool, true, false, ◌&&◌, ◌==◌,
  if◌then◌else◌, if-both, arith, List, [], ◌∷◌, leb,
}
use dog_os.Video.{
  Screen, Video, sub32, at_end, char_height, backspace, char_width, white, black, divide_screen,
  print_char, new_line, wrap, put_glyph, delete_char, scroll_down, clear_line, clear_screen,
  change_current_screen,
}
use dog_os.Video.Cursor.{Inside, print_char-Inside}

-- `initializeVideo`, on the width and the height of the video mode.
unfoldable pub initialize_video : (width height : ℕ) → Video → Video
unfolding divide_screen
initialize_video width height v =
    let sc1 : Screen = record {
      current_x = 0;
      current_y = 0;
      offset = 0;
      width = width / 2;
      height = height;
    } in
    let divided = divide_screen white (record v { width = width; height = height }) in
    record divided {
      screen = sc1;
      other = record sc1 { offset = width / 2 + 2 * char_width };
      first_in_use = true;
    }

-- `cursor`, at a number of ticks. (What it computes besides has no effect.)
unfoldable pub cursor : (get_char_map : ℕ → ℕ → ℕ) → (ticks : ℕ) → Video → Video
unfolding print_char
cursor get_char_map ticks v =
    let shown = print_char get_char_map b'_' white black false v in
    let hidden = print_char get_char_map b' ' white black false shown in
    if ticks % 9 == 0 then (if ticks % 18 == 0 then hidden else shown) else v

-- The other half is left as it is.
new_line-other : (v : Video) → (new_line v).other ≡ v.other
unfolding new_line scroll_down clear_line divide_screen
new_line-other v =
    if-both (λ (w : Video). w.other ≡ v.other)
      (leb (sub32 v.screen.height v.screen.current_y) char_height) _ _ refl refl

wrap-other : (v : Video) → (wrap v).other ≡ v.other
unfolding wrap
wrap-other v =
    if-both (λ (w : Video). w.other ≡ v.other) (at_end v.screen) _ _
      (new_line-other (record v { line_counter = v.line_counter + 1 })) refl

put_glyph-other :
    (map : ℕ → ℕ) (f b : ℕ) (next : Bool) (v : Video) → (put_glyph map f b next v).other ≡ v.other
unfolding put_glyph
put_glyph-other map f b true v = wrap-other v
put_glyph-other map f b false v = wrap-other v

delete_char-other : (map : ℕ → ℕ → ℕ) (v : Video) → (delete_char map v).other ≡ v.other
unfolding delete_char
delete_char-other map v =
    let s : Screen = v.screen in
    let above : Video = record v {
      screen = record s {
        current_y = sub32 s.current_y char_height;
        current_x = sub32 s.width (2 * char_width);
      };
      line_counter = sub32 v.line_counter 1;
    } in
    let there : Video = if s.current_x == 0 then above else v in
    let back : Video = record there {
      screen = record there.screen { current_x = sub32 there.screen.current_x char_width };
    } in
    let same : there.other ≡ v.other =
      if-both (λ (w : Video). w.other ≡ v.other) (s.current_x == 0) above v refl refl in
    let erased : Video = put_glyph (map b' ') black black false back in
    if-both (λ (w : Video). w.other ≡ v.other)
      (leb s.current_x (v.user_length * char_width) && (v.line_counter == 0)) v
      (if (s.current_x == 0) && (s.current_y == 0) then v else erased) refl
      (if-both (λ (w : Video). w.other ≡ v.other) ((s.current_x == 0) && (s.current_y == 0)) v
        erased refl (put_glyph-other (map b' ') black black false back ∙ same))

print_char-other :
    (map : ℕ → ℕ → ℕ) (c f b : ℕ) (next : Bool) (v : Video)
    → (print_char map c f b next v).other ≡ v.other
unfolding print_char
print_char-other map c f b next v =
    if-both (λ (w : Video). w.other ≡ v.other) (c == b'\n') _ _
      (new_line-other (record (wrap v) { line_counter = 0 }) ∙ wrap-other v)
      (if-both (λ (w : Video). w.other ≡ v.other) (c == backspace) _ _
        (delete_char-other map (wrap v) ∙ wrap-other v) (put_glyph-other (map c) f b next v))

-- What the kernel does with the screen.
pub data Act : Type 0 where
  prints : (c font_colour bg_colour : ℕ) (next : Bool) → Act
  blinks : (ticks : ℕ) → Act
  clears changes : Act

unfoldable pub act : (get_char_map : ℕ → ℕ → ℕ) → Act → Video → Video
unfolding print_char cursor clear_screen change_current_screen
act map (prints c f b next) v = print_char map c f b next v
act map (blinks ticks) v = cursor map ticks v
act map clears v = clear_screen v
act map changes v = change_current_screen map v

unfoldable pub act_all : (get_char_map : ℕ → ℕ → ℕ) → List Act → Video → Video
unfolding act
act_all map [] v = v
act_all map (a ∷ acts) v = act_all map acts (act map a v)

-- Both cursors stand on cells of their halves.
abbrev pub BothInside : Video → Type 0
BothInside v = Inside v.screen × Inside v.other

print_char-BothInside :
    (map : ℕ → ℕ → ℕ) (c f b : ℕ) (next : Bool) (v : Video)
    → BothInside v
    → BothInside (print_char map c f b next v)
print_char-BothInside map c f b next v (here, there) = (
  print_char-Inside map c f b next v here,
  subst Inside (sym (print_char-other map c f b next v)) there,
)

cursor-BothInside :
    (map : ℕ → ℕ → ℕ) (ticks : ℕ) (v : Video) → BothInside v → BothInside (cursor map ticks v)
unfolding cursor
cursor-BothInside map ticks v h =
    let shown = print_char map b'_' white black false v in
    let h' = print_char-BothInside map b'_' white black false v h in
    if-both BothInside (ticks % 9 == 0) _ v
      (if-both BothInside (ticks % 18 == 0) (print_char map b' ' white black false shown) shown
        (print_char-BothInside map b' ' white black false shown h') h')
      h

clear_screen-BothInside : (v : Video) → BothInside v → BothInside (clear_screen v)
unfolding clear_screen
clear_screen-BothInside v (here, there) =
    let wide = here.wide in
    let tall = here.tall in
    (
      record {
        column = (refl, omega arith);
        row = (refl, omega arith);
        wide = here.wide;
        tall = here.tall;
      },
      there,
    )

change_current_screen-BothInside :
    (map : ℕ → ℕ → ℕ) (v : Video) → BothInside v → BothInside (change_current_screen map v)
unfolding change_current_screen print_char
change_current_screen-BothInside map v (here, there) =
    let v₀ : Video = record v { line_counter = 0 } in
    let (stays, same) = print_char-BothInside map b' ' black black false v₀ (here, there) in
    (same, stays)

act_all-BothInside :
    (map : ℕ → ℕ → ℕ) (acts : List Act) (v : Video) → BothInside v → BothInside (act_all map acts v)
unfolding act_all act
act_all-BothInside map [] v h = h
act_all-BothInside map (prints c f b next ∷ acts) v h =
    act_all-BothInside map acts _ (print_char-BothInside map c f b next v h)
act_all-BothInside map (blinks ticks ∷ acts) v h =
    act_all-BothInside map acts _ (cursor-BothInside map ticks v h)
act_all-BothInside map (clears ∷ acts) v h =
    act_all-BothInside map acts _ (clear_screen-BothInside v h)
act_all-BothInside map (changes ∷ acts) v h =
    act_all-BothInside map acts _ (change_current_screen-BothInside map v h)

initialize_video-BothInside :
    (width height : ℕ) (v : Video)
    → (width % 16 ≡ 0) × (64 ≤ width) × (width < 2 ^ 16)
    → (height % 16 ≡ 0) × (32 ≤ height) × (height < 2 ^ 16)
    → BothInside (initialize_video width height v)
unfolding initialize_video divide_screen
initialize_video-BothInside width height v (even, wide, narrow) (rows, tall, low) =
    let column : width / 2 % 8 ≡ 0 = omega arith in
    (
      record {
        column = (refl, omega arith);
        row = (refl, omega arith);
        wide = (column, omega arith, omega arith);
        tall = (rows, tall, omega arith);
      },
      record {
        column = (refl, omega arith);
        row = (refl, omega arith);
        wide = (column, omega arith, omega arith);
        tall = (rows, tall, omega arith);
      },
    )

-- On a screen of whole pairs of columns and whole rows of cells, from `initializeVideo` on, whatever is
-- printed, and however often the cursor blinks, the screen is cleared and the halves change, one after
-- the other: both cursors stand on cells of their halves.
pub act_all-initialize_video :
    (map : ℕ → ℕ → ℕ) (acts : List Act) (width height : ℕ) (v : Video)
    → (width % 16 ≡ 0) × (64 ≤ width) × (width < 2 ^ 16)
    → (height % 16 ≡ 0) × (32 ≤ height) × (height < 2 ^ 16)
    → BothInside (act_all map acts (initialize_video width height v))
act_all-initialize_video map acts width height v hw hh =
    act_all-BothInside map acts (initialize_video width height v)
      (initialize_video-BothInside width height v hw hh)
