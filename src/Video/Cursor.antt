-- ===== src/Video/Cursor.antt =====
-- The cursor of drivers/videoDriver.c stays in its half of the screen.
use dog_os.Prelude.{
  ℕ, ◌+◌, ◌*◌, ◌%◌, ◌^◌, ◌≤◌, ◌<◌, ◌≡◌, ◌≢◌, ◌⊎◌, inl, inr, refl, sym, subst, Bool, true, false,
  ◌&&◌, arith, leb, ◌==◌, if◌then◌else◌, Bool-cases, if-both,
}
use dog_os.Video.{
  Screen, Video, new_line, wrap, put_glyph, delete_char, print_char, at_end, scroll_down,
  clear_line, divide_screen, sub32, char_height, char_width, black, backspace,
}

-- The cursor stands on a cell of 8 by 16 pixels of the half.
pub record Inside (s : Screen) : Type 0 where
  pub column : (s.current_x % 8 ≡ 0) × (s.current_x + 8 < s.width)
  pub row : (s.current_y % 16 ≡ 0) × (s.current_y + 16 ≤ s.height)
  pub wide : (s.width % 8 ≡ 0) × (32 ≤ s.width) × (s.offset + s.width < 2 ^ 31)
  pub tall : (s.height % 16 ≡ 0) × (32 ≤ s.height) × (s.height < 2 ^ 31)

-- The screen with the cursor at another place.
abbrev at : ℕ → ℕ → Screen → Screen
at x y s = record s { current_x = x; current_y = y }

new_line-cases :
    (v : Video)
    → ((leb (sub32 v.screen.height v.screen.current_y) 16 ≡ true)
        × ((new_line v).screen ≡ at 0 (sub32 v.screen.current_y 16) v.screen))
      ⊎ ((leb (sub32 v.screen.height v.screen.current_y) 16 ≡ false)
          × ((new_line v).screen ≡ at 0 ((v.screen.current_y + 16) % 2 ^ 32) v.screen))
unfolding new_line scroll_down clear_line divide_screen
new_line-cases v = elim (Bool-cases (leb (sub32 v.screen.height v.screen.current_y) 16)) [
  | inl e ↦ inl (e, rw (e, new_line) refl)
  | inr e ↦ inr (e, rw (e, new_line) refl)
]

at-Inside :
    (x y : ℕ) (s : Screen)
    → Inside s
    → (x % 8 ≡ 0) × (x + 8 < s.width)
    → (y % 16 ≡ 0) × (y + 16 ≤ s.height)
    → Inside (at x y s)
at-Inside x y s i hx hy = record { column = hx; row = hy; wide = i.wide; tall = i.tall }

new_line-Inside : (v : Video) → Inside v.screen → Inside (new_line v).screen
new_line-Inside v i =
    let row = i.row in
    let tall = i.tall in
    let wide = i.wide in
    elim (new_line-cases v) [
      | inl (e, s) ↦
          let last : sub32 v.screen.height v.screen.current_y ≤ 16 = ground (arith, e) in
          rw s (
            at-Inside 0 (sub32 v.screen.current_y 16) v.screen i (refl, omega arith)
              (omega arith, omega arith))
      | inr (e, s) ↦
          let more : 16 < sub32 v.screen.height v.screen.current_y = ground (arith, e) in
          rw s (
            at-Inside 0 ((v.screen.current_y + 16) % 2 ^ 32) v.screen i (refl, omega arith)
              (omega arith, omega arith))
    ]

-- There is room for one more character in the line.
abbrev Room : Screen → Type 0
Room s = Inside s × (s.current_x + 16 < s.width)

wrap-cases : (v : Video) → Inside v.screen → Room (wrap v).screen
unfolding wrap
wrap-cases v i = elim (Bool-cases (at_end v.screen)) [
  | inl e ↦
      let moved : Video = record v { line_counter = v.line_counter + 1 } in
      let there = new_line-Inside moved i in rw (e, wrap) (there, omega (arith, there.wide))
  | inr e ↦
      let column = i.column in
      let wide = i.wide in
      let short : sub32 ((v.screen.current_x + v.screen.offset) % 2 ^ 32 + 16) v.screen.offset
          < v.screen.width =
        ground (arith, e) in
      rw (e, wrap) (i, omega arith)
]

put_glyph-Inside :
    (map : ℕ → ℕ) (font_colour bg_colour : ℕ) (next : Bool) (v : Video)
    → Inside v.screen
    → Inside (put_glyph map font_colour bg_colour next v).screen
unfolding put_glyph
put_glyph-Inside map font_colour bg_colour false v i = (wrap-cases v i).0
put_glyph-Inside map font_colour bg_colour true v i =
    let (there, room) = wrap-cases v i in
    let column = there.column in
    let wide = there.wide in
    at-Inside (((wrap v).screen.current_x + 8) % 2 ^ 32) (wrap v).screen.current_y (wrap v).screen
      there (omega arith, omega arith) there.row

-- `deleteChar` up to what it draws.
abbrev stepped_back : Video → Video
stepped_back v =
    let s = v.screen in
    let above = record v {
      screen = record s {
        current_y = sub32 s.current_y char_height;
        current_x = sub32 s.width (2 * char_width);
      };
      line_counter = sub32 v.line_counter 1;
    } in
    let there = if s.current_x == 0 then above else v in
    record there {
      screen = record there.screen { current_x = sub32 there.screen.current_x char_width };
    }

stepped_back-Inside :
    (v : Video)
    → Inside v.screen
    → ((v.screen.current_x == 0) && (v.screen.current_y == 0)) ≡ false
    → Inside (stepped_back v).screen
stepped_back-Inside v i e =
    let column = i.column in
    let row = i.row in
    let wide = i.wide in
    let tall = i.tall in
    elim (Bool-cases (v.screen.current_x == 0)) [
      | inl z ↦
          let up : v.screen.current_y ≢ 0 = ground (arith, e, z) in
          let some_row : 0 < v.screen.current_y = omega arith in
          rw z (
            at-Inside (sub32 (sub32 v.screen.width 16) 8) (sub32 v.screen.current_y 16) v.screen i
              (omega arith, omega arith) (omega arith, omega arith))
      | inr z ↦
          let some_column : v.screen.current_x ≢ 0 = ground (arith, z) in
          rw z (
            at-Inside (sub32 v.screen.current_x 8) v.screen.current_y v.screen i
              (omega arith, omega arith) row)
    ]

delete_char-Inside :
    (get_char_map : ℕ → ℕ → ℕ) (v : Video)
    → Inside v.screen
    → Inside (delete_char get_char_map v).screen
unfolding delete_char
delete_char-Inside get_char_map v i =
    let s : Screen = v.screen in
    if-both (λ w. Inside w.screen) (leb s.current_x (v.user_length * 8) && (v.line_counter == 0)) v
      (if (s.current_x == 0) && (s.current_y == 0)
        then v
        else put_glyph (get_char_map b' ') black black false (stepped_back v))
      i
      (elim (Bool-cases ((s.current_x == 0) && (s.current_y == 0))) [
        | inl e ↦
            subst
              (λ t.
                Inside
                  (if t
                    then v
                    else put_glyph (get_char_map b' ') black black false (stepped_back v)).screen)
              (sym e) i
        | inr e ↦
            subst
              (λ t.
                Inside
                  (if t
                    then v
                    else put_glyph (get_char_map b' ') black black false (stepped_back v)).screen)
              (sym e)
              (put_glyph-Inside (get_char_map b' ') black black false (stepped_back v)
                (stepped_back-Inside v i e))
      ])

-- Whatever is printed, the cursor stays on a cell of its half of the screen.
pub print_char-Inside :
    (get_char_map : ℕ → ℕ → ℕ) (c font_colour bg_colour : ℕ) (next : Bool) (v : Video)
    → Inside v.screen
    → Inside (print_char get_char_map c font_colour bg_colour next v).screen
unfolding print_char
print_char-Inside get_char_map c font_colour bg_colour next v i =
    let there = (wrap-cases v i).0 in
    if-both (λ w. Inside w.screen) (c == b'\n') (new_line (record (wrap v) { line_counter = 0 }))
      (if c == backspace
        then delete_char get_char_map (wrap v)
        else put_glyph (get_char_map c) font_colour bg_colour next v)
      (new_line-Inside (record (wrap v) { line_counter = 0 }) there)
      (if-both (λ w. Inside w.screen) (c == backspace) (delete_char get_char_map (wrap v))
        (put_glyph (get_char_map c) font_colour bg_colour next v)
        (delete_char-Inside get_char_map (wrap v) there)
        (put_glyph-Inside (get_char_map c) font_colour bg_colour next v i))
