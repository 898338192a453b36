-- ===== src/Video/Tests.antt =====
-- The screen of videoDriver.c: a character at the end of the last line.
use dog_os.Prelude.{◌≡◌, refl, true, [], arith, ◌∷◌}
use dog_os.Video.{
  Screen, Video, wrap, new_line, scroll_down, clear_line, divide_screen, white, black,
}
use dog_os.Video.Cursor.{Inside}
use dog_os.Video.Screens.{
  prints, blinks, changes, clears, act_all, BothInside, initialize_video, act_all-initialize_video,
}
use dog_os.Video.Pixels.{colour_at, put_pixel, put_pixel-colour_at}

abbrev half : Screen
half = record { current_x = 16; current_y = 16; offset = 0; width = 32; height = 32 }

abbrev video : Video
video = record {
  screen = half;
  other = record half { offset = 48 };
  first_in_use = true;
  line_counter = 0;
  user_length = 0;
  width = 64;
  height = 32;
  drawn = [];
}

half-Inside : Inside half
half-Inside = record {
  column = (refl, omega arith);
  row = (refl, omega arith);
  wide = (refl, omega arith, omega arith);
  tall = (refl, omega arith, omega arith);
}

print_char_run : ((wrap video).screen.current_x ≡ 0) × ((wrap video).screen.current_y ≡ 0)
unfolding wrap new_line scroll_down clear_line divide_screen
print_char_run = (refl, refl)

-- On a screen of 1024 by 768 pixels, a character, a blink, and the other half, cleared.
act_all-initialize_video_example : BothInside (
    act_all
      (λ c i. c)
      (prints b'a' white black true ∷ blinks 9 ∷ changes ∷ clears ∷ [])
      (initialize_video 1024 768 video))
act_all-initialize_video_example =
    act_all-initialize_video (λ c i. c)
      (prints b'a' white black true ∷ blinks 9 ∷ changes ∷ clears ∷ []) 1024 768 video
      (refl, omega arith, omega arith) (refl, omega arith, omega arith)

put_pixel-colour_at_example :
    colour_at 0xFD000000 1024 5 7 (put_pixel 0xFD000000 1024 5 7 0xFF0001 (λ a. 0)) ≡ 0xFF0001
put_pixel-colour_at_example =
    put_pixel-colour_at 0xFD000000 1024 768 5 7 5 7 0xFF0001 (λ a. 0) (omega arith) (omega arith)
      (omega arith, omega arith) (omega arith, omega arith) (omega arith)
