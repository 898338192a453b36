-- ===== src/Console/Tests.antt =====
-- The end of a row of naiveConsole.c, in the middle of one.
use dog_os.Prelude.{◌≡◌, refl}
use dog_os.Console.{Console, nc_newline, newline_loop, nc_print_char}

abbrev printed : Console
printed = record { current_video = 166; video = λ a. 7 }

newline_run : (nc_newline printed).current_video ≡ 320
unfolding nc_newline newline_loop nc_print_char
newline_run = refl
