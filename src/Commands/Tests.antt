-- ===== src/Commands/Tests.antt =====
-- The commands of programs/commands.c on small inputs, and their theorems at them.
use dog_os.Prelude.{ℕ, ◌≡◌, refl, some, List, [], ◌∷◌}
use dog_os.Prelude.Int.{pos}
use dog_os.Libc.Numbers.{read_digits, str_to_int}
use dog_os.Commands.{
  print, kill_process, set_bgc, red, kill_warning, int_argument, kill_process_wrapper,
  change_bg_colour,
}

-- The arguments of a command on process 2, a priority among them.
abbrev two : List (List ℕ)
two = (b'k' ∷ []) ∷ (b'2' ∷ []) ∷ (b'1' ∷ []) ∷ []

two_run : int_argument two 1 ≡ pos 2
unfolding str_to_int read_digits
two_run = refl

kill_run :
    kill_process_wrapper 2 two (b'y' ∷ [])
    ≡ some (print kill_warning ∷ kill_process (pos 2) ∷ [], [])
unfolding kill_process_wrapper str_to_int read_digits
kill_run = refl

colour_run : change_bg_colour 2 ((b'c' ∷ []) ∷ (b'3' ∷ []) ∷ []) [] ≡ some (set_bgc red ∷ [], [])
unfolding change_bg_colour str_to_int read_digits
colour_run = refl
