-- ===== src/Shell/Tests.antt =====
-- Lines of input, and the theorems about them.
use dog_os.Prelude.{ℕ, ◌≡◌, some, List, [], ◌∷◌, arith, ◌++◌, map, true, false, none, refl}
use dog_os.Prelude.Int.{pos}
use dog_os.Libc.Strings.{strcmp}
use dog_os.Libc.Input.{Input, Line, put_char, new_line}
use dog_os.Shell.{new_process, get_command_idx}
use dog_os.Shell.Execute.{Results, shell_round}
use dog_os.Shell.Rounds.{shell_round-new_process}

abbrev cat : List ℕ
cat = b'c' ∷ b'a' ∷ b't' ∷ []

abbrev wc : List ℕ
wc = b'w' ∷ b'c' ∷ []

-- A buffer of zeros.
abbrev empty : Input
empty = record {
  buff_size = pos 7;
  buffer = λ i. 0;
  first_change = true;
  changed_user_name = false;
}

abbrev no_pipes : Results
no_pipes = record { pipe_id = 70; pipe = pos 2; fails₁ = false; fails₂ = false }

-- `cax`, a backspace, `t a`, and the end of the line.
abbrev corrected : List ℕ
corrected = b'c' ∷ b'a' ∷ b'x' ∷ 8 ∷ b't' ∷ b' ' ∷ b'a' ∷ []

shell_round-new_process_example :
    (l : Line) × (shell_round (wc ∷ cat ∷ []) (corrected ++ (b'\n' ∷ b'w' ∷ [])) empty no_pipes
      ≡ some (new_process 1 (cat ∷ (b'a' ∷ []) ∷ []) true none ∷ [], l))
    × (l.shown ≡ map put_char corrected ++ (new_line ∷ []))
    × (l.rest ≡ b'w' ∷ [])
unfolding strcmp get_command_idx
shell_round-new_process_example =
    shell_round-new_process (wc ∷ cat ∷ []) corrected (b'w' ∷ []) cat ((b'a' ∷ []) ∷ []) 1 empty
      no_pipes
      (
        (omega arith, omega arith, omega arith, omega arith),
        omega arith,
        (λ e. omega arith),
        (
          (omega arith, omega arith, omega arith, omega arith),
          omega arith,
          (λ e. omega arith),
          (
            (omega arith, omega arith, omega arith, omega arith),
            omega arith,
            (λ e. omega arith),
            (
              (omega arith, omega arith, omega arith, omega arith),
              omega arith,
              (λ e. omega arith),
              (
                (omega arith, omega arith, omega arith, omega arith),
                omega arith,
                (λ e. omega arith),
                (
                  (omega arith, omega arith, omega arith, omega arith),
                  omega arith,
                  (λ e. omega arith),
                  (
                    (omega arith, omega arith, omega arith, omega arith),
                    omega arith,
                    (λ e. omega arith),
                    tt,
                  ),
                ),
              ),
            ),
          ),
        ),
      )
      refl (omega arith) (refl, (refl, tt)) refl refl
