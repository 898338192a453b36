-- ===== src/Libc/Tests.antt =====
-- libc.c on small strings and numbers, and its theorems at them.
use dog_os.Prelude.{◌≡◌, some, [], ◌∷◌, arith, length, ◌++◌, map, true, false, refl}
use dog_os.Prelude.Int.{pos, negsuc, minus_one, to_u32}
use dog_os.Libc.Numbers.{int_to_str}
use dog_os.Libc.Format.{int}
use dog_os.Libc.Input.{Input, Line, Scanned, scanf, read_text, outside, put_char, new_line}
use dog_os.Libc.Scan.{read_text-outside}
use dog_os.Libc.Typed.{number_format, scanf-int_to_str}

-- A line was read before.
abbrev used : Input
used = record {
  buff_size = pos 7;
  buffer = λ i. b'x';
  first_change = true;
  changed_user_name = false;
}

scanf-int_to_str_example :
    (l : Line) × (scanf number_format (int_to_str (negsuc 41) [] 10 ++ (b'\n' ∷ b'w' ∷ [])) used
      ≡ some l)
    × (l.scanned ≡ Scanned.int (to_u32 (negsuc 41)) ∷ [])
    × (l.result ≡ length (int_to_str (negsuc 41) [] 10))
    × (l.shown ≡ map put_char (int_to_str (negsuc 41) [] 10) ++ (new_line ∷ []))
    × (l.rest ≡ b'w' ∷ [])
scanf-int_to_str_example = scanf-int_to_str (negsuc 41) (b'w' ∷ []) used (omega arith)

-- A character, two backspaces and the end of the line.
read_text-outside_example :
    read_text (b'x' ∷ 8 ∷ 8 ∷ b'\n' ∷ []) (record used { buff_size = pos 0 }) ≡ outside minus_one 0
read_text-outside_example =
    read_text-outside (b'x' ∷ 8 ∷ []) b'\n' [] (record used { buff_size = pos 0 }) refl
      (
        (omega arith, omega arith, omega arith, omega arith),
        omega arith,
        λ e. absurd (omega arith),
        ((omega arith, omega arith, omega arith, omega arith), omega arith, λ e. omega arith, tt),
      )
      refl (omega arith)
