-- ===== src/Console.antt =====
-- Kernel/naiveConsole.c: text memory, which the loader of modules prints to before the screen is set up.
-- A string is the list of its characters without the final 0.
mod Rows
mod Tests
use dog_os.Prelude.{
  ℕ, zero, suc, ◌+◌, ◌-◌, ◌*◌, ◌%◌, List, [], ◌∷◌, ◌==◌, if◌then◌else◌, put, length,
}
use dog_os.KernelPrints.{base_loop, turn_round}

abbrev pub width : ℕ
width = 80

abbrev pub height : ℕ
height = 25

-- `currentVideo`, as the number of bytes from `video` on, and the bytes from there on.
pub record Console : Type 0 where
  pub current_video : ℕ
  pub video : ℕ → ℕ

-- `ncPrintChar`
unfoldable pub nc_print_char : ℕ → Console → Console
nc_print_char character t = record {
  current_video = t.current_video + 2;
  video = put t.video t.current_video character;
}

-- `ncPrint`
unfoldable pub nc_print : List ℕ → Console → Console
unfolding nc_print_char
nc_print [] t = t
nc_print (c ∷ string) t = nc_print string (nc_print_char c t)

-- The loop of `ncNewline`, on fuel.
unfoldable pub newline_loop : ℕ → Console → Console
unfolding nc_print_char
newline_loop zero t = t
newline_loop (suc fuel) t =
    let t' = nc_print_char b' ' t in
    let rest = newline_loop fuel t' in if t'.current_video % (width * 2) == 0 then t' else rest

-- `ncNewline`: a row has room for 80 rounds.
unfoldable pub nc_newline : Console → Console
unfolding newline_loop
nc_newline = newline_loop width

-- `uintToBase`: the string in the buffer. 64 rounds are enough for a `uint64_t`.
unfoldable pub uint_to_base : (value base : ℕ) → List ℕ
unfolding base_loop turn_round
uint_to_base value base =
    let s = base_loop 64 base value in turn_round (length s) s 0 (length s - 1)

-- `ncPrintBase`, and its calls `ncPrintDec`, `ncPrintHex` and `ncPrintBin`
unfoldable pub nc_print_base : (value base : ℕ) → Console → Console
unfolding uint_to_base nc_print
nc_print_base value base = nc_print (uint_to_base value base)

unfoldable pub nc_print_dec : ℕ → Console → Console
unfolding nc_print_base
nc_print_dec value = nc_print_base value 10

unfoldable pub nc_print_hex : ℕ → Console → Console
unfolding nc_print_base
nc_print_hex value = nc_print_base value 16

unfoldable pub nc_print_bin : ℕ → Console → Console
unfolding nc_print_base
nc_print_bin value = nc_print_base value 2

-- The loop of `ncClear`, with `i` rounds behind it.
unfoldable pub clear_loop : ℕ → (i : ℕ) → (ℕ → ℕ) → ℕ → ℕ
clear_loop zero i video = video
clear_loop (suc n) i video = clear_loop n (i + 1) (put video (i * 2) b' ')

-- `ncClear`
unfoldable pub nc_clear : Console → Console
unfolding clear_loop
nc_clear t = record { current_video = 0; video = clear_loop (height * width) 0 t.video }
