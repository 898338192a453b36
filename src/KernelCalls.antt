-- ===== src/KernelCalls.antt =====
-- Kernel/libraries/syscalls.c: the system calls for the clock, the memory, and reading and writing. The
-- register of the clock, a byte of memory and the calls of other parts are parameters.
mod Dump
mod Tests
use dog_os.Prelude.{
  ℕ, zero, suc, ◌+◌, ◌*◌, ◌/◌, ◌%◌, ◌^◌, Bool, true, false, ◌&&◌, Option, none, some, List, [], ◌∷◌,
  ltb, leb, ◌==◌, if◌then◌else◌, put,
}
use dog_os.Prelude.Int.{ℤ, pos, negsuc}

-- `getCurrentTime`, of what the register of the clock holds.
abbrev pub get_current_time : ℕ → ℕ
get_current_time x = (x / 16 * 10 + x % 16) % 256

-- `getMem`, on fuel: the bytes that are read and the buffer are in the same memory. The counter has 8
-- bits, the number of bytes has 64.
unfoldable pub get_mem_loop : ℕ → (direc i bytes buffer : ℕ) → (ℕ → ℕ) → Option (ℕ → ℕ)
get_mem_loop zero direc i bytes buffer m = none
get_mem_loop (suc fuel) direc i bytes buffer m = elim (ltb i bytes) [
  | true ↦
      get_mem_loop fuel direc ((i + 1) % 256) bytes buffer
        (put m ((buffer + i) % 2 ^ 64) (m ((direc + i) % 2 ^ 64) % 256))
  | false ↦ some m
]

unfoldable pub get_mem : ℕ → (direc buffer bytes : ℕ) → (ℕ → ℕ) → Option (ℕ → ℕ)
unfolding get_mem_loop
get_mem fuel direc buffer bytes m = get_mem_loop fuel direc 0 bytes buffer m

pub data Output : Type 0 where
  set_username_len : ℕ → Output
  print_char : (c font_colour bg_colour : ℕ) → Output
  pipe_write : ℤ → List ℕ → Output

-- The loop of `sysWrite` from a place of the string on, where `len` characters may be printed.
unfoldable pub print_loop : (len bg_colour ft_colour : ℕ) → List ℕ → List Output
print_loop zero bg_colour ft_colour str = []
print_loop (suc len) bg_colour ft_colour [] = []
print_loop (suc len) bg_colour ft_colour (c ∷ str) =
    print_char c ft_colour bg_colour ∷ print_loop len bg_colour ft_colour str

abbrev pub above_one : ℤ → Bool
above_one (pos n) = ltb 1 n
above_one (negsuc n) = false

abbrev pub is_one : ℤ → Bool
is_one (pos n) = n == 1
is_one (negsuc n) = false

abbrev pub is_zero : ℤ → Bool
is_zero (pos n) = n == 0
is_zero (negsuc n) = false

-- `sysWrite` of a string that is not NULL. The length is cut to 8 bits, and a pipe is given all characters
-- up to the final 0.
unfoldable pub sys_write :
    (output_fd : ℤ) → List ℕ → (len bg_colour ft_colour : ℕ) → ℤ → List Output
unfolding print_loop
sys_write output_fd str len bg_colour ft_colour usr_len =
    let length = len % 256 in
    let shown =
      if is_one output_fd
      then print_loop length bg_colour ft_colour str
      else pipe_write output_fd str ∷ [] in
    if length == 0
    then []
    else (if above_one usr_len then set_username_len length ∷ shown else shown)

-- `sysRead`: what is read is the keyboard, a pipe, or -1.
pub data Source : Type 0 where
  keyboard nothing : Source
  pipe : ℤ → Source

unfoldable pub sys_read : (input_fd : ℤ) → (is_foreground : Bool) → Source
sys_read input_fd is_foreground =
    if is_zero input_fd then (if is_foreground then keyboard else nothing) else pipe input_fd
