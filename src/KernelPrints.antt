-- ===== src/KernelPrints.antt =====
-- Kernel/libraries/prints.c: the kernel's numbers and strings. A string is the list of its characters
-- without the final 0.
pub mod Numbers
pub mod Format
mod Same
mod Digits
mod Tests
use dog_os.Prelude.{
  ℕ, zero, suc, ◌+◌, ◌-◌, ◌/◌, ◌%◌, List, [], ◌∷◌, ltb, ◌==◌, if◌then◌else◌, set, get_or, length,
}
use dog_os.Prelude.Int.{ℤ, minus_one, add_one}

-- The loop of `log2`, on fuel.
unfoldable pub log2_loop : ℕ → ℕ → ℤ → ℤ
log2_loop zero number result = result
log2_loop (suc fuel) number result =
    let rest = log2_loop fuel (number / 2) (add_one result) in if number == 0 then result else rest

-- `log2`: 32 rounds are enough for a `uint32_t`.
unfoldable pub log2 : ℕ → ℤ
unfolding log2_loop
log2 number = if number == 0 then minus_one else log2_loop 33 number minus_one

-- The character of a digit in `uintToBase`.
abbrev pub base_char : ℕ → ℕ
base_char remainder = if ltb remainder 10 then remainder + 48 else remainder + 65 - 10

-- The first loop of `uintToBase`, on fuel: the characters in the order of the code, the last digit first.
unfoldable pub base_loop : ℕ → (base value : ℕ) → List ℕ
base_loop zero base value = []
base_loop (suc fuel) base value =
    let rest = base_loop fuel base (value / base) in
    base_char (value % base) ∷ (if value / base == 0 then [] else rest)

-- The second loop of `uintToBase`: the characters from both ends change places.
unfoldable pub turn_round : ℕ → (s : List ℕ) (p1 p2 : ℕ) → List ℕ
turn_round zero s p1 p2 = s
turn_round (suc fuel) s p1 p2 =
    let swapped = set (set s p1 (get_or s p2 0)) p2 (get_or s p1 0) in
    let rest = turn_round fuel swapped (p1 + 1) (p2 - 1) in if ltb p1 p2 then rest else s

-- `uintToBase`: the string in the buffer, whose length is the result. 64 rounds are enough for a
-- `uint64_t`.
unfoldable pub uint_to_base : (value base : ℕ) → List ℕ
unfolding base_loop turn_round
uint_to_base value base =
    let s = base_loop 64 base value in turn_round (length s) s 0 (length s - 1)
