-- ===== src/Prelude/Int.antt =====
-- C's `int` results as integers over the native numbers.
use Prim.Native.Nat.{ℕ, zero, suc, ◌+◌, ◌-◌, ◌^◌}
use dog_os.Prelude.{Bool, true, false, ltb, if◌then◌else◌}

-- `negsuc n` is -(n + 1).
pub data ℤ : Type 0 where
  pos : ℕ → ℤ
  negsuc : ℕ → ℤ

-- The result -1, by which most of the kernel's functions report failure.
abbrev pub minus_one : ℤ
minus_one = negsuc 0

-- The conversion of an `int` to `uint64_t`.
abbrev pub to_u64 : ℤ → ℕ
to_u64 (pos n) = n
to_u64 (negsuc n) = 2 ^ 64 - n - 1

-- The conversion of a `uint32_t` to `int`.
abbrev pub of_u32 : ℕ → ℤ
of_u32 n = if ltb n (2 ^ 31) then pos n else negsuc (2 ^ 32 - n - 1)

-- The conversion of an `int` to `uint32_t`.
abbrev pub to_u32 : ℤ → ℕ
to_u32 (pos n) = n
to_u32 (negsuc n) = 2 ^ 32 - n - 1

-- The value of a `char` with those eight bits.
abbrev pub of_char : ℕ → ℤ
of_char c = if ltb c 128 then pos c else negsuc (255 - c)

abbrev pub is_minus_one : ℤ → Bool
is_minus_one (negsuc zero) = true
is_minus_one _ = false

abbrev pub is_pos : ℤ → Bool
is_pos (pos (suc n)) = true
is_pos _ = false

abbrev pub add_one : ℤ → ℤ
add_one (pos n) = pos (n + 1)
add_one (negsuc zero) = pos 0
add_one (negsuc (suc n)) = negsuc n

abbrev pub sub_one : ℤ → ℤ
sub_one (pos zero) = negsuc 0
sub_one (pos (suc n)) = pos n
sub_one (negsuc n) = negsuc (n + 1)
