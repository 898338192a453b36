-- ===== src/Memory/Tests.antt =====
-- memset and memcpy of lib.c: the theorems on small arrays.
use dog_os.Prelude.{ℕ, ◌≡◌, refl, inr, arith, ◌%◌}
use dog_os.Memory.{memcpy, copy_words, copy_bytes}
use dog_os.Memory.Copies.{copied, memcpy-copied}

-- Every byte is the low byte of its address.
abbrev bytes : ℕ → ℕ
bytes a = a % 256

memcpy-copied_example : memcpy 64 16 8 bytes 70 ≡ copied 64 16 8 bytes 70
memcpy-copied_example = memcpy-copied 64 16 8 bytes (λ b. omega arith) (inr (omega arith)) 70

memcpy_run : memcpy 64 16 8 bytes 70 ≡ 22
unfolding memcpy copy_words copy_bytes
memcpy_run = refl
