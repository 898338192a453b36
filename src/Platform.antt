-- ===== src/Platform.antt =====
-- What the kernel's components ask of the memory manager (Kernel/include/memoryManager.h: `malloc`
-- and `free`, over a heap of type `H`), two code addresses that the linker fixes, and the number of
-- nodes that a walk through linked nodes may visit.
use dog_os.Prelude.{ℕ}

pub record Platform (H : Type 0) : Type 0 where
  pub malloc : H → ℕ → ℕ × H
  pub free : H → ℕ → H
  pub wrapper : ℕ
  pub idle : ℕ
  pub fuel : ℕ
