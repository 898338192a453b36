-- ===== src/KernelCalls/Tests.antt =====
-- The system calls of libraries/syscalls.c on small inputs.
use dog_os.Prelude.{inl, ℕ, ◌≡◌, refl, some, [], ◌∷◌, replicate, arith}
use dog_os.Prelude.Int.{pos}
use dog_os.KernelCalls.{get_mem, sys_write, print_loop, print_char}
use dog_os.KernelCalls.Dump.{dumped, get_mem-dumped}

get_mem-dumped_example :
    (m' : ℕ → ℕ) × (get_mem 33 1000 5000 32 (λ a. a) ≡ some m')
    × ((a : ℕ) → m' a ≡ dumped (λ a. a) 1000 0 32 5000 a)
get_mem-dumped_example =
    get_mem-dumped 33 32 1000 5000 (λ a. a) (omega arith) (omega arith)
      (inl (omega arith), omega arith, omega arith)

-- Of a string of 257 characters one is printed.
sys_write_run : sys_write (pos 1) (replicate 257 65) 257 0 1 (pos 0) ≡ print_char 65 1 0 ∷ []
unfolding sys_write print_loop
sys_write_run = refl
