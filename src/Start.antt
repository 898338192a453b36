-- ===== src/Start.antt =====
-- Kernel/kernel.c: what is done before `main`, which `loader.asm` calls. The addresses that the linker fixes
-- are parameters.
mod Binary
mod Tests
use dog_os.Prelude.{ℕ, ◌+◌, ◌-◌, ◌*◌, Option, none, some, List, [], ◌∷◌, ◌>>=◌}
use dog_os.Memory.{memset}
use dog_os.Modules.{Machine, load_modules}

-- `bss`, `endOfKernelBinary` and `endOfKernel`
pub record Linked : Type 0 where
  pub bss : ℕ
  pub end_of_kernel_binary : ℕ
  pub end_of_kernel : ℕ

abbrev pub page_size : ℕ
page_size = 0x1000

abbrev pub sample_code_module_address : ℕ
sample_code_module_address = 0x400000

abbrev pub sample_data_module_address : ℕ
sample_data_module_address = 0x500000

-- `clearBSS`
unfoldable pub clear_bss : (bss_address bss_size : ℕ) → (ℕ → ℕ) → ℕ → ℕ
unfolding memset
clear_bss bss_address bss_size m = memset bss_address 0 bss_size m

-- `getStackBase`
abbrev pub get_stack_base : Linked → ℕ
get_stack_base l = l.end_of_kernel + page_size * 8 - 8

-- `initializeKernelBinary`: the base of the stack, and the machine.
unfoldable pub initialize_kernel_binary : Linked → Machine → Option (ℕ × Machine)
unfolding load_modules clear_bss
initialize_kernel_binary l s = do
  s' ←
      load_modules l.end_of_kernel_binary
        (sample_code_module_address ∷ sample_data_module_address ∷ []) s
  let cleared = clear_bss l.bss (l.end_of_kernel - l.bss) s'.memory
  some (get_stack_base l, record s' { memory = cleared })
