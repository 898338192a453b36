-- ===== src/Modules.antt =====
-- Kernel/moduleLoader.c: the modules behind the kernel's binary are copied to where they run. Memory is
-- bytes; the console's text memory is apart from it.
pub mod Packer
pub mod Bytes
pub mod Load
pub mod Tests
use dog_os.Prelude.{ℕ, zero, suc, ◌+◌, Option, none, some, List, [], ◌∷◌, ◌>>=◌}
use dog_os.Memory.{read32, memcpy}
use dog_os.Console.{Console, nc_print, nc_print_hex, nc_print_dec, nc_newline}

pub record Machine : Type 0 where
  pub memory : ℕ → ℕ
  pub console : Console

-- `readUint32`: the number, and the address behind it.
unfoldable pub read_uint32 : (ℕ → ℕ) → ℕ → ℕ × ℕ
read_uint32 m address = (read32 m address, address + 4)

-- The texts of `loadModule`.
abbrev will_copy : List ℕ
will_copy =
    b' ' ∷ b' ' ∷ b'W' ∷ b'i' ∷ b'l' ∷ b'l' ∷ b' ' ∷ b'c' ∷ b'o' ∷ b'p' ∷ b'y' ∷ b' ' ∷ b'm' ∷ b'o'
    ∷ b'd' ∷ b'u' ∷ b'l' ∷ b'e' ∷ b' ' ∷ b'a' ∷ b't' ∷ b' ' ∷ b'0' ∷ b'x' ∷ []

abbrev to_address : List ℕ
to_address = b' ' ∷ b't' ∷ b'o' ∷ b' ' ∷ b'0' ∷ b'x' ∷ []

abbrev of_size : List ℕ
of_size = b' ' ∷ b'(' ∷ []

abbrev bytes_end : List ℕ
bytes_end = b' ' ∷ b'b' ∷ b'y' ∷ b't' ∷ b'e' ∷ b's' ∷ b')' ∷ []

abbrev done : List ℕ
done = b' ' ∷ b'[' ∷ b'D' ∷ b'o' ∷ b'n' ∷ b'e' ∷ b']' ∷ []

-- What `loadModule` prints around the copying.
unfoldable pub announce : (from to size : ℕ) → Console → Console
unfolding nc_print nc_print_hex nc_print_dec
announce from to size t = nc_print bytes_end (
    nc_print_dec size (
      nc_print of_size
        (nc_print_hex to (nc_print to_address (nc_print_hex from (nc_print will_copy t))))))

-- `loadModule`: the address behind the module, and the machine.
unfoldable pub load_module : (module_at target : ℕ) → Machine → ℕ × Machine
unfolding read_uint32 announce nc_print nc_newline memcpy
load_module module_at target s =
    let (module_size, from) = read_uint32 s.memory module_at in
    let t = announce from target module_size s.console in
    (
      from + module_size,
      record {
        memory = memcpy target from module_size s.memory;
        console = nc_newline (nc_print done t);
      },
    )

-- The loop of `loadModules`, with the addresses that are left in the array; a read behind it is `none`.
unfoldable pub load_loop : ℕ → (module_at : ℕ) → List ℕ → Machine → Option Machine
unfolding load_module
load_loop zero module_at targets s = some s
load_loop (suc n) module_at [] s = none
load_loop (suc n) module_at (target ∷ targets) s =
    let (next, s') = load_module module_at target s in load_loop n next targets s'

-- `loadModules`
unfoldable pub load_modules : (payload_start : ℕ) → List ℕ → Machine → Option Machine
unfolding read_uint32 load_loop
load_modules payload_start targets s =
    let (module_count, current) = read_uint32 s.memory payload_start in
    load_loop module_count current targets s
