-- ===== src/Syscalls.antt =====
-- The system calls: the table of Kernel/interruptions/syscallDispatcher.c, which reads a call from
-- registers, and Userland/SampleCodeModule/libraries/userSyscalls.c, which puts it there.
mod Transfer
mod Tests
use dog_os.Prelude.{ℕ, ◌%◌, ◌^◌, Option, none, some, List, [], ◌∷◌, get_elem?}
use dog_os.Prelude.Int.{ℤ, of_u32, to_u64}

-- The registers rdi, rsi, rdx, rcx, r8 and r9.
pub record Registers : Type 0 where
  pub rdi : ℕ
  pub rsi : ℕ
  pub rdx : ℕ
  pub rcx : ℕ
  pub r8 : ℕ
  pub r9 : ℕ

-- A call of the kernel with its arguments; pointers are addresses.
pub data Call : Type 0 where
  get_current_time get_cpu_features : ℕ → Call
  read : Call
  write : (text length background colour : ℕ) → ℤ → Call
  get_registers : Call
  get_mem : (address buffer length : ℕ) → Call
  check_cpuid clear_screen exit : Call
  get_cpu_vendor malloc free : ℕ → Call
  memory_dump : Call
  new_process : (entry_point : ℕ) → ℤ → (argv : ℕ) → ℤ → (fd : ℕ) → Call
  kill_process : ℕ → Call
  get_process_pid print_process_status : Call
  block_process : ℕ → Call
  set_state : (pid state : ℕ) → Call
  yield : Call
  set_priority : ℕ → ℤ → Call
  ready_process : ℕ → Call
  sem_open : (id initial : ℕ) → Call
  sem_post sem_wait sem_close : ℕ → Call
  sem_status seconds_elapsed pipe_status : Call
  pipe_open pipe_close : ℤ → Call
  pipe_write : ℤ → ℕ → Call
  pipe_read wait : ℤ → Call
  half_screen_size : Call

-- The conversions of a register to `int` and `uint32_t`.
abbrev pub to_int : ℕ → ℤ
to_int r = of_u32 (r % 2 ^ 32)

abbrev pub low : ℕ → ℕ
low r = r % 2 ^ 32

-- The table `syscall`, each entry a wrapper on the registers.
unfoldable pub syscall : Registers → List Call
syscall r =
    get_current_time (r.rsi % 2 ^ 8)
    ∷ get_cpu_features r.rsi
    ∷ read
    ∷ write r.rsi (r.rdx % 2 ^ 8) (low r.rcx) (low r.r8) (to_int r.r9)
    ∷ get_registers
    ∷ get_mem r.rsi r.rdx r.rcx
    ∷ check_cpuid
    ∷ clear_screen
    ∷ exit
    ∷ get_cpu_vendor r.rsi
    ∷ malloc r.rsi
    ∷ free r.rsi
    ∷ memory_dump
    ∷ new_process r.rsi (to_int r.rdx) r.rcx (to_int r.r8) r.r9
    ∷ kill_process r.rsi
    ∷ get_process_pid
    ∷ print_process_status
    ∷ block_process r.rsi
    ∷ set_state r.rsi (low r.rdx)
    ∷ yield
    ∷ set_priority r.rsi (to_int r.rdx)
    ∷ ready_process r.rsi
    ∷ sem_open (low r.rsi) r.rdx
    ∷ sem_post (low r.rsi)
    ∷ sem_wait (low r.rsi)
    ∷ sem_close (low r.rsi)
    ∷ sem_status
    ∷ seconds_elapsed
    ∷ pipe_status
    ∷ pipe_open (to_int r.rsi)
    ∷ pipe_close (to_int r.rsi)
    ∷ pipe_write (to_int r.rsi) r.rdx
    ∷ pipe_read (to_int r.rsi)
    ∷ wait (to_int r.rsi)
    ∷ half_screen_size
    ∷ []

-- `syscallSelector`: `none` is a number behind the table, which the code does not check.
unfoldable pub syscall_selector : Registers → Option Call
unfolding syscall
syscall_selector r = get_elem? (syscall r) r.rdi

abbrev registers : (rdi rsi rdx rcx r8 r9 : ℕ) → Registers
registers rdi rsi rdx rcx r8 r9 = record {
  rdi = rdi;
  rsi = rsi;
  rdx = rdx;
  rcx = rcx;
  r8 = r8;
  r9 = r9;
}

-- How userSyscalls.c makes a call: the numbers are those of `t_syscall_id`. The calls that it does
-- not make are made the same way in libc.c and commands.c.
unfoldable pub user_syscall : Call → Registers
user_syscall (get_current_time id) = registers 0 id 0 0 0 0
user_syscall (get_cpu_features p) = registers 1 p 0 0 0 0
user_syscall read = registers 2 0 0 0 0 0
user_syscall (write p n b c v) = registers 3 p n b c (to_u64 v)
user_syscall get_registers = registers 4 0 0 0 0 0
user_syscall (get_mem a p n) = registers 5 a p n 0 0
user_syscall check_cpuid = registers 6 0 0 0 0 0
user_syscall clear_screen = registers 7 0 0 0 0 0
user_syscall exit = registers 8 0 0 0 0 0
user_syscall (get_cpu_vendor p) = registers 9 p 0 0 0 0
user_syscall (malloc n) = registers 10 n 0 0 0 0
user_syscall (free p) = registers 11 p 0 0 0 0
user_syscall memory_dump = registers 12 0 0 0 0 0
user_syscall (new_process e argc argv fg fd) = registers 13 e (to_u64 argc) argv (to_u64 fg) fd
user_syscall (kill_process pid) = registers 14 pid 0 0 0 0
user_syscall get_process_pid = registers 15 0 0 0 0 0
user_syscall print_process_status = registers 16 0 0 0 0 0
user_syscall (block_process pid) = registers 17 pid 0 0 0 0
user_syscall (set_state pid s) = registers 18 pid s 0 0 0
user_syscall yield = registers 19 0 0 0 0 0
user_syscall (set_priority pid v) = registers 20 pid (to_u64 v) 0 0 0
user_syscall (ready_process pid) = registers 21 pid 0 0 0 0
user_syscall (sem_open id n) = registers 22 id n 0 0 0
user_syscall (sem_post id) = registers 23 id 0 0 0 0
user_syscall (sem_wait id) = registers 24 id 0 0 0 0
user_syscall (sem_close id) = registers 25 id 0 0 0 0
user_syscall sem_status = registers 26 0 0 0 0 0
user_syscall seconds_elapsed = registers 27 0 0 0 0 0
user_syscall pipe_status = registers 28 0 0 0 0 0
user_syscall (pipe_open v) = registers 29 (to_u64 v) 0 0 0 0
user_syscall (pipe_close v) = registers 30 (to_u64 v) 0 0 0 0
user_syscall (pipe_write v p) = registers 31 (to_u64 v) p 0 0 0
user_syscall (pipe_read v) = registers 32 (to_u64 v) 0 0 0 0
user_syscall (wait v) = registers 33 (to_u64 v) 0 0 0 0
user_syscall half_screen_size = registers 34 0 0 0 0 0
