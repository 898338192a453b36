-- ===== src/Syscalls/Transfer.antt =====
-- The kernel reads from the registers the call that a program put there.
use dog_os.Prelude.{◌%◌, ◌-◌, ◌^◌, ◌<◌, ◌≡◌, refl, ap, true, false, some, arith, ltb}
use mathlib.Core.Path.{ap₂}
use dog_os.Prelude.Int.{ℤ, pos, negsuc, to_u64}
use dog_os.Syscalls.{
  Call, get_current_time, get_cpu_features, read, write, get_registers, get_mem, check_cpuid,
  clear_screen, exit, get_cpu_vendor, malloc, free, memory_dump, new_process, kill_process,
  get_process_pid, print_process_status, block_process, set_state, yield, set_priority,
  ready_process, sem_open, sem_post, sem_wait, sem_close, sem_status, seconds_elapsed, pipe_status,
  pipe_open, pipe_close, pipe_write, pipe_read, wait, half_screen_size, to_int, low,
  syscall_selector, user_syscall,
}

-- The value of an `int`.
abbrev pub IsInt : ℤ → Type 0
IsInt (pos n) = n < 2 ^ 31
IsInt (negsuc n) = n < 2 ^ 31

to_int-to_u64 : (v : ℤ) → IsInt v → to_int (to_u64 v) ≡ v
to_int-to_u64 (pos n) h =
    let bits : n % 2 ^ 32 ≡ n = omega arith in
    let small : ltb n (2 ^ 31) ≡ true = ground arith in rw bits (rw small refl)
to_int-to_u64 (negsuc n) h =
    let bits : (2 ^ 64 - n - 1) % 2 ^ 32 ≡ 2 ^ 32 - n - 1 = omega arith in
    let large : ltb (2 ^ 32 - n - 1) (2 ^ 31) ≡ false = ground arith in
    rw bits (rw large (ap negsuc (omega arith)))

-- The arguments have the types of the functions that are called.
abbrev pub Fits : Call → Type 0
Fits (get_current_time id) = id < 2 ^ 8
Fits (write p n b c v) = (n < 2 ^ 8) × (b < 2 ^ 32) × (c < 2 ^ 32) × IsInt v
Fits (new_process e argc argv fg fd) = IsInt argc × IsInt fg
Fits (set_state pid s) = s < 2 ^ 32
Fits (set_priority pid v) = IsInt v
Fits (sem_open id n) = id < 2 ^ 32
Fits (sem_post id) = id < 2 ^ 32
Fits (sem_wait id) = id < 2 ^ 32
Fits (sem_close id) = id < 2 ^ 32
Fits (pipe_open v) = IsInt v
Fits (pipe_close v) = IsInt v
Fits (pipe_write v p) = IsInt v
Fits (pipe_read v) = IsInt v
Fits (wait v) = IsInt v
Fits _ = Unit

-- Whatever call a program makes, with arguments of the types of the call, the kernel finds it in its
-- table, with the same arguments.
pub syscall_selector-user_syscall : (c : Call) → Fits c → syscall_selector (user_syscall c) ≡ some c
unfolding syscall_selector user_syscall
syscall_selector-user_syscall (get_current_time id) h =
    ap (λ a. some (get_current_time a)) (omega arith)
syscall_selector-user_syscall (get_cpu_features p) h = refl
syscall_selector-user_syscall read h = refl
syscall_selector-user_syscall (write p n b c v) (hn, hb, hc, hv) =
    let n' : n % 2 ^ 8 ≡ n = omega arith in
    let b' : low b ≡ b = omega arith in
    let c' : low c ≡ c = omega arith in
    rw n' (rw b' (rw c' (ap (λ a. some (write p n b c a)) (to_int-to_u64 v hv))))
syscall_selector-user_syscall get_registers h = refl
syscall_selector-user_syscall (get_mem a p n) h = refl
syscall_selector-user_syscall check_cpuid h = refl
syscall_selector-user_syscall clear_screen h = refl
syscall_selector-user_syscall exit h = refl
syscall_selector-user_syscall (get_cpu_vendor p) h = refl
syscall_selector-user_syscall (malloc n) h = refl
syscall_selector-user_syscall (free p) h = refl
syscall_selector-user_syscall memory_dump h = refl
syscall_selector-user_syscall (new_process e argc argv fg fd) (ha, hf) =
    ap₂ (λ a f. some (new_process e a argv f fd)) (to_int-to_u64 argc ha) (to_int-to_u64 fg hf)
syscall_selector-user_syscall (kill_process pid) h = refl
syscall_selector-user_syscall get_process_pid h = refl
syscall_selector-user_syscall print_process_status h = refl
syscall_selector-user_syscall (block_process pid) h = refl
syscall_selector-user_syscall (set_state pid s) h = ap (λ a. some (set_state pid a)) (omega arith)
syscall_selector-user_syscall yield h = refl
syscall_selector-user_syscall (set_priority pid v) h =
    ap (λ a. some (set_priority pid a)) (to_int-to_u64 v h)
syscall_selector-user_syscall (ready_process pid) h = refl
syscall_selector-user_syscall (sem_open id n) h = ap (λ a. some (sem_open a n)) (omega arith)
syscall_selector-user_syscall (sem_post id) h = ap (λ a. some (sem_post a)) (omega arith)
syscall_selector-user_syscall (sem_wait id) h = ap (λ a. some (sem_wait a)) (omega arith)
syscall_selector-user_syscall (sem_close id) h = ap (λ a. some (sem_close a)) (omega arith)
syscall_selector-user_syscall sem_status h = refl
syscall_selector-user_syscall seconds_elapsed h = refl
syscall_selector-user_syscall pipe_status h = refl
syscall_selector-user_syscall (pipe_open v) h = ap (λ a. some (pipe_open a)) (to_int-to_u64 v h)
syscall_selector-user_syscall (pipe_close v) h = ap (λ a. some (pipe_close a)) (to_int-to_u64 v h)
syscall_selector-user_syscall (pipe_write v p) h =
    ap (λ a. some (pipe_write a p)) (to_int-to_u64 v h)
syscall_selector-user_syscall (pipe_read v) h = ap (λ a. some (pipe_read a)) (to_int-to_u64 v h)
syscall_selector-user_syscall (wait v) h = ap (λ a. some (wait a)) (to_int-to_u64 v h)
syscall_selector-user_syscall half_screen_size h = refl
