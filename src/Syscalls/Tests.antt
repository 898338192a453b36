-- ===== src/Syscalls/Tests.antt =====
-- A system call, from the program to the kernel.
use dog_os.Prelude.{◌≡◌, some, arith}
use dog_os.Prelude.Int.{negsuc}
use dog_os.Syscalls.{set_priority, syscall_selector, user_syscall}
use dog_os.Syscalls.Transfer.{syscall_selector-user_syscall}

-- The priority -3, for the process 4.
syscall_selector-user_syscall_example :
    syscall_selector (user_syscall (set_priority 4 (negsuc 2))) ≡ some (set_priority 4 (negsuc 2))
syscall_selector-user_syscall_example =
    syscall_selector-user_syscall (set_priority 4 (negsuc 2)) (omega arith)
