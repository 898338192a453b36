-- ===== src/Services.antt =====
-- What Kernel/semaphores/semaphores.c asks of the rest of the kernel, whose state is `S`: the process
-- manager's `getProcessPID`, `blockProcess` and `readyProcess`, and the memory manager's `malloc`
-- and `free`. `none` is a call that does not return. `garbage` is what uninitialised memory holds.
use dog_os.Prelude.{ℕ, Option, some, ◌>>=◌}
use dog_os.Prelude.Int.{ℤ}
use dog_os.Platform.{Platform}
use dog_os.Process.{Kernel, get_process_pid, ready_process}
use dog_os.Process.Scheduler.{block_process}

pub record Services (S : Type 0) : Type 0 where
  pub current_pid : S → ℤ
  pub block : ℕ → S → Option S
  pub ready : ℕ → S → Option S
  pub malloc : S → ℕ → ℕ × S
  pub free : S → ℕ → S
  pub garbage : ℤ

-- The kernel's own services, on a platform, with the stack pointer at the calls.
module _ {H : Type 0} (e : Platform H) (sp : ℕ) (garbage : ℤ) where
  abbrev pub kernel_services : Services (Kernel H)
  unfolding get_process_pid block_process ready_process
  kernel_services = record {
    current_pid = get_process_pid;
    block = λ pid k. block_process e sp pid k >>= λ (_, k'). some k';
    ready = λ pid k. ready_process e k pid >>= λ (_, k'). some k';
    malloc = λ k n. let (p, h) = e.malloc k.heap n in (p, record k { heap = h });
    free = λ k p. record k { heap = e.free k.heap p };
    garbage = garbage;
  }
