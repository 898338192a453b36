-- ===== src/Interrupts/Tests.antt =====
-- idtLoader.c on a table of zeros.
use dog_os.Prelude.{length, ◌+◌, ◌*◌, refl, ℕ, ◌≡◌, arith, true}
use dog_os.Interrupts.{
  Machine, Handlers, load_idt, exception_dispatcher, print_regs, print_regs_loop,
}
use dog_os.Interrupts.Gates.{Filled, load_idt-Filled}

abbrev blank : Machine
blank = record {
  idt = λ i. record {
    offset_l = 0;
    selector = 0;
    cero = 0;
    access = 0;
    offset_m = 0;
    offset_h = 0;
    other_cero = 0;
  };
  master_mask = 0;
  slave_mask = 0;
  interrupts_on = true;
}

abbrev handlers : Handlers
handlers = record {
  irq00_handler = 0x100200;
  irq01_handler = 0x100240;
  syscall_handler = 0x100280;
  exception0_handler = 0x1002C0;
  exception6_handler = 0x100300;
}

load_idt-Filled_example :
    ((i : ℕ) → Filled handlers blank (load_idt handlers blank) i)
    × ((load_idt handlers blank).interrupts_on ≡ true)
    × ((load_idt handlers blank).master_mask ≡ 0xFC)
    × ((load_idt handlers blank).slave_mask ≡ 0xFF)
load_idt-Filled_example =
    load_idt-Filled handlers blank (omega arith) (omega arith) (omega arith) (omega arith)
      (omega arith)

-- The message of a division by zero, 17 registers, and the end of the process.
exception_dispatcher_run : length (exception_dispatcher 0 (λ i. i)) ≡ 4 + 17 * 3 + 2
unfolding exception_dispatcher print_regs print_regs_loop
exception_dispatcher_run = refl
