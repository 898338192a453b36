-- ===== src/Interrupts.antt =====
-- Kernel/interruptions: the table of interrupts (idtLoader.c), the dispatch of the controller's requests
-- (irqDispatcher.c) and of exceptions (exceptions.c). The addresses of the handlers, which are assembly,
-- are parameters, and the instructions and ports that assembly wraps are fields of the machine.
mod Gates
mod Tests
use dog_os.Prelude.{
  ℕ, zero, suc, ◌+◌, ◌*◌, ◌/◌, ◌%◌, ◌^◌, Bool, true, false, List, [], ◌∷◌, ◌++◌, ◌==◌,
  if◌then◌else◌, Option, none, some, ◌>>=◌,
}
use dog_os.Prelude.Int.{ℤ, to_u64}
use dog_os.Platform.{Platform}
use dog_os.Process.{Kernel, get_process_pid}
use dog_os.Process.Scheduler.{kill_process}

-- A descriptor of an interrupt.
pub record DescrInt : Type 0 where
  pub offset_l : ℕ
  pub selector : ℕ
  pub cero : ℕ
  pub access : ℕ
  pub offset_m : ℕ
  pub offset_h : ℕ
  pub other_cero : ℕ

abbrev pub acs_int : ℕ
acs_int = 0x8E

-- The table, the masks of the two controllers, and whether interrupts are on.
pub record Machine : Type 0 where
  pub idt : ℕ → DescrInt
  pub master_mask : ℕ
  pub slave_mask : ℕ
  pub interrupts_on : Bool

-- What `setupIdtEntry` writes for a `uint64_t`.
abbrev pub entry_to : (offset : ℕ) → DescrInt
entry_to offset = record {
  offset_l = offset % 2 ^ 16;
  selector = 0x08;
  cero = 0;
  access = acs_int;
  offset_m = offset / 2 ^ 16 % 2 ^ 16;
  offset_h = offset / 2 ^ 32 % 2 ^ 32;
  other_cero = 0;
}

-- `setupIdtEntry`
unfoldable pub setup_idt_entry : (index offset : ℕ) → Machine → Machine
setup_idt_entry index offset s = record s {
  idt = λ i. if i == index then entry_to offset else s.idt i;
}

-- The addresses of the handlers.
pub record Handlers : Type 0 where
  pub irq00_handler : ℕ
  pub irq01_handler : ℕ
  pub syscall_handler : ℕ
  pub exception0_handler : ℕ
  pub exception6_handler : ℕ

-- `loadIdt`
unfoldable pub load_idt : Handlers → Machine → Machine
unfolding setup_idt_entry
load_idt h s =
    let off = record s { interrupts_on = false } in
    let keys = setup_idt_entry 0x21 h.irq01_handler off in
    let calls = setup_idt_entry 0x80 h.syscall_handler keys in
    let division = setup_idt_entry 0x00 h.exception0_handler calls in
    let opcode = setup_idt_entry 0x06 h.exception6_handler division in
    let masked = record opcode { master_mask = 0xFC; slave_mask = 0xFF } in
    let timer = setup_idt_entry 0x20 h.irq00_handler masked in record timer { interrupts_on = true }

-- The handlers that are called for a request of the controller.
pub data Handled : Type 0 where
  timer_handler nothing : Handled
  keyboard_handler : (rsp : ℕ) → Handled

-- `irqDispatcher`
unfoldable pub irq_dispatcher : (irq rsp : ℕ) → Handled
irq_dispatcher irq rsp =
    if irq == 0 then timer_handler else if irq == 1 then keyboard_handler rsp else nothing

-- The calls at an exception: the end of a line, the message of an exception in red, the name of the register
-- with the given number, a number in base 16, and the end of the process that runs by then. Where the output
-- is a pipe, what is printed goes there, and `printIntHex` has a buffer of 10 characters: what the calls do is
-- not followed.
pub data FaultCall : Type 0 where
  print_line kill_running : FaultCall
  message : (exception : ℕ) → FaultCall
  register_name : (index : ℕ) → FaultCall
  print_int_hex : ℕ → FaultCall

abbrev pub zero_exception_id : ℕ
zero_exception_id = 0

abbrev pub invop_exception_id : ℕ
invop_exception_id = 6

abbrev pub register_amount : ℕ
register_amount = 17

-- `zeroDivision` and `invOpCode`
abbrev pub report : (exception : ℕ) → List FaultCall
report exception = print_line ∷ message exception ∷ print_line ∷ print_line ∷ []

-- The loop of `printRegs`, from a register on.
unfoldable pub print_regs_loop : ℕ → (i : ℕ) → (stack : ℕ → ℕ) → List FaultCall
print_regs_loop zero i stack = []
print_regs_loop (suc n) i stack =
    register_name i ∷ print_int_hex (stack i) ∷ print_line ∷ print_regs_loop n (i + 1) stack

-- `printRegs`, where `stack` is what stands from `rsp` on.
unfoldable pub print_regs : (stack : ℕ → ℕ) → List FaultCall
unfolding print_regs_loop
print_regs stack = print_regs_loop register_amount 0 stack ++ (print_line ∷ [])

-- `exceptionDispatcher`: its calls, in order.
unfoldable pub exception_dispatcher : (exception : ℕ) (stack : ℕ → ℕ) → List FaultCall
unfolding print_regs
exception_dispatcher exception stack =
    let reported =
      if exception == zero_exception_id
      then report zero_exception_id
      else if exception == invop_exception_id
      then report invop_exception_id
      else [] in
    reported ++ (print_regs stack ++ (kill_running ∷ []))
