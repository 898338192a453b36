-- ===== src/ProcessQueue.antt =====
-- Kernel/processManagement/processManagerQueue.c and Kernel/include/processManagerQueue.h: the
-- process nodes in memory, and the queue that links them through their `next` fields.
-- A pointer is a number and NULL is 0. Memory is total: a node that was never written holds
-- whatever the memory held, `next` included.
pub mod Chain
pub mod Refine
pub mod Tests
use dog_os.Prelude.{ℕ, ◌+◌, ◌-◌, ◌%◌, ◌^◌, Bool, true, false, List, ◌==◌, if◌then◌else◌}
use dog_os.Prelude.Int.{ℤ}

pub data State : Type 0 where
  ready blocked terminated : State

abbrev pub is_ready : State → Bool
is_ready State.ready = true
is_ready _ = false

abbrev pub is_blocked : State → Bool
is_blocked State.blocked = true
is_blocked _ = false

abbrev pub is_terminated : State → Bool
is_terminated State.terminated = true
is_terminated _ = false

-- `args` is what the array at `argv` holds: the addresses of the argument strings.
pub record Pcb : Type 0 where
  pub pid : ℕ
  pub ppid : ℕ
  pub foreground : ℕ
  pub state : State
  pub priority : ℕ
  pub name : List ℕ
  pub input : ℤ
  pub output : ℤ
  pub rsp : ℕ
  pub rbp : ℕ
  pub argc : ℕ
  pub argv : ℕ
  pub args : List ℕ

pub record Node : Type 0 where
  pub pcb : Pcb
  pub open pcb use *
  pub next : ℕ

abbrev pub Memory : Type 0
Memory = ℕ → Node

abbrev pub null : ℕ
null = 0

abbrev pub write : Memory → ℕ → Node → Memory
write m p n q = if q == p then n else m q

abbrev pub set_next : Memory → ℕ → ℕ → Memory
set_next m p q = write m p (record (m p) { next = q })

abbrev pub set_pcb : Memory → ℕ → Pcb → Memory
set_pcb m p b = write m p (record (m p) { pcb = b })

-- `uint32_t` counters.
abbrev pub inc32 : ℕ → ℕ
inc32 n = (n + 1) % 2 ^ 32

abbrev pub dec32 : ℕ → ℕ
dec32 n = (n + 2 ^ 32 - 1) % 2 ^ 32

pub record ProcessList : Type 0 where
  pub size : ℕ
  pub ready_size : ℕ
  pub first : ℕ
  pub last : ℕ

abbrev pub queue_is_empty : ProcessList → Bool
queue_is_empty l = l.size == 0

-- The links that `queueProcess` sets. The first process of an empty queue keeps its old `next`.
link : Memory → ProcessList → ℕ → Memory × ProcessList
link m l p =
    if queue_is_empty l
    then (m, record l { first = p; last = p })
    else (set_next (set_next m l.last p) p null, record l { last = p })

unfoldable pub queue_process : Memory → ProcessList → ℕ → Memory × ProcessList
unfolding link
queue_process m l p =
    let (m', l') = link m l p in
    (
      m',
      record l' {
        ready_size = if is_ready (m' p).state then inc32 l'.ready_size else l'.ready_size;
        size = inc32 l'.size;
      },
    )

-- The process taken out (NULL from an empty queue) and the queue that is left.
unfoldable pub dequeue_process : Memory → ProcessList → ℕ × ProcessList
dequeue_process m l = if queue_is_empty l then (null, l) else (
  l.first,
  record l {
    first = (m l.first).next;
    size = dec32 l.size;
    ready_size = if is_ready (m l.first).state then dec32 l.ready_size else l.ready_size;
  },
)
