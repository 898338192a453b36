-- ===== src/ProcessQueue/Tests.antt =====
-- The queue of processManagerQueue.c on three processes, and its theorems at that queue.
use dog_os.Prelude.{ℕ, ◌*◌, ◌≡◌, refl, [], ◌∷◌, arith, ◌==◌, if◌then◌else◌}
use dog_os.Prelude.Int.{pos}
use dog_os.ProcessQueue.{State, Pcb, Memory, ProcessList, null, queue_process, dequeue_process}
use dog_os.ProcessQueue.Chain.{IsQueue, count_ready}
use dog_os.ProcessQueue.Refine.{queue_process-append, dequeue_process-cons}

abbrev pub process : ℕ → ℕ → State → Pcb
process pid ppid s = record {
  pid = pid;
  ppid = ppid;
  foreground = 0;
  state = s;
  priority = 1;
  name = [];
  input = pos 0;
  output = pos 1;
  rsp = pid * 10;
  rbp = 0;
  argc = 0;
  argv = 0;
  args = [];
}

-- Processes 1, 2 and 3 at the addresses 100, 200 and 300: BLOCKED, READY and READY. The links lead
-- from 100 to 200; the node at 300 still points at the one at 200.
abbrev pub memory : Memory
memory p =
    if p == 100
    then record { pcb = process 1 0 State.blocked; next = 200 }
    else if p == 200
    then record { pcb = process 2 1 State.ready; next = null }
    else if p == 300
    then record { pcb = process 3 1 State.ready; next = 200 }
    else record { pcb = process 0 0 State.ready; next = null }

abbrev pub pair : ProcessList
pair = record { size = 2; ready_size = 1; first = 100; last = 200 }

pub pair-IsQueue : IsQueue memory pair (100 ∷ 200 ∷ [])
unfolding count_ready
pair-IsQueue = record {
  chain = (refl, (refl, refl));
  size = refl;
  ready_size = refl;
  distinct = ((omega arith, tt), (tt, tt));
  small = omega arith;
}

third_in_queue :
    (queue_process memory pair 300).1 ≡ record { size = 3; ready_size = 2; first = 100; last = 300 }
unfolding queue_process
third_in_queue = refl

queue_process-append_example :
    IsQueue
      (queue_process memory pair 300).0
      (queue_process memory pair 300).1
      (100 ∷ 200 ∷ 300 ∷ [])
queue_process-append_example =
    queue_process-append 300 (100 ∷ 200 ∷ []) pair-IsQueue (omega arith, (omega arith, tt))
      (omega arith)

dequeue_process-cons_example :
    ((dequeue_process memory pair).0 ≡ 100)
    × IsQueue memory (dequeue_process memory pair).1 (200 ∷ [])
dequeue_process-cons_example = dequeue_process-cons 100 (200 ∷ []) pair-IsQueue
