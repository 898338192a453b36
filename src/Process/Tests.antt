-- ===== src/Process/Tests.antt =====
-- The process manager of processManager.c on three processes, and its theorems at that state.
use dog_os.Prelude.{List, ℕ, ◌+◌, ◌≡◌, refl, some, [], ◌∷◌, arith, ◌==◌, if◌then◌else◌}
use dog_os.Prelude.Int.{ℤ, pos}
use dog_os.Platform.{Platform}
use dog_os.ProcessQueue.{State, null}
use dog_os.ProcessQueue.Chain.{IsQueue}
use dog_os.ProcessQueue.Tests.{process, memory, pair, pair-IsQueue}
use dog_os.Process.{Kernel, find_from, get_process, set_state, change_state}
use dog_os.Process.Scheduler.{process_manager, kill_process}
use dog_os.Process.Exit.{Gone, kill_process-Gone}
use dog_os.Process.Create.{stack_frame}
use dog_os.Process.Lookup.{Walk, first_with, get_process-Walk}
use dog_os.Process.States.{set_state-IsQueue, set_state-terminated}
use dog_os.Process.Switch.{process_manager-switch}
use dog_os.Process.Fairness.{timer_ticks, timer_ticks-turn, left}

-- A heap that hands out one address after the other, and never takes one back.
abbrev pub bump : Platform ℕ
bump = record {
  malloc = λ h n. if n == 0 then (0, h) else (h, h + n);
  free = λ h p. h;
  wrapper = 9000;
  idle = 9001;
  fuel = 10;
}

-- Process 3 at 300 is running, its time over; processes 1 and 2 are in the queue.
abbrev pub kernel : Kernel ℕ
kernel = record {
  heap = 5000;
  nodes = memory;
  frames = λ a. stack_frame 0 0 0 0 0;
  processes = pair;
  current = 300;
  base = 400;
  next_pid = 4;
  cycles_left = 0;
  ticks = 0;
}

get_process-Walk_example : get_process bump kernel 2 ≡ some 200
unfolding first_with
get_process-Walk_example =
    get_process-Walk bump kernel 2 (100 ∷ 200 ∷ []) (refl, omega arith, (refl, omega arith, refl))
      (omega arith)

-- The queue is empty, and process 3, which once stood before process 2, is queued.
abbrev alone : Kernel ℕ
alone = record kernel { processes = record { size = 0; ready_size = 0; first = null; last = null } }

set_state-IsQueue_example :
    (r : ℤ) × (k' : Kernel ℕ) × (set_state bump kernel 1 State.ready ≡ some (r, k'))
    × IsQueue k'.nodes k'.processes (100 ∷ 200 ∷ [])
    × Walk k'.nodes k'.processes.first (100 ∷ 200 ∷ [])
set_state-IsQueue_example =
    set_state-IsQueue bump kernel 1 State.ready (100 ∷ 200 ∷ []) pair-IsQueue
      (refl, omega arith, (refl, omega arith, refl)) (omega arith, (omega arith, tt)) (omega arith)

-- Process 3 has been killed; it cannot be made READY.
abbrev killed : Kernel ℕ
killed = record kernel {
  nodes =
      λ p. if p == 300 then record { pcb = process 3 1 State.terminated; next = 200 } else memory p;
}

set_state-terminated_example :
    (change_state killed 200 State.blocked).1.nodes 300 ≡ killed.nodes 300
unfolding set_state get_process find_from
set_state-terminated_example =
    set_state-terminated bump killed 2 State.blocked 300 {r = pos 2}
      {k' = (change_state killed 200 State.blocked).1} done refl
  where
    done :
        set_state bump killed 2 State.blocked
        ≡ some (pos 2, (change_state killed 200 State.blocked).1)
    done = unfold change_state in refl

process_manager-switch_example :
    (k' : Kernel ℕ) × (process_manager bump 777 kernel ≡ some (20, k'))
    × (k'.current ≡ 200)
    × IsQueue k'.nodes k'.processes (300 ∷ 100 ∷ [])
    × (k'.cycles_left ≡ 1)
process_manager-switch_example =
    process_manager-switch bump kernel 777 (100 ∷ 200 ∷ []) (100 ∷ []) 200 (300 ∷ [])
      (omega arith, omega arith, refl, refl) pair-IsQueue (omega arith, (omega arith, tt)) refl
      (refl, tt) refl (omega arith) (omega arith)

-- Process 3 has two ticks left.
abbrev started : Kernel ℕ
started = record kernel { cycles_left = 2 }

timer_ticks-turn_example :
    (k' : Kernel ℕ) × (timer_ticks bump (1 ∷ 2 ∷ 3 ∷ []) started ≡ some k')
    × (k'.current ≡ 200)
    × (left k' ≡ 1)
timer_ticks-turn_example =
    timer_ticks-turn bump started (100 ∷ []) 200 [] (1 ∷ 2 ∷ 3 ∷ [])
      (record {
        current = omega arith;
        other = omega arith;
        alive = refl;
        queue = pair-IsQueue;
        out = (omega arith, (omega arith, tt));
        enough = omega arith;
        small = omega arith;
      })
      ((omega arith), (omega arith), ((omega arith), (omega arith), tt)) refl refl

kill_process-Gone_example :
    (k' : Kernel ℕ) × (rest : List ℕ) × (kill_process bump 777 3 kernel ≡ some (pos 3, k'))
    × Gone k' 300 rest
kill_process-Gone_example =
    kill_process-Gone bump kernel 777 (100 ∷ 200 ∷ []) (omega arith) refl (omega arith) pair-IsQueue
      (refl, omega arith, (refl, omega arith, refl)) (omega arith, (omega arith, tt)) (omega arith)
