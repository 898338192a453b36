-- ===== src/Process.antt =====
-- Kernel/processManagement/processManager.c: the state of the process manager and the functions
-- that look processes up and change their pcbs. The scheduler is `Process/Scheduler`, the creation
-- of processes `Process/Create`.
pub mod Scheduler
pub mod Create
pub mod Lookup
pub mod States
pub mod Switch
pub mod Fairness
pub mod Exit
mod Wake
mod Turns
pub mod Tests
pub mod Dispatch
use dog_os.Prelude.{
  ℕ, zero, suc, ◌+◌, ◌-◌, Bool, true, false, not, ◌&&◌, ◌||◌, Option, none, some, List, [], ◌∷◌,
  ltb, ◌==◌, if◌then◌else◌, ◌>>=◌, take,
}
use dog_os.Prelude.Int.{ℤ, pos, negsuc, minus_one}
use dog_os.Platform.{Platform}
use dog_os.ProcessQueue.{
  State, is_ready, is_blocked, is_terminated, Pcb, Node, Memory, null, write, set_pcb, inc32, dec32,
  ProcessList,
}

-- `t_stackFrame`: what `popState` and `iretq` load when a process is first scheduled.
pub record StackFrame : Type 0 where
  pub gs : ℕ
  pub fs : ℕ
  pub r15 : ℕ
  pub r14 : ℕ
  pub r13 : ℕ
  pub r12 : ℕ
  pub r11 : ℕ
  pub r10 : ℕ
  pub r9 : ℕ
  pub r8 : ℕ
  pub rsi : ℕ
  pub rdi : ℕ
  pub rbp : ℕ
  pub rdx : ℕ
  pub rcx : ℕ
  pub rbx : ℕ
  pub rax : ℕ
  pub rip : ℕ
  pub cs : ℕ
  pub eflags : ℕ
  pub rsp : ℕ
  pub ss : ℕ
  pub base : ℕ

-- The static variables of processManager.c and time.c, the memory of the process nodes and of the
-- stack frames, and the heap.
pub record Kernel (H : Type 0) : Type 0 where
  pub heap : H
  pub nodes : Memory
  pub frames : ℕ → StackFrame
  pub processes : ProcessList
  pub current : ℕ
  pub base : ℕ
  pub next_pid : ℕ
  pub cycles_left : ℕ
  pub ticks : ℕ

abbrev pub size_of_stack : ℕ
size_of_stack = 4096

abbrev pub max_priority : ℕ
max_priority = 50

-- The walk of `getProcess` from a node on: the first node with the pid, or NULL.
unfoldable pub find_from : Memory → ℕ → ℕ → ℕ → Option ℕ
find_from m zero p pid = none
find_from m (suc fuel) p pid =
    let rest = find_from m fuel (m p).next pid in
    if p == null then some null else if (m p).pid == pid then some p else rest

-- What `setState` does to the number of READY processes, given whether the process was READY and
-- whether it becomes so.
abbrev pub recount : Bool → Bool → ProcessList → ProcessList
recount was becomes l = record l {
  ready_size =
      if not was && becomes
      then inc32 l.ready_size
      else if was && not becomes
      then dec32 l.ready_size
      else l.ready_size;
}

-- What `newPriority` is clamped to.
unfoldable pub clamp_priority : ℤ → ℕ
clamp_priority (negsuc n) = 0
clamp_priority (pos n) = if ltb max_priority n then max_priority else n

module _ {H : Type 0} where
  abbrev pub pcb : Kernel H → ℕ → Pcb
  pcb k p = (k.nodes p).pcb

  abbrev pub update : Kernel H → ℕ → Pcb → Kernel H
  update k p b = record k { nodes = set_pcb k.nodes p b }

  abbrev pub is_current : Kernel H → ℕ → Bool
  is_current k pid = not (k.current == null) && ((pcb k k.current).pid == pid)

  -- `setState` once the process is found.
  unfoldable pub change_state : Kernel H → ℕ → State → ℤ × Kernel H
  change_state k p s =
      let b = pcb k p in
      let changed = update k p (record b { state = s }) in
      if (p == null) || is_terminated b.state
      then (minus_one, k)
      else if p == k.current
      then (pos b.pid, changed)
      else (
        pos b.pid,
        record changed { processes = recount (is_ready b.state) (is_ready s) k.processes },
      )

  -- `getProcessPID`, `currentProcessIsForeground`, `getCurrentProcessInputFD` and
  -- `getCurrentProcessOutputFD`: -1 where there is no current process.
  unfoldable pub get_process_pid : Kernel H → ℤ
  get_process_pid k = if k.current == null then minus_one else pos (pcb k k.current).pid

  unfoldable pub current_process_is_foreground : Kernel H → ℤ
  current_process_is_foreground k =
      if k.current == null then minus_one else pos (pcb k k.current).foreground

  unfoldable pub get_current_process_input_fd : Kernel H → ℤ
  get_current_process_input_fd k = if k.current == null then minus_one else (pcb k k.current).input

  unfoldable pub get_current_process_output_fd : Kernel H → ℤ
  get_current_process_output_fd k =
      if k.current == null then minus_one else (pcb k k.current).output

module _ {H : Type 0} (e : Platform H) where
  unfoldable pub get_process : Kernel H → ℕ → Option ℕ
  get_process k pid =
      if is_current k pid then some k.current else find_from k.nodes e.fuel k.processes.first pid

  unfoldable pub set_state : Kernel H → ℕ → State → Option (ℤ × Kernel H)
  set_state k pid s = do p ← get_process k pid; some (change_state k p s)

  unfoldable pub ready_process : Kernel H → ℕ → Option (ℤ × Kernel H)
  ready_process k pid = set_state k pid State.ready

  unfoldable pub set_priority : Kernel H → ℕ → ℤ → Option (Kernel H)
  set_priority k pid priority = do
    p ← get_process k pid
    some (
        if p == null
        then k
        else update k p (record (pcb k p) { priority = clamp_priority priority }))

  -- The calls of `free`, in order.
  unfoldable pub free_all : H → List ℕ → H
  free_all h [] = h
  free_all h (p ∷ ps) = free_all (e.free h p) ps

  -- Neither memory manager writes to the node that is freed: only the heap changes.
  unfoldable pub free_process : Kernel H → ℕ → Kernel H
  free_process k p =
      let b = pcb k p in
      let h = free_all k.heap (take b.argc b.args) in
      record k { heap = e.free (e.free (e.free h b.argv) (b.rbp + 1 - size_of_stack)) p }
