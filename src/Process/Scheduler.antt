-- ===== src/Process/Scheduler.antt =====
-- The scheduler of Kernel/processManagement/processManager.c (`processManager`) and the calls that
-- reach it through a timer tick: `int 20h`, the tick count of Kernel/interruptions/time.c, and the
-- switch of Kernel/interruptions/interrupts.asm. `sp` is the stack pointer at the interrupt.
use dog_os.Prelude.{
  ℕ, zero, suc, ◌+◌, ◌-◌, ◌/◌, ◌%◌, ◌^◌, not, ◌&&◌, Option, none, some, ltb, ◌==◌, if◌then◌else◌,
  ◌>>=◌,
}
use dog_os.Prelude.Int.{ℤ}
use dog_os.Platform.{Platform}
use dog_os.ProcessQueue.{
  State, is_ready, is_blocked, is_terminated, null, queue_process, dequeue_process,
}
use dog_os.Process.{Kernel, pcb, update, get_process, set_state, ready_process, free_process}

module _ {H : Type 0} where
  abbrev pub enqueue : Kernel H → ℕ → Kernel H
  enqueue k p =
      let (m, l) = queue_process k.nodes k.processes p in record k { nodes = m; processes = l }

  -- `currentProcess = dequeueProcess(processes)`
  abbrev pub take_next : Kernel H → Kernel H
  take_next k =
      let (p, l) = dequeue_process k.nodes k.processes in record k { current = p; processes = l }

module _ {H : Type 0} (e : Platform H) where
  -- A terminated process wakes its parent if it ran in the foreground and the parent is BLOCKED.
  unfoldable pub wake_parent : Kernel H → Option (Kernel H)
  wake_parent k = do
    parent ← get_process e k (pcb k k.current).ppid
    let waits = not ((pcb k k.current).foreground == 0) && is_blocked (pcb k parent).state
    if not (parent == null) && waits
        then (do (_, k') ← ready_process e k (pcb k parent).pid; some k')
        else some k

  -- The process that leaves the processor is freed or queued, the base process neither.
  unfoldable pub retire : Kernel H → Option (Kernel H)
  retire k =
      if (pcb k k.current).pid == (pcb k k.base).pid
      then some k
      else if is_terminated (pcb k k.current).state
      then (do k' ← wake_parent k; some (free_process e k' k'.current))
      else some (enqueue k k.current)

  -- The body of the loop of `processManager`: the current process is not READY. The second test
  -- reads the pcb again, after the process may have been freed.
  unfoldable pub settle : Kernel H → Kernel H
  settle k =
      let k' = if is_terminated (pcb k k.current).state then free_process e k k.current else k in
      if is_blocked (pcb k' k'.current).state then enqueue k' k'.current else k'

  unfoldable pub skip : ℕ → Kernel H → Option (Kernel H)
  skip zero k = none
  skip (suc fuel) k =
      let rest = skip fuel (take_next (settle k)) in
      if is_ready (pcb k k.current).state then some k else rest

  unfoldable pub dispatch : Kernel H → Option (Kernel H)
  dispatch k =
      if ltb 0 k.processes.ready_size
      then skip e.fuel (take_next k)
      else some (record k { current = k.base })

  unfoldable pub switch : ℕ → Kernel H → Option (Kernel H)
  switch sp k = if k.current == null then dispatch k else (do
    k' ← retire (update k k.current (record (pcb k k.current) { rsp = sp }))
    dispatch k')

  -- The stack pointer to go on with, and the kernel.
  unfoldable pub process_manager : ℕ → Kernel H → Option (ℕ × Kernel H)
  process_manager sp k =
      if not (k.current == null) && (is_ready (pcb k k.current).state && ltb 0 k.cycles_left)
      then some (sp, record k { cycles_left = k.cycles_left - 1 })
      else (do
        k' ← switch sp k
        some ((pcb k' k'.current).rsp, record k' { cycles_left = (pcb k' k'.current).priority }))

  -- Interrupt 20h: `timerHandler`, then the switch.
  unfoldable pub timer_tick : ℕ → Kernel H → Option (Kernel H)
  timer_tick sp k = do
    (_, k') ← process_manager sp (record k { ticks = (k.ticks + 1) % 2 ^ 64 })
    some k'

  -- `killProcess` and `blockProcess`: a process that does it to itself gives the processor up.
  unfoldable pub stop_process : State → ℕ → ℕ → Kernel H → Option (ℤ × Kernel H)
  stop_process s sp pid k = do
    (r, k') ← set_state e k pid s
    if pid == (pcb k' k'.current).pid
        then (do k'' ← timer_tick sp k'; some (r, k''))
        else some (r, k')

  unfoldable pub kill_process : ℕ → ℕ → Kernel H → Option (ℤ × Kernel H)
  unfolding stop_process
  kill_process = stop_process State.terminated

  unfoldable pub block_process : ℕ → ℕ → Kernel H → Option (ℤ × Kernel H)
  unfolding stop_process
  block_process = stop_process State.blocked

  -- `yield`
  unfoldable pub yield : ℕ → Kernel H → Option (Kernel H)
  yield sp k = timer_tick sp (record k { cycles_left = 0 })

  unfoldable pub wait : ℕ → ℕ → Kernel H → Option (Kernel H)
  wait sp pid k = do
    p ← get_process e k pid
    if p == null then some k else (do
      let k' = update k p (record (pcb k p) { foreground = 1 })
      (_, k'') ← block_process sp (pcb k' k'.current).pid k'
      some k'')

  unfoldable pub kill_current_fg_process : ℕ → Kernel H → Option (Kernel H)
  kill_current_fg_process sp k =
      if not (k.current == null)
        && (not ((pcb k k.current).foreground == 0) && is_ready (pcb k k.current).state)
      then (do (_, k') ← kill_process sp (pcb k k.current).pid k; some k')
      else some k

-- `ticksElapsed` and `secondsElapsed`, at 18 ticks a second: the bit patterns of the `int`s.
module _ {H : Type 0} where
  unfoldable pub ticks_elapsed : Kernel H → ℕ
  ticks_elapsed k = k.ticks % 2 ^ 32

  unfoldable pub seconds_elapsed : Kernel H → ℕ
  seconds_elapsed k = (k.ticks / 18) % 2 ^ 32
