-- ===== src/Process/Create.antt =====
-- The creation of processes in Kernel/processManagement/processManager.c: `newProcess` and what it
-- calls, and `initializeProcessManager`. An argument vector is the list of its strings, so `argc` is
-- its length; names are shorter than the 30 bytes of the field.
use dog_os.Prelude.{
  ℕ, ◌+◌, ◌-◌, ◌*◌, ◌%◌, Bool, true, false, not, ◌&&◌, ◌||◌, Option, none, some, List, [], ◌∷◌, ltb,
  ◌==◌, if◌then◌else◌, ◌>>=◌, length,
}
use mathlib.Core.List.{reverse}
use dog_os.Prelude.Int.{ℤ, pos, minus_one}
use dog_os.Platform.{Platform}
use dog_os.ProcessQueue.{State, ProcessList, null, dequeue_process}
use dog_os.Process.{StackFrame, Kernel, pcb, update, size_of_stack, free_all}
use dog_os.Process.Scheduler.{enqueue, block_process}

-- `sizeof` of `t_process_node`, `t_stackFrame`, `char *` and `t_process_list`.
abbrev pub size_of_node : ℕ
size_of_node = 104

abbrev pub size_of_frame : ℕ
size_of_frame = 184

abbrev pub size_of_pointer : ℕ
size_of_pointer = 8

abbrev pub size_of_list : ℕ
size_of_list = 24

-- What `argv[0]` points at.
abbrev pub first_string : List (List ℕ) → List ℕ
first_string [] = []
first_string (s ∷ ss) = s

-- `initializeProcessStackFrame`, for the frame that stands at `at`.
unfoldable pub stack_frame : (wrapper entry argc argv at : ℕ) → StackFrame
stack_frame wrapper entry argc argv at = record {
  gs = 0x001;
  fs = 0x002;
  r15 = 0x003;
  r14 = 0x004;
  r13 = 0x005;
  r12 = 0x006;
  r11 = 0x007;
  r10 = 0x008;
  r9 = 0x009;
  r8 = 0x00A;
  rsi = argc;
  rdi = entry;
  rbp = 0x00B;
  rdx = argv;
  rcx = 0x00C;
  rbx = 0x00D;
  rax = 0x00E;
  rip = wrapper;
  cs = 0x008;
  eflags = 0x202;
  rsp = at + (size_of_frame - 8);
  ss = 0x000;
  base = 0x000;
}

module _ {H : Type 0} (e : Platform H) where
  -- `getArguments`: a copy of each string. `copied` holds the copies made, the last one first; they
  -- are freed in that order when an allocation fails.
  unfoldable pub get_arguments : H → List ℕ → List (List ℕ) → Option (List ℕ) × H
  get_arguments h copied [] = (some (reverse copied), h)
  get_arguments h copied (s ∷ ss) =
      let (p, h') = e.malloc h (length s + 1) in
      let rest = get_arguments h' (p ∷ copied) ss in
      if p == null then (none, free_all e h' copied) else rest

  -- `initializeProcessControlBlock` on the node at `p`: whether it succeeds, and the kernel. `fd` is
  -- `none` for a NULL pointer.
  unfoldable pub initialize_pcb : ℕ → List ℕ → ℕ → Option (ℤ × ℤ) → Kernel H → Bool × Kernel H
  initialize_pcb p name foreground fd k =
      let fg = foreground % 256 in
      let none_yet = k.current == null in
      let parent = pcb k k.current in
      let k₁ =
        record (update k p (record (pcb k p) {
          name = name;
          pid = k.next_pid;
          ppid = if none_yet then 0 else parent.pid;
        })) { next_pid = k.next_pid + 1 } in
      let in_foreground = if none_yet || not (parent.foreground == 0) then fg else 0 in
      let (stack, h) = e.malloc k₁.heap size_of_stack in
      let k₂ =
        record (update k₁ p (record (pcb k₁ p) {
          foreground = in_foreground;
          rbp = stack;
          priority = if in_foreground == 0 then 1 else 2;
          input = elim fd [ none ↦ pos 0 | some (i, o) ↦ i ];
          output = elim fd [ none ↦ pos 1 | some (i, o) ↦ o ];
        })) { heap = h } in
      let top = stack + size_of_stack - 1 in
      if ltb 1 fg
      then (false, k₁)
      else if stack == null
      then (false, k₂)
      else (true, update k₂ p (record (pcb k₂ p) { rbp = top; rsp = top - size_of_frame }))

  -- `newProcess` from the point where nothing can fail any more.
  unfoldable pub launch : ℕ → (entry argc argv : ℕ) → List ℕ → Kernel H → Kernel H
  launch p entry argc argv args k =
      let at = (pcb k p).rbp - size_of_frame in
      let frame = stack_frame e.wrapper entry argc argv at in
      let k₁ =
        update k p
          (record (pcb k p) { argc = argc; argv = argv; args = args; state = State.ready }) in
      enqueue (record k₁ { frames = λ a. if a == at then frame else k₁.frames a }) p

  abbrev pub free_at : Kernel H → ℕ → Kernel H
  free_at k p = record k { heap = e.free k.heap p }

  -- The process that `newProcess` builds, before it is told whether to block the parent: its node,
  -- or NULL.
  unfoldable pub build : (entry : ℕ) → List (List ℕ) → ℕ → Option (ℤ × ℤ) → Kernel H → ℕ × Kernel H
  build entry argv foreground fd k =
      let (p, h) = e.malloc k.heap size_of_node in
      let (done, k₁) = initialize_pcb p (first_string argv) foreground fd (record k { heap = h }) in
      let (array, h₁) = e.malloc k₁.heap (size_of_pointer * length argv) in
      let k₂ = record k₁ { heap = h₁ } in
      let (args, h₂) = get_arguments h₁ [] argv in
      let k₃ = record k₂ { heap = h₂ } in
      if entry == null
      then (null, k)
      else if p == null
      then (null, record k { heap = h })
      else if not done
      then (null, free_at k₁ p)
      else if array == null
      then (null, free_at k₂ p)
      else elim args [
        | none ↦ (null, free_at (free_at k₃ p) array)
        | some as' ↦ (p, launch p entry (length argv) array as' k₃)
      ]

  unfoldable pub new_process :
      (sp entry : ℕ) → List (List ℕ) → ℕ → Option (ℤ × ℤ) → Kernel H → Option (ℤ × Kernel H)
  new_process sp entry argv foreground fd k =
      let (p, k₁) = build entry argv foreground fd k in
      let b = pcb k₁ p in
      if p == null
      then some (minus_one, k₁)
      else if not (b.foreground == 0) && not (b.ppid == 0)
      then (do (_, k₂) ← block_process e sp b.ppid k₁; some (pos (pcb k₂ p).pid, k₂))
      else some (pos b.pid, k₁)

  -- The list is not built where `malloc` fails; the first process becomes the base process.
  unfoldable pub initialize_process_manager : ℕ → List ℕ → Kernel H → Option (Kernel H)
  initialize_process_manager sp name k =
      let (list, h) = e.malloc k.heap size_of_list in
      let empty : ProcessList = record { size = 0; ready_size = 0; first = null; last = null } in
      if list == null then some (record k { heap = h }) else (do
        (_, k') ←
            new_process sp e.idle (name ∷ []) 0 none (record k { heap = h; processes = empty })
        let (p, l) = dequeue_process k'.nodes k'.processes
        some (record k' { base = p; processes = l }))
