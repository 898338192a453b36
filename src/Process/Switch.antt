-- ===== src/Process/Switch.antt =====
-- `processManager` of Kernel/processManagement/processManager.c: a whole switch, from the process
-- that leaves the processor to the one that gets it.
use dog_os.Prelude.{
  ℕ, ◌+◌, ◌^◌, ◌<◌, ◌≡◌, ◌≢◌, ◌∙◌, ap, true, false, ◌&&◌, some, List, [], ◌∷◌, ◌++◌, arith, ltb,
  ◌==◌, if◌then◌else◌, length, ◌∉◌,
}
use dog_os.Platform.{Platform}
use dog_os.ProcessQueue.{is_ready, is_terminated, Pcb, Memory, null}
use dog_os.ProcessQueue.Chain.{IsQueue, IsQueue-same, SameStates}
use dog_os.Process.{Kernel, pcb, update}
use dog_os.Process.Scheduler.{enqueue, retire, dispatch, switch, process_manager}
use dog_os.Process.Dispatch.{
  NoneReady, blocked_of, enqueue-Chosen, dispatch-Chosen, NoneReady-same, blocked_of-same,
}

-- Two memories have the same states, priorities and pids.
abbrev pub SameWork : Memory → Memory → Type 0
SameWork m n =
    (q : ℕ)
    → ((n q).state ≡ (m q).state) × ((n q).priority ≡ (m q).priority) × ((n q).pid ≡ (m q).pid)

module _ {H : Type 0} (e : Platform H) where
  -- The kernel in which the stack pointer of the running process is saved.
  abbrev saved : ℕ → Kernel H → Kernel H
  saved sp k = update k k.current (record (pcb k k.current) { rsp = sp })

  -- The running process gives the processor up alive: it is not TERMINATED, not the base process,
  -- and its time is over or it is not READY any more.
  abbrev pub Leaves : Kernel H → Type 0
  Leaves k =
      (k.current ≢ null)
      × ((pcb k k.current).pid ≢ (pcb k k.base).pid)
      × (is_terminated (pcb k k.current).state ≡ false)
      × ((is_ready (pcb k k.current).state && ltb 0 k.cycles_left) ≡ false)

  saved-work :
      (k : Kernel H) (sp : ℕ) (n : Memory)
      → ((q : ℕ) → (n q).pcb ≡ ((saved sp k).nodes q).pcb)
      → SameWork k.nodes n
  saved-work k sp n h q =
      let there = h q in (ground (arith, there), ground (arith, there), ground (arith, there))

  -- The steps of a switch, put together.
  retire-alive :
      (k : Kernel H)
      → (pcb k k.current).pid ≢ (pcb k k.base).pid
      → is_terminated (pcb k k.current).state ≡ false
      → retire e k ≡ some (enqueue k k.current)
  unfolding retire
  retire-alive k other alive =
      let e' : ((pcb k k.current).pid == (pcb k k.base).pid) ≡ false = ground arith in
      rw (e', alive)

  process_manager-some :
      (k k₁ k' : Kernel H) (sp : ℕ)
      → k.current ≢ null
      → (is_ready (pcb k k.current).state && ltb 0 k.cycles_left) ≡ false
      → retire e (saved sp k) ≡ some k₁
      → dispatch e k₁ ≡ some k'
      → process_manager e sp k
        ≡ some ((pcb k' k'.current).rsp, record k' { cycles_left = (pcb k' k'.current).priority })
  unfolding process_manager switch
  process_manager-some k k₁ k' sp running over a b =
      let there : (k.current == null) ≡ false = ground arith in rw (there, over, a, b)

  -- What a switch to the process `r` makes of a kernel: `rest` is queued, and every process keeps its
  -- state, its priority and its pid.
  pub record Switched (k k' : Kernel H) (r : ℕ) (rest : List ℕ) : Type 0 where
    pub current : k'.current ≡ r
    pub queue : IsQueue k'.nodes k'.processes rest
    pub cycles_left : k'.cycles_left ≡ (k.nodes r).priority
    pub base : k'.base ≡ k.base
    pub work : SameWork k.nodes k'.nodes

  pub process_manager-Switched :
      (k : Kernel H) (sp : ℕ) (ps pre : List ℕ) (r : ℕ) (post : List ℕ)
      → Leaves k
      → IsQueue k.nodes k.processes ps
      → k.current ∉ ps
      → ps ++ (k.current ∷ []) ≡ pre ++ (r ∷ post)
      → NoneReady k.nodes pre
      → is_ready (k.nodes r).state ≡ true
      → length pre < e.fuel
      → length ps + 1 < 2 ^ 32
      → (k' : Kernel H) × (process_manager e sp k
          ≡ some (if r == k.current then sp else (k.nodes r).rsp, k'))
        × Switched k k' r (post ++ blocked_of k.nodes pre)
  process_manager-Switched k sp ps pre r post leaves v out order none_ready h enough small =
      let k₀ : Kernel H = saved sp k in
      let states : SameStates k.nodes k₀.nodes = λ q. ground arith in
      let v₀ : IsQueue k₀.nodes k₀.processes ps =
        IsQueue-same k.nodes k₀.nodes k.processes ps (λ q. ground arith) states v in
      let queued = enqueue-Chosen k₀ k.current ps v₀ out small in
      let k₁ : Kernel H = enqueue k₀ k.current in
      let states₁ : SameStates k.nodes k₁.nodes =
        λ q. ap (λ (b : Pcb). b.state) (queued.pcbs q) ∙ states q in
      let (k', found, chosen) =
        dispatch-Chosen e k₁ pre r post (rw order at queued.queue)
          (NoneReady-same k.nodes k₁.nodes states₁ pre none_ready) (ground (arith, states₁ r, h))
          enough in
      let retired : retire e k₀ ≡ some k₁ =
        retire-alive k₀ (ground (arith, leaves.1)) (ground (arith, leaves.2)) in
      let pcbs : (q : ℕ) → (k'.nodes q).pcb ≡ (k₀.nodes q).pcb =
        λ q. chosen.pcbs q ∙ queued.pcbs q in
      let rsp : (pcb k' r).rsp ≡ (if r == k.current then sp else (k.nodes r).rsp) =
        ap (λ (b : Pcb). b.rsp) (pcbs r) ∙ ground arith in
      let work : SameWork k.nodes k'.nodes = saved-work k sp k'.nodes pcbs in
      (
        record k' { cycles_left = (pcb k' k'.current).priority },
        process_manager-some k k₁ k' sp leaves.0 leaves.3 retired found
            ∙ rw chosen.current (rw rsp),
        record {
          current = chosen.current;
          queue = rw (← blocked_of-same k.nodes k₁.nodes states₁ pre) chosen.queue;
          cycles_left = rw chosen.current (work r).1;
          base = chosen.base ∙ queued.base;
          work = work;
        },
      )

  -- When the running process, which is not the base process and not TERMINATED, has used its ticks or
  -- is not READY, it is queued behind the others, and the first READY one of them all gets the
  -- processor, for as many ticks as its priority, at its saved stack pointer. The BLOCKED ones before
  -- it are at the end of the queue now, the TERMINATED ones are gone. The loop ends, with more fuel than
  -- there are processes before the READY one; the queue is shorter than a 32-bit counter can tell.
  pub process_manager-switch :
      (k : Kernel H) (sp : ℕ) (ps pre : List ℕ) (r : ℕ) (post : List ℕ)
      → Leaves k
      → IsQueue k.nodes k.processes ps
      → k.current ∉ ps
      → ps ++ (k.current ∷ []) ≡ pre ++ (r ∷ post)
      → NoneReady k.nodes pre
      → is_ready (k.nodes r).state ≡ true
      → length pre < e.fuel
      → length ps + 1 < 2 ^ 32
      → (k' : Kernel H) × (process_manager e sp k
          ≡ some (if r == k.current then sp else (k.nodes r).rsp, k'))
        × (k'.current ≡ r)
        × IsQueue k'.nodes k'.processes (post ++ blocked_of k.nodes pre)
        × (k'.cycles_left ≡ (k.nodes r).priority)
  process_manager-switch k sp ps pre r post leaves v out order none_ready h enough small =
      let (k', found, s) =
        process_manager-Switched k sp ps pre r post leaves v out order none_ready h enough small in
      (k', found, s.current, s.queue, s.cycles_left)
