-- ===== src/Process/Exit.antt =====
-- The end of the running process in Kernel/processManagement/processManager.c: `killProcess` of itself, by
-- which programs return and exceptions stop them, and the switch that follows.
use dog_os.Prelude.{
  ℕ, ◌+◌, ◌^◌, ◌%◌, ◌<◌, ◌≡◌, ◌≢◌, refl, sym, ap, subst, ◌∙◌, true, false, ◌||◌, some, List, ◌∷◌,
  ◌++◌, arith, ◌==◌, length, length-append, ◌∉◌, inl, inr, not-mem-append, not-mem_left,
  not-mem_right,
}
use dog_os.Prelude.Int.{ℤ, pos}
use dog_os.Platform.{Platform}
use dog_os.ProcessQueue.{State, is_ready, is_terminated, Pcb, null}
use dog_os.ProcessQueue.Chain.{IsQueue}
use dog_os.Process.{
  Kernel, pcb, update, is_current, get_process, set_state, change_state, free_process,
}
use dog_os.Process.Scheduler.{
  wake_parent, retire, dispatch, switch, process_manager, timer_tick, stop_process, kill_process,
}
use dog_os.Process.Lookup.{Walk, Walk-same}
use dog_os.Process.States.{outside-IsQueue, set_pcb-SameLinks}
use dog_os.Process.Dispatch.{blocked_of, dispatch-Chosen, dispatch-none}
use dog_os.Process.Turns.{not-mem-blocked_of}
use dog_os.Process.Wake.{first_ready, wake_parent-Queued}

module _ {H : Type 0} where
  -- A process that is not queued, nor the base process, has no part in a kernel any more.
  pub record Gone (k' : Kernel H) (c : ℕ) (rest : List ℕ) : Type 0 where
    pub queue : IsQueue k'.nodes k'.processes rest
    pub not_queued : c ∉ rest
    pub not_running : k'.current ≢ c

module _ {H : Type 0} (e : Platform H) where
  dispatch-Gone :
      (k : Kernel H) (c : ℕ) (ps : List ℕ)
      → IsQueue k.nodes k.processes ps
      → c ∉ ps
      → k.base ≢ c
      → length ps < e.fuel
      → (k' : Kernel H) × (rest : List ℕ) × (dispatch e k ≡ some k') × Gone k' c rest
  dispatch-Gone k c ps v out other fuel = elim (first_ready k.nodes ps) [
    | inl none_ready ↦ (
      record k { current = k.base },
      ps,
      dispatch-none e k ps v none_ready,
      record { queue = v; not_queued = out; not_running = other },
    )
    | inr (pre, r, post, order, none_ready, ready) ↦
        let there : c ∉ (pre ++ (r ∷ post)) = subst (λ l. c ∉ l) order out in
        let long = ap length order ∙ length-append pre (r ∷ post) in
        let (k', found, chosen) =
          dispatch-Chosen e k pre r post (subst (IsQueue k.nodes k.processes) order v) none_ready
            ready (omega (arith, long, fuel)) in
        let (not_r, not_post) = not-mem_right c pre (r ∷ post) there in
        (
          k',
          post ++ blocked_of k.nodes pre,
          found,
          record {
            queue = chosen.queue;
            not_queued =
                not-mem-append c post (blocked_of k.nodes pre) not_post
                  (not-mem-blocked_of k.nodes c pre (not-mem_left c pre (r ∷ post) there));
            not_running = λ h. not_r (sym h ∙ chosen.current);
          },
        )
  ]

  retire-terminated :
      (k k' : Kernel H)
      → (pcb k k.current).pid ≢ (pcb k k.base).pid
      → (pcb k k.current).state ≡ State.terminated
      → wake_parent e k ≡ some k'
      → retire e k ≡ some (free_process e k' k'.current)
  unfolding retire
  retire-terminated k k' other dead woken =
      let e' : ((pcb k k.current).pid == (pcb k k.base).pid) ≡ false = ground arith in
      rw (e', dead, woken) refl

  -- The switch away from a TERMINATED process.
  process_manager-Gone :
      (k : Kernel H) (sp : ℕ) (ps : List ℕ)
      → k.current ≢ null
      → (pcb k k.current).state ≡ State.terminated
      → (pcb k k.current).pid ≢ (pcb k k.base).pid
      → IsQueue k.nodes k.processes ps
      → Walk k.nodes k.processes.first ps
      → k.current ∉ ps
      → length ps < e.fuel
      → (next : ℕ) × (k' : Kernel H) × (rest : List ℕ) × (process_manager e sp k ≡ some (next, k'))
        × Gone k' k.current rest
  unfolding process_manager switch free_process
  process_manager-Gone k sp ps there dead other v w out fuel =
      let c : ℕ = k.current in
      let b : Pcb = record (pcb k c) { rsp = sp } in
      let k₁ : Kernel H = update k c b in
      let v₁ : IsQueue k₁.nodes k₁.processes ps =
        outside-IsQueue k.nodes k.processes ps c b v out in
      let w₁ = Walk-same k.nodes k₁.nodes (set_pcb-SameLinks k.nodes c b) k.processes.first ps w in
      let (k₂, woken, queued) = wake_parent-Queued e k₁ ps v₁ w₁ out fuel in
      let k₃ : Kernel H = free_process e k₂ k₂.current in
      let other₁ : (pcb k₁ k₁.current).pid ≢ (pcb k₁ k₁.base).pid = ground (arith, other) in
      let dead₁ : (pcb k₁ k₁.current).state ≡ State.terminated = ground (arith, dead) in
      let base : k₃.base ≢ c = λ h. other (ap (λ p. (k.nodes p).pid) (sym h ∙ queued.base)) in
      let (k', rest, found, gone) = dispatch-Gone k₃ c ps queued.queue out base fuel in
      let here : (k.current == null) ≡ false = ground arith in
      let stopped : is_ready (pcb k k.current).state ≡ false = rw dead refl in
      let gone' : Gone (record k' { cycles_left = (pcb k' k'.current).priority }) c rest = record {
        queue = gone.queue;
        not_queued = gone.not_queued;
        not_running = gone.not_running;
      } in
      (
        (pcb k' k'.current).rsp,
        record k' { cycles_left = (pcb k' k'.current).priority },
        rest,
        rw (here, stopped, retire-terminated k₁ k₂ other₁ dead₁ woken, found) refl,
        gone',
      )

  -- The running process is found first, and its state set.
  set_state-running :
      (k : Kernel H) (s : State)
      → k.current ≢ null
      → is_terminated (pcb k k.current).state ≡ false
      → set_state e k (pcb k k.current).pid s
        ≡ some
            (pos (pcb k k.current).pid, update k k.current (record (pcb k k.current) { state = s }))
  unfolding set_state get_process change_state
  set_state-running k s there alive =
      let running : is_current k (pcb k k.current).pid ≡ true = ground arith in
      let real : ((k.current == null) || is_terminated (pcb k k.current).state) ≡ false =
        ground arith in
      let same : (k.current == k.current) ≡ true = ground arith in rw (running, real, same) refl

  kill_process-itself :
      (k k₀ k' : Kernel H) (sp pid : ℕ) (r : ℤ)
      → set_state e k pid State.terminated ≡ some (r, k₀)
      → (pid == (pcb k₀ k₀.current).pid) ≡ true
      → timer_tick e sp k₀ ≡ some k'
      → kill_process e sp pid k ≡ some (r, k')
  unfolding kill_process stop_process
  kill_process-itself k k₀ k' sp pid r done itself switched = rw (done, itself, switched) refl

  timer_tick-some :
      (k k' : Kernel H) (sp next : ℕ)
      → process_manager e sp (record k { ticks = (k.ticks + 1) % 2 ^ 64 }) ≡ some (next, k')
      → timer_tick e sp k ≡ some k'
  unfolding timer_tick
  timer_tick-some k k' sp next found = rw found refl

  -- `killProcess` of the running process, which is neither the base process nor TERMINATED already, returns
  -- when the queue is well-formed, its links end in NULL and the fuel is more than its length: another
  -- process runs then, and this one is neither running nor queued, in a queue that is well-formed.
  pub kill_process-Gone :
      (k : Kernel H) (sp : ℕ) (ps : List ℕ)
      → k.current ≢ null
      → is_terminated (pcb k k.current).state ≡ false
      → (pcb k k.current).pid ≢ (pcb k k.base).pid
      → IsQueue k.nodes k.processes ps
      → Walk k.nodes k.processes.first ps
      → k.current ∉ ps
      → length ps < e.fuel
      → (k' : Kernel H) × (rest : List ℕ) × (kill_process e sp (pcb k k.current).pid k
          ≡ some (pos (pcb k k.current).pid, k'))
        × Gone k' k.current rest
  kill_process-Gone k sp ps there alive other v w out fuel =
      let c : ℕ = k.current in
      let b : Pcb = record (pcb k c) { state = State.terminated } in
      let k₀ : Kernel H = update k c b in
      let k₁ : Kernel H = record k₀ { ticks = (k.ticks + 1) % 2 ^ 64 } in
      let (next, k', rest, found, gone) =
        process_manager-Gone k₁ sp ps there (ground arith) (ground (arith, other))
          (outside-IsQueue k.nodes k.processes ps c b v out)
          (Walk-same k.nodes k₀.nodes (set_pcb-SameLinks k.nodes c b) k.processes.first ps w) out
          fuel in
      let itself : ((pcb k c).pid == (pcb k₀ c).pid) ≡ true = ground arith in
      (
        k',
        rest,
        kill_process-itself k k₀ k' sp (pcb k c).pid (pos (pcb k c).pid)
            (set_state-running k State.terminated there alive) itself
            (timer_tick-some k₀ k' sp next found),
        gone,
      )
