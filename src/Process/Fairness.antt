-- ===== src/Process/Fairness.antt =====
-- Timer ticks one after another on `processManager`: how long a READY process waits for the processor.
use dog_os.Prelude.{
  ℕ, zero, suc, ◌+◌, ◌-◌, ◌%◌, ◌^◌, ◌<◌, ◌≡◌, refl, sym, ap, subst, ◌≢◌, ◌∙◌, true, false, not,
  ◌&&◌, Option, some, ◌>>=◌, List, [], ◌∷◌, ◌++◌, append_assoc, arith, ltb, ◌==◌, if◌then◌else◌,
  length, length-append, ◌∉◌, Distinct, inl, inr, Bool-cases, not-mem-append, Distinct-rotate,
}
use dog_os.Platform.{Platform}
use dog_os.ProcessQueue.{is_ready, is_terminated, Node, null}
use dog_os.ProcessQueue.Chain.{IsQueue}
use dog_os.Process.{Kernel, pcb}
use dog_os.Process.Scheduler.{process_manager, timer_tick}
use dog_os.Process.Dispatch.{NoneReady, blocked_of}
use dog_os.Process.Switch.{SameWork, process_manager-Switched}
use dog_os.Process.Turns.{
  turns, Ordinary, turns-same, Ordinary-same, ready-alive, NoneReady-append, not-mem-blocked_of,
  length-blocked_of, Distinct-middle,
}

module _ {H : Type 0} (e : Platform H) where
  -- Timer ticks, at the given stack pointers, with nothing else in between.
  unfoldable pub timer_ticks : List ℕ → Kernel H → Option (Kernel H)
  unfolding timer_tick
  timer_ticks [] k = some k
  timer_ticks (sp ∷ sps) k = timer_tick e sp k >>= timer_ticks sps

module _ {H : Type 0} where
  -- The ticks that are left to the running process.
  abbrev pub left : Kernel H → ℕ
  left k = if is_ready (pcb k k.current).state then k.cycles_left else 0

-- A process has the processor, which is neither the base process nor TERMINATED, and the queue is
-- well-formed and shorter than the fuel and than a 32-bit counter can tell.
pub record Runs {H : Type 0} (e : Platform H) (k : Kernel H) (ps : List ℕ) : Type 0 where
  pub current : k.current ≢ null
  pub other : (pcb k k.current).pid ≢ (pcb k k.base).pid
  pub alive : is_terminated (pcb k k.current).state ≡ false
  pub queue : IsQueue k.nodes k.processes ps
  pub out : k.current ∉ ps
  pub enough : length ps < e.fuel
  pub small : length ps + 1 < 2 ^ 32

module _ {H : Type 0} (e : Platform H) where
  -- A switch, to the first READY process `r`, which then runs.
  Runs-switch :
      (k : Kernel H) (sp : ℕ) (ps pre : List ℕ) (r : ℕ) (post : List ℕ)
      → Runs e k ps
      → (is_ready (pcb k k.current).state && ltb 0 k.cycles_left) ≡ false
      → ps ++ (k.current ∷ []) ≡ pre ++ (r ∷ post)
      → NoneReady k.nodes pre
      → is_ready (k.nodes r).state ≡ true
      → r ≢ null
      → (k.nodes r).pid ≢ (pcb k k.base).pid
      → (k' : Kernel H) × (timer_tick e sp k ≡ some k')
        × Runs e k' (post ++ blocked_of k.nodes pre)
        × (k'.current ≡ r)
        × (left k' ≡ (k.nodes r).priority)
        × (k'.base ≡ k.base)
        × SameWork k.nodes k'.nodes
  unfolding timer_tick
  Runs-switch k sp ps pre r post runs over order none_ready ready some_process other =
      let k₀ : Kernel H = record k { ticks = (k.ticks + 1) % 2 ^ 64 } in
      let long : length ps + 1 ≡ length pre + suc (length post) =
        sym (length-append ps (k.current ∷ [])) ∙ ap length order ∙ length-append pre (r ∷ post) in
      let short = length-blocked_of k.nodes pre in
      let whole = length-append post (blocked_of k.nodes pre) in
      let (behind, before) =
        Distinct-middle pre r post
          (subst Distinct order (Distinct-rotate k.current ps runs.out runs.queue.distinct)) in
      let (k', found, s) =
        process_manager-Switched e k₀ sp ps pre r post (runs.current, runs.other, runs.alive, over)
          runs.queue runs.out order none_ready ready (ground (arith, runs.enough, long))
          runs.small in
      let work = s.work in
      let here : k'.nodes k'.current ≡ k'.nodes r = ap k'.nodes s.current in
      let is_ready' : is_ready (pcb k' k'.current).state ≡ true =
        ground (arith, here, (work r).0, ready) in
      (
        k',
        rw found,
        record {
          current = ground (arith, s.current, some_process);
          other = λ h. other (
              sym (work r).2
              ∙ sym (ap (λ (n : Node). n.pid) here)
              ∙ h
              ∙ ap (λ p. (k'.nodes p).pid) s.base
              ∙ (work k.base).2);
          alive = ready-alive _ is_ready';
          queue = s.queue;
          out = rw s.current (
              not-mem-append r post (blocked_of k.nodes pre) behind
                (not-mem-blocked_of k.nodes r pre before));
          enough = ground (arith, runs.enough, long, short, whole);
          small = ground (arith, runs.small, long, short, whole);
        },
        s.current,
        rw is_ready' s.cycles_left,
        s.base,
        work,
      )

  -- The ticks that are left to the running process pass, and one more, which gives the processor to the
  -- first READY process.
  Runs-turn :
      (c : ℕ) (k : Kernel H) (sps : List ℕ) (n : ℕ) (ps pre : List ℕ) (r : ℕ) (post : List ℕ)
      → Runs e k ps
      → ps ++ (k.current ∷ []) ≡ pre ++ (r ∷ post)
      → NoneReady k.nodes pre
      → is_ready (k.nodes r).state ≡ true
      → r ≢ null
      → (k.nodes r).pid ≢ (pcb k k.base).pid
      → left k ≡ c
      → length sps ≡ c + suc n
      → (k' : Kernel H) × (rest : List ℕ) × (timer_ticks e sps k ≡ timer_ticks e rest k')
        × (length rest ≡ n)
        × Runs e k' (post ++ blocked_of k.nodes pre)
        × (k'.current ≡ r)
        × (left k' ≡ (k.nodes r).priority)
        × (k'.base ≡ k.base)
        × SameWork k.nodes k'.nodes
  unfolding timer_ticks timer_tick process_manager
  Runs-turn c k [] n ps pre r post runs order none_ready ready there other h long =
      absurd (omega (arith, long))
  Runs-turn zero k (sp ∷ sps) n ps pre r post runs order none_ready ready there other h long =
      let (k', found, runs', current, priority, base, work) =
        Runs-switch k sp ps pre r post runs (ground (arith, h)) order none_ready ready there
          other in
      (k', sps, rw found, omega (arith, long), runs', current, priority, base, work)
  Runs-turn (suc c) k (sp ∷ sps) n ps pre r post runs order none_ready ready there other h long =
      let k₁ : Kernel H = record k {
        ticks = (k.ticks + 1) % 2 ^ 64;
        cycles_left = k.cycles_left - 1;
      } in
      let on : (not (k.current == null)
            && (is_ready (pcb k k.current).state && ltb 0 k.cycles_left))
          ≡ true =
        ground (arith, runs.current, h) in
      let runs₁ : Runs e k₁ ps = record {
        current = runs.current;
        other = runs.other;
        alive = runs.alive;
        queue = runs.queue;
        out = runs.out;
        enough = runs.enough;
        small = runs.small;
      } in
      let (k', rest, same, rest_long, runs', current, priority, base, work) =
        Runs-turn c k₁ sps n ps pre r post runs₁ order none_ready ready there other
          (ground (arith, h)) (omega (arith, long)) in
      (k', rest, rw (on, timer_ticks) same, rest_long, runs', current, priority, base, work)

  -- The processes `pre` were passed over, `before` and then `r` are next.
  turn :
      (before : List ℕ) (k : Kernel H) (pre : List ℕ) (r : ℕ) (after sps : List ℕ)
      → Runs e k (pre ++ (before ++ (r ∷ after)))
      → NoneReady k.nodes pre
      → Ordinary k.nodes (pcb k k.base).pid (before ++ (r ∷ []))
      → is_ready (k.nodes r).state ≡ true
      → length sps ≡ left k + suc (turns k.nodes before)
      → (k' : Kernel H) × (timer_ticks e sps k ≡ some k')
        × (k'.current ≡ r)
        × (left k' ≡ (k.nodes r).priority)
  unfolding timer_ticks
  turn [] k pre r after sps runs none_ready ordinary ready long =
      let (k', rest, same, none_left, runs', current, priority, base, work) =
        Runs-turn (left k) k sps zero (pre ++ (r ∷ after)) pre r (after ++ (k.current ∷ [])) runs
          (append_assoc pre (r ∷ after) (k.current ∷ [])) none_ready ready ordinary.0 ordinary.1
          refl long in
      (k', same ∙ none rest k' none_left, current, priority)
    where
      none : (rest : List ℕ) (k' : Kernel H) → length rest ≡ 0 → timer_ticks e rest k' ≡ some k'
      none [] k' h = refl
      none (sp ∷ rest) k' h = absurd (omega (arith, h))
  turn (x ∷ before) k pre r after sps runs none_ready ordinary ready long =
      elim (Bool-cases (is_ready (k.nodes x).state)) [
        | inr busy ↦
            turn before k (pre ++ (x ∷ [])) r after sps
              (rw (append_assoc pre (x ∷ []) (before ++ (r ∷ after))) runs)
              (NoneReady-append k.nodes pre x none_ready busy) ordinary.2 ready
              (ground (arith, long, busy))
        | inl first ↦
            let (k₁, rest, same, rest_long, runs₁, current, priority, base, work) =
              Runs-turn (left k) k sps ((k.nodes x).priority + suc (turns k.nodes before))
                (pre ++ (x ∷ (before ++ (r ∷ after)))) pre x
                ((before ++ (r ∷ after)) ++ (k.current ∷ [])) runs
                (append_assoc pre (x ∷ (before ++ (r ∷ after))) (k.current ∷ [])) none_ready first
                ordinary.0 ordinary.1 refl (ground (arith, long, first)) in
            let back : List ℕ = blocked_of k.nodes pre in
            let queued =
              ap (λ l. l ++ back) (append_assoc before (r ∷ after) (k.current ∷ []))
              ∙ append_assoc before (r ∷ (after ++ (k.current ∷ []))) back in
            let (k', found, current', priority') =
              turn before k₁ [] r ((after ++ (k.current ∷ [])) ++ back) rest
                (subst (Runs e k₁) queued runs₁) tt
                (Ordinary-same k.nodes k₁.nodes work (pcb k k.base).pid (pcb k₁ k₁.base).pid
                  (sym (ap (λ p. (k₁.nodes p).pid) base ∙ (work k.base).2)) (before ++ (r ∷ []))
                  ordinary.2)
                (ap is_ready (work r).0 ∙ ready)
                (ground (arith, rest_long, priority, turns-same k.nodes k₁.nodes work before)) in
            (k', same ∙ found, current', priority' ∙ (work r).1)
      ]

  -- With timer ticks alone, a READY process gets the processor after exactly the ticks that are left to
  -- the running process and one more, and those of the READY processes before it, each of which has its
  -- priority and one more. The running process, and those up to this one, are processes other than the
  -- base process, and the running one is not TERMINATED; the queue is well-formed, and shorter than the
  -- fuel and than a 32-bit counter can tell.
  pub timer_ticks-turn :
      (k : Kernel H) (before : List ℕ) (r : ℕ) (after sps : List ℕ)
      → Runs e k (before ++ (r ∷ after))
      → Ordinary k.nodes (pcb k k.base).pid (before ++ (r ∷ []))
      → is_ready (k.nodes r).state ≡ true
      → length sps ≡ left k + suc (turns k.nodes before)
      → (k' : Kernel H) × (timer_ticks e sps k ≡ some k')
        × (k'.current ≡ r)
        × (left k' ≡ (k.nodes r).priority)
  timer_ticks-turn k before r after sps runs ordinary ready long =
      turn before k [] r after sps runs tt ordinary ready long
