-- ===== src/Process/Dispatch.antt =====
-- The loop by which `processManager` chooses the next process, against the list of the queued
-- processes: which one is chosen, what the queue is afterwards, and that the loop ends.
use dog_os.Prelude.{
  ℕ, zero, suc, ◌+◌, ◌^◌, ◌<◌, ◌≡◌, refl, ◌∙◌, ap, true, false, some, List, [], ◌∷◌, ◌++◌,
  append-nil, append_assoc, arith, ltb, if◌then◌else◌, length, ◌∉◌, ◌⊎◌, inl, inr, Bool-cases,
}
use dog_os.Platform.{Platform}
use dog_os.ProcessQueue.{Pcb, State, is_ready, is_blocked, Memory}
use dog_os.ProcessQueue.Chain.{IsQueue, SameStates, count_ready, count_ready-append}
use dog_os.ProcessQueue.Refine.{queue_process-append, queue_process-pcb, dequeue_process-cons}
use dog_os.Process.{Kernel, pcb, free_process}
use dog_os.Process.Scheduler.{enqueue, take_next, settle, skip, dispatch}

-- The processes that are not READY, and of some processes those that are BLOCKED.
abbrev pub NoneReady : Memory → List ℕ → Type 0
NoneReady m [] = Unit
NoneReady m (p ∷ ps) = (is_ready (m p).state ≡ false) × NoneReady m ps

abbrev pub blocked_of : Memory → List ℕ → List ℕ
blocked_of m [] = []
blocked_of m (p ∷ ps) = if is_blocked (m p).state then p ∷ blocked_of m ps else blocked_of m ps

abbrev pub SamePcbs : Memory → Memory → Type 0
SamePcbs m n = (p : ℕ) → (n p).pcb ≡ (m p).pcb

abbrev pub states_of : (m n : Memory) → SamePcbs m n → SameStates m n
states_of m n s p = ap (λ (b : Pcb). b.state) (s p)

pub NoneReady-same :
    (m n : Memory) → SameStates m n → (ps : List ℕ) → NoneReady m ps → NoneReady n ps
NoneReady-same m n s [] h = tt
NoneReady-same m n s (p ∷ ps) h = (ground (arith, s p, h.0), NoneReady-same m n s ps h.1)

pub blocked_of-same :
    (m n : Memory) → SameStates m n → (ps : List ℕ) → blocked_of n ps ≡ blocked_of m ps
blocked_of-same m n s [] = refl
blocked_of-same m n s (p ∷ ps) = ground (arith, s p, blocked_of-same m n s ps)

NoneReady-count_ready : (m : Memory) (ps : List ℕ) → NoneReady m ps → count_ready m ps ≡ 0
unfolding count_ready
NoneReady-count_ready m [] h = refl
NoneReady-count_ready m (p ∷ ps) h = ground (arith, h.0, NoneReady-count_ready m ps h.1)

count_ready-pos :
    (m : Memory) (p : ℕ) (ps : List ℕ) → is_ready (m p).state ≡ true → 0 < count_ready m (p ∷ ps)
unfolding count_ready
count_ready-pos m p ps h = ground arith

joined :
    (m : Memory) (c x : ℕ) (ps : List ℕ)
    → c ≡ x
    → blocked_of m (c ∷ []) ++ blocked_of m ps ≡ blocked_of m (x ∷ ps)
joined m c x ps h =
    rw h (elim (Bool-cases (is_blocked (m x).state)) [ inl b ↦ rw b | inr b ↦ rw b ])

module _ {H : Type 0} where
  -- What choosing the process `r` makes of a kernel: `rest` is queued, every pcb stays.
  pub record Chosen (k k' : Kernel H) (r : ℕ) (rest : List ℕ) : Type 0 where
    pub current : k'.current ≡ r
    pub queue : IsQueue k'.nodes k'.processes rest
    pub pcbs : SamePcbs k.nodes k'.nodes
    pub base : k'.base ≡ k.base
    pub next_pid : k'.next_pid ≡ k.next_pid
    pub ticks : k'.ticks ≡ k.ticks

  take_next-Chosen :
      (k : Kernel H) (p : ℕ) (ps : List ℕ)
      → IsQueue k.nodes k.processes (p ∷ ps)
      → Chosen k (take_next k) p ps
  take_next-Chosen k p ps v =
      let (a, b) = dequeue_process-cons p ps v in
      record {
        current = a;
        queue = b;
        pcbs = λ q. refl;
        base = refl;
        next_pid = refl;
        ticks = refl;
      }

  pub enqueue-Chosen :
      (k : Kernel H) (p : ℕ) (ps : List ℕ)
      → IsQueue k.nodes k.processes ps
      → p ∉ ps
      → length ps + 1 < 2 ^ 32
      → Chosen k (enqueue k p) k.current (ps ++ (p ∷ []))
  enqueue-Chosen k p ps v out small = record {
    current = refl;
    queue = queue_process-append p ps v out small;
    pcbs = queue_process-pcb k.nodes k.processes p;
    base = refl;
    next_pid = refl;
    ticks = refl;
  }

  pub Chosen-trans :
      (k k₁ k₂ : Kernel H) (p q : ℕ) (ps qs : List ℕ)
      → Chosen k k₁ p ps
      → Chosen k₁ k₂ q qs
      → Chosen k k₂ q qs
  Chosen-trans k k₁ k₂ p q ps qs a b = record {
    current = b.current;
    queue = b.queue;
    pcbs = λ x. b.pcbs x ∙ a.pcbs x;
    base = b.base ∙ a.base;
    next_pid = b.next_pid ∙ a.next_pid;
    ticks = b.ticks ∙ a.ticks;
  }

State-cases : (s : State) → (s ≡ State.ready) ⊎ ((s ≡ State.blocked) ⊎ (s ≡ State.terminated))
State-cases State.ready = inl refl
State-cases State.blocked = inr (inl refl)
State-cases State.terminated = inr (inr refl)

module _ {H : Type 0} (e : Platform H) where
  -- A process that is not READY goes to the end of the queue if it is BLOCKED, and is dropped if not.
  settle-Chosen :
      (k : Kernel H) (ps : List ℕ)
      → IsQueue k.nodes k.processes ps
      → k.current ∉ ps
      → length ps + 1 < 2 ^ 32
      → Chosen k (settle e k) k.current (ps ++ blocked_of k.nodes (k.current ∷ []))
  unfolding settle free_process
  settle-Chosen k ps v out small = elim (State-cases (pcb k k.current).state) [
    | inl h ↦ rw (h, h, append-nil) unchanged
    | inr (inl h) ↦ rw (h, h) (enqueue-Chosen k k.current ps v out small)
    | inr (inr h) ↦ rw (h, h, append-nil) freed
  ]
    where
      unchanged : Chosen k k k.current ps
      unchanged = record {
        current = refl;
        queue = v;
        pcbs = λ q. refl;
        base = refl;
        next_pid = refl;
        ticks = refl;
      }

      freed : Chosen k (free_process e k k.current) k.current ps
      freed = record {
        current = refl;
        queue = v;
        pcbs = λ q. refl;
        base = refl;
        next_pid = refl;
        ticks = refl;
      }

  -- The loop passes over the processes `pre` that are not READY, and stops at `r`.
  skip-Chosen :
      (fuel : ℕ) (k : Kernel H) (pre : List ℕ) (r : ℕ) (post : List ℕ)
      → IsQueue k.nodes k.processes (pre ++ (r ∷ post))
      → NoneReady k.nodes pre
      → is_ready (k.nodes r).state ≡ true
      → length pre < fuel
      → (k' : Kernel H) × (skip e fuel (take_next k) ≡ some k')
        × Chosen k k' r (post ++ blocked_of k.nodes pre)
  unfolding skip
  skip-Chosen zero k pre r post v none_ready h enough = absurd (omega arith)
  skip-Chosen (suc fuel) k [] r post v none_ready h enough =
      let c = take_next-Chosen k r post v in
      let e' : is_ready (pcb (take_next k) (take_next k).current).state ≡ true =
        ground (arith, c.current, h) in
      (take_next k, rw e', rw append-nil c)
  skip-Chosen (suc fuel) k (x ∷ pre) r post v none_ready h enough =
      let c = take_next-Chosen k x (pre ++ (r ∷ post)) v in
      let k₁ : Kernel H = take_next k in
      let back : List ℕ = blocked_of k.nodes (k₁.current ∷ []) in
      let s =
        settle-Chosen k₁ (pre ++ (r ∷ post)) c.queue (rw c.current v.distinct.0) (omega arith) in
      let k₂ : Kernel H = settle e k₁ in
      let (k', found, chosen) =
        skip-Chosen fuel k₂ pre r (post ++ back) (rw (append_assoc pre (r ∷ post) back) at s.queue)
          (NoneReady-same k.nodes k₂.nodes (states_of k.nodes k₂.nodes s.pcbs) pre none_ready.1)
          (ground (arith, s.pcbs r, h)) (omega arith) in
      let not_ready : is_ready (pcb k₁ k₁.current).state ≡ false =
        ground (arith, c.current, none_ready.0) in
      let rest : (post ++ back) ++ blocked_of k₂.nodes pre ≡ post ++ blocked_of k.nodes (x ∷ pre) =
        append_assoc post back (blocked_of k₂.nodes pre)
        ∙ ap (λ l. post ++ (back ++ l))
            (blocked_of-same k.nodes k₂.nodes (states_of k.nodes k₂.nodes s.pcbs) pre)
        ∙ ap (λ l. post ++ l) (joined k.nodes k₁.current x pre c.current) in
      (
        k',
        rw not_ready found,
        rw (← rest) (
            Chosen-trans k k₂ k' k₁.current r _ _ (Chosen-trans k k₁ k₂ x k₁.current _ _ c s)
              chosen),
      )

  -- With a READY process in the queue, the first one is chosen. The BLOCKED processes before it are
  -- now at the end of the queue, in their order, and the TERMINATED ones are gone.
  pub dispatch-Chosen :
      (k : Kernel H) (pre : List ℕ) (r : ℕ) (post : List ℕ)
      → IsQueue k.nodes k.processes (pre ++ (r ∷ post))
      → NoneReady k.nodes pre
      → is_ready (k.nodes r).state ≡ true
      → length pre < e.fuel
      → (k' : Kernel H) × (dispatch e k ≡ some k') × Chosen k k' r (post ++ blocked_of k.nodes pre)
  unfolding dispatch
  dispatch-Chosen k pre r post v none_ready h enough =
      let some_ready : ltb 0 k.processes.ready_size ≡ true = ground (
        arith,
        v.ready_size,
        count_ready-append k.nodes pre (r ∷ post),
        count_ready-pos k.nodes r post h,
      ) in
      rw some_ready (skip-Chosen e.fuel k pre r post v none_ready h enough)

  -- With none, it is the base process.
  pub dispatch-none :
      (k : Kernel H) (ps : List ℕ)
      → IsQueue k.nodes k.processes ps
      → NoneReady k.nodes ps
      → dispatch e k ≡ some (record k { current = k.base })
  unfolding dispatch
  dispatch-none k ps v h =
      let e' : ltb 0 k.processes.ready_size ≡ false =
        ground (arith, v.ready_size, NoneReady-count_ready k.nodes ps h) in
      rw e'
