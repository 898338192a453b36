-- ===== src/Process/Wake.antt =====
-- In Kernel/processManagement/processManager.c, what waking the parent of a process does to the queue, and
-- which process of a queue is the first READY one.
use dog_os.Prelude.{
  ℕ, ◌<◌, ◌≡◌, refl, sym, ap, ◌∙◌, true, not, ◌&&◌, ◌||◌, some, List, [], ◌∷◌, ◌++◌, ◌==◌,
  if◌then◌else◌, length, ◌∉◌, ◌⊎◌, inl, inr, Bool-cases, Option-cases,
}
use mathlib.Core.Option.{some_inj, none-ne-some}
use dog_os.Prelude.Int.{ℤ}
use dog_os.Platform.{Platform}
use dog_os.ProcessQueue.{State, is_ready, is_blocked, is_terminated, Memory, null}
use dog_os.ProcessQueue.Chain.{IsQueue}
use dog_os.Process.{Kernel, pcb, is_current, get_process, set_state, change_state, ready_process}
use dog_os.Process.Scheduler.{wake_parent}
use dog_os.Process.Lookup.{Walk, first_with, get_process-Walk}
use dog_os.Process.States.{set_state-IsQueue}
use dog_os.Process.Dispatch.{NoneReady}

-- Either no process of a list is READY, or there is a first one.
abbrev pub FirstReady : Memory → List ℕ → Type 0
FirstReady m ps =
    NoneReady m ps
    ⊎ ((pre : List ℕ) × (r : ℕ) × (post : List ℕ) × (ps ≡ pre ++ (r ∷ post))
        × NoneReady m pre
        × (is_ready (m r).state ≡ true))

pub first_ready : (m : Memory) (ps : List ℕ) → FirstReady m ps
first_ready m [] = inl tt
first_ready m (p ∷ ps) = elim (Bool-cases (is_ready (m p).state)) [
  | inl h ↦ inr ([], p, ps, refl, tt, h)
  | inr h ↦ elim (first_ready m ps) [
    | inl none ↦ inl (h, none)
    | inr (pre, r, post, e, before, ready) ↦
        inr (p ∷ pre, r, post, ap (λ l. p ∷ l) e, (h, before), ready)
  ]
]

module _ {H : Type 0} where
  pub change_state-current :
      (k : Kernel H) (p : ℕ) (s : State)
      → ((change_state k p s).1.current ≡ k.current) × ((change_state k p s).1.base ≡ k.base)
  unfolding change_state
  change_state-current k p s = elim (Bool-cases ((p == null) || is_terminated (pcb k p).state)) [
    | inl h ↦ rw h (refl, refl)
    | inr h ↦ rw h (elim (Bool-cases (p == k.current)) [
      | inl e ↦ rw e (refl, refl)
      | inr e ↦ rw e (refl, refl)
    ])
  ]

  -- A kernel with the same current and base process, and these processes queued.
  pub record Queued (k k' : Kernel H) (ps : List ℕ) : Type 0 where
    pub queue : IsQueue k'.nodes k'.processes ps
    pub current : k'.current ≡ k.current
    pub base : k'.base ≡ k.base

module _ {H : Type 0} (e : Platform H) where
  pub set_state-current :
      (k k' : Kernel H) (pid : ℕ) (s : State) (r : ℤ)
      → set_state e k pid s ≡ some (r, k')
      → (k'.current ≡ k.current) × (k'.base ≡ k.base)
  unfolding set_state
  set_state-current k k' pid s r done = elim (Option-cases (get_process e k pid)) [
    | inl h ↦ absurd (none-ne-some (r, k') (rw h at done))
    | inr (p, h) ↦
        let same : change_state k p s ≡ (r, k') = some_inj.0 (rw h at done) in
        let (current, base) = change_state-current k p s in
        (
          sym (ap (λ (t : ℤ × Kernel H). t.1.current) same) ∙ current,
          sym (ap (λ (t : ℤ × Kernel H). t.1.base) same) ∙ base,
        )
  ]

  pub set_state-Queued :
      (k : Kernel H) (pid : ℕ) (s : State) (ps : List ℕ)
      → IsQueue k.nodes k.processes ps
      → Walk k.nodes k.processes.first ps
      → k.current ∉ ps
      → length ps < e.fuel
      → (r : ℤ) × (k' : Kernel H) × (set_state e k pid s ≡ some (r, k')) × Queued k k' ps
  set_state-Queued k pid s ps v w out fuel =
      let (r, k', done, queue, walk) = set_state-IsQueue e k pid s ps v w out fuel in
      let (current, base) = set_state-current k k' pid s r done in
      (r, k', done, record { queue = queue; current = current; base = base })

  pub wake_parent-Queued :
      (k : Kernel H) (ps : List ℕ)
      → IsQueue k.nodes k.processes ps
      → Walk k.nodes k.processes.first ps
      → k.current ∉ ps
      → length ps < e.fuel
      → (k' : Kernel H) × (wake_parent e k ≡ some k') × Queued k k' ps
  unfolding wake_parent ready_process
  wake_parent-Queued k ps v w out fuel =
      let ppid : ℕ = (pcb k k.current).ppid in
      let p : ℕ = if is_current k ppid then k.current else first_with k.nodes ps ppid in
      let found : get_process e k ppid ≡ some p = get_process-Walk e k ppid ps w fuel in
      let (r, k', done, queued) = set_state-Queued k (pcb k p).pid State.ready ps v w out fuel in
      elim (Bool-cases (
        not (p == null)
        && (not ((pcb k k.current).foreground == 0) && is_blocked (pcb k p).state))) [
          | inl h ↦ (k', rw (found, h, done) refl, queued)
          | inr h ↦ (k, rw (found, h) refl, record { queue = v; current = refl; base = refl })
        ]
