-- ===== src/Process/States.antt =====
-- `setState` of Kernel/processManagement/processManager.c: what it does to the queue.
use dog_os.Prelude.{
  ℕ, subst, ne_of_mem, ◌<◌, ◌≡◌, refl, sym, ◌∙◌, true, false, ◌||◌, some, List, [], ◌∷◌, arith,
  ◌==◌, if◌then◌else◌, length, ◌∉◌, ◌∈◌, ◌⊎◌, inl, inr, Bool-cases, Option-cases,
}
use dog_os.Prelude.Int.{ℤ}
use dog_os.Platform.{Platform}
use dog_os.ProcessQueue.{State, is_ready, is_terminated, Memory, ProcessList, Pcb, null, set_pcb}
use dog_os.ProcessQueue.Chain.{
  IsQueue, Chain-same, SameLinks, count_ready-outside, count_ready-inside, count_ready-le-length,
}
use dog_os.Process.{Kernel, pcb, is_current, get_process, change_state, set_state, recount}
use dog_os.Process.Lookup.{Walk, Walk-same, first_with, get_process-Walk}

first_with-mem :
    (m : Memory) (ps : List ℕ) (pid : ℕ) → (first_with m ps pid ≡ null) ⊎ (first_with m ps pid ∈ ps)
unfolding first_with
first_with-mem m [] pid = inl refl
first_with-mem m (p ∷ ps) pid = elim (Bool-cases ((m p).pid == pid)) [
  | inl h ↦ moved p (rw h) (inr (inl refl))
  | inr h ↦
      moved (first_with m ps pid) (rw h)
        (elim (first_with-mem m ps pid) [ inl a ↦ inl a | inr b ↦ inr (inr b) ])
]
  where
    moved :
        (x : ℕ)
        → first_with m (p ∷ ps) pid ≡ x
        → (x ≡ null) ⊎ (x ∈ (p ∷ ps))
        → (first_with m (p ∷ ps) pid ≡ null) ⊎ (first_with m (p ∷ ps) pid ∈ (p ∷ ps))
    moved x e = subst (λ y. (y ≡ null) ⊎ (y ∈ (p ∷ ps))) (sym e)

pub set_pcb-SameLinks : (m : Memory) (p : ℕ) (b : Pcb) → SameLinks m (set_pcb m p b)
set_pcb-SameLinks m p b q = ground arith

-- Changing the pcb of a process in the queue, and counting it anew.
recount-IsQueue :
    (m : Memory) (l : ProcessList) (ps : List ℕ) (p : ℕ) (s : State)
    → IsQueue m l ps
    → p ∈ ps
    → let b : Pcb = (m p).pcb in
      IsQueue
        (set_pcb m p (record b { state = s }))
        (recount (is_ready (m p).state) (is_ready s) l)
        ps
recount-IsQueue m l ps p s v i =
    let b : Pcb = (m p).pcb in
    let b' : Pcb = record b { state = s } in
    record {
      chain = Chain-same m (set_pcb m p b') (set_pcb-SameLinks m p b') l.first l.last ps v.chain;
      size = v.size;
      ready_size = ground (
        arith,
        v.ready_size,
        v.small,
        count_ready-inside m p b' ps i v.distinct,
        count_ready-le-length m ps,
        count_ready-le-length (set_pcb m p b') ps,
      );
      distinct = v.distinct;
      small = v.small;
    }

pub outside-IsQueue :
    (m : Memory) (l : ProcessList) (ps : List ℕ) (p : ℕ) (b : Pcb)
    → IsQueue m l ps
    → p ∉ ps
    → IsQueue (set_pcb m p b) l ps
outside-IsQueue m l ps p b v out = record {
  chain = Chain-same m (set_pcb m p b) (set_pcb-SameLinks m p b) l.first l.last ps v.chain;
  size = v.size;
  ready_size = v.ready_size ∙ sym (count_ready-outside m p b ps out);
  distinct = v.distinct;
  small = v.small;
}

module _ {H : Type 0} where
  abbrev Kept : Kernel H → Kernel H → List ℕ → Type 0
  Kept k k' ps =
      IsQueue k'.nodes k'.processes ps
      × SameLinks k.nodes k'.nodes
      × (k'.processes.first ≡ k.processes.first)

  change_state-Kept :
      (k : Kernel H) (p : ℕ) (s : State) (ps : List ℕ)
      → IsQueue k.nodes k.processes ps
      → k.current ∉ ps
      → (p ≡ null) ⊎ ((p ≡ k.current) ⊎ (p ∈ ps))
      → Kept k (change_state k p s).1 ps
  unfolding change_state
  change_state-Kept k p s ps v out which =
      let b : Pcb = pcb k p in
      let changed : Pcb = record b { state = s } in
      elim (Bool-cases ((p == null) || is_terminated (pcb k p).state)) [
        | inl h ↦ rw h (v, λ q. refl, refl)
        | inr h ↦ rw h (elim which [
          | inl e ↦ absurd (ground (arith, e, h))
          | inr (inl e) ↦
              let here : (p == k.current) ≡ true = ground arith in
              rw here (
                outside-IsQueue k.nodes k.processes ps p changed v (rw e out),
                set_pcb-SameLinks k.nodes p changed,
                refl,
              )
          | inr (inr i) ↦
              let ne : (p == k.current) ≡ false = ground (arith, ne_of_mem p k.current ps i out) in
              rw ne (
                recount-IsQueue k.nodes k.processes ps p s v i,
                set_pcb-SameLinks k.nodes p changed,
                refl,
              )
        ])
      ]

  change_state-terminated :
      (k : Kernel H) (p : ℕ) (s : State) (q : ℕ)
      → (k.nodes q).state ≡ State.terminated
      → (change_state k p s).1.nodes q ≡ k.nodes q
  unfolding change_state
  change_state-terminated k p s q t = ground arith

  found :
      (k : Kernel H) (pid : ℕ) (ps : List ℕ)
      → let p = if is_current k pid then k.current else first_with k.nodes ps pid in
        (p ≡ null) ⊎ ((p ≡ k.current) ⊎ (p ∈ ps))
  found k pid ps = elim (Bool-cases (is_current k pid)) [
    | inl h ↦ rw h (inr (inl refl))
    | inr h ↦ rw h (elim (first_with-mem k.nodes ps pid) [ inl a ↦ inl a | inr b ↦ inr (inr b) ])
  ]

module _ {H : Type 0} (e : Platform H) where
  -- Where the queue's links end in NULL behind its last process, `setState` returns, and keeps the
  -- queue: the same processes are queued, and the number of READY ones is right, whether the process
  -- is queued, running, terminated or unknown.
  pub set_state-IsQueue :
      (k : Kernel H) (pid : ℕ) (s : State) (ps : List ℕ)
      → IsQueue k.nodes k.processes ps
      → Walk k.nodes k.processes.first ps
      → k.current ∉ ps
      → length ps < e.fuel
      → (r : ℤ) × (k' : Kernel H) × (set_state e k pid s ≡ some (r, k'))
        × IsQueue k'.nodes k'.processes ps
        × Walk k'.nodes k'.processes.first ps
  unfolding set_state
  set_state-IsQueue k pid s ps v w out fuel =
      let p : ℕ = if is_current k pid then k.current else first_with k.nodes ps pid in
      let (queue, links, first) = change_state-Kept k p s ps v out (found k pid ps) in
      (
        (change_state k p s).0,
        (change_state k p s).1,
        rw (get_process-Walk e k pid ps w fuel),
        queue,
        rw first (Walk-same k.nodes (change_state k p s).1.nodes links k.processes.first ps w),
      )

  -- TERMINATED is final: no call of `setState` changes a node that is.
  pub set_state-terminated :
      (k : Kernel H) (pid : ℕ) (s : State) (q : ℕ) {r : ℤ} {k' : Kernel H}
      → set_state e k pid s ≡ some (r, k')
      → (k.nodes q).state ≡ State.terminated
      → k'.nodes q ≡ k.nodes q
  unfolding set_state
  set_state-terminated k pid s q h t = elim (Option-cases (get_process e k pid)) [
    | inl none_found ↦ absurd (ground (arith, none_found, h))
    | inr (p, some_found) ↦ ground (arith, some_found, h, change_state-terminated k p s q t)
  ]
