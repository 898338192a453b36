-- ===== src/Process/Lookup.antt =====
-- `getProcess` of Kernel/processManagement/processManager.c: which process it finds.
use dog_os.Prelude.{
  ℕ, zero, suc, ◌<◌, ◌≡◌, ◌≢◌, false, some, List, [], ◌∷◌, arith, ◌==◌, if◌then◌else◌, length,
}
use dog_os.Platform.{Platform}
use dog_os.ProcessQueue.{Memory, null}
use dog_os.ProcessQueue.Chain.{IsQueue, SameLinks}
use dog_os.ProcessQueue.Refine.{queue_process-append, queue_process-empty}
use dog_os.Process.{Kernel, is_current, find_from, get_process}
use dog_os.Process.Scheduler.{enqueue}

-- From `p` the `next` fields lead through the nodes `qs` to NULL.
abbrev pub Walk : Memory → ℕ → List ℕ → Type 0
Walk m p [] = p ≡ null
Walk m p (q ∷ qs) = (p ≡ q) × (q ≢ null) × Walk m (m q).next qs

-- The first of some nodes that has the pid, or NULL.
unfoldable pub first_with : Memory → List ℕ → ℕ → ℕ
first_with m [] pid = null
first_with m (q ∷ qs) pid = if (m q).pid == pid then q else first_with m qs pid

pub Walk-same : (m n : Memory) → SameLinks m n → (p : ℕ) (qs : List ℕ) → Walk m p qs → Walk n p qs
Walk-same m n h p [] w = w
Walk-same m n h p (q ∷ qs) w = (w.0, w.1, rw (h q) (Walk-same m n h (m q).next qs w.2))

find_from-Walk :
    (m : Memory) (fuel p pid : ℕ) (qs : List ℕ)
    → Walk m p qs
    → length qs < fuel
    → find_from m fuel p pid ≡ some (first_with m qs pid)
unfolding find_from first_with
find_from-Walk m zero p pid qs w h = absurd (omega arith)
find_from-Walk m (suc fuel) p pid [] w h = ground (arith, w)
find_from-Walk m (suc fuel) p pid (q ∷ qs) w h =
    ground (arith, w.0, w.1, find_from-Walk m fuel (m p).next pid qs (rw w.0 w.2) (omega arith))

find_second :
    (m : Memory) (fuel p q : ℕ)
    → 1 < fuel
    → p ≢ null
    → q ≢ null
    → (m p).next ≡ q
    → (m p).pid ≢ (m q).pid
    → find_from m fuel p (m q).pid ≡ some q
unfolding find_from
find_second m zero p q h hp hq link other = absurd (omega arith)
find_second m (suc zero) p q h hp hq link other = absurd (omega arith)
find_second m (suc (suc fuel)) p q h hp hq link other = rw link (ground arith)

module _ {H : Type 0} (e : Platform H) where
  -- `getProcess` returns the current process if it has the pid, or else the first node with the pid
  -- on the walk from the head of the queue, or NULL; enough fuel is one round more than the walk has
  -- nodes.
  pub get_process-Walk :
      (k : Kernel H) (pid : ℕ) (qs : List ℕ)
      → Walk k.nodes k.processes.first qs
      → length qs < e.fuel
      → get_process e k pid
        ≡ some (if is_current k pid then k.current else first_with k.nodes qs pid)
  unfolding get_process
  get_process-Walk k pid qs w h =
      ground (arith, find_from-Walk k.nodes e.fuel k.processes.first pid qs w h)

  -- A process that enters an empty queue keeps the `next` that it had: `getProcess` then finds the
  -- node behind it, which is not in the queue.
  pub get_process-stale :
      (k : Kernel H) (p q : ℕ)
      → IsQueue k.nodes k.processes []
      → p ≢ null
      → q ≢ null
      → (k.nodes p).next ≡ q
      → (k.nodes p).pid ≢ (k.nodes q).pid
      → is_current k (k.nodes q).pid ≡ false
      → 1 < e.fuel
      → (get_process e (enqueue k p) (k.nodes q).pid ≡ some q)
        × IsQueue (enqueue k p).nodes (enqueue k p).processes (p ∷ [])
  unfolding get_process
  get_process-stale k p q v hp hq link other cur fuel =
      let empty = queue_process-empty k.nodes k.processes p v.size in
      (
        rw (empty.0, empty.1, cur) (find_second k.nodes e.fuel p q fuel hp hq link other),
        queue_process-append p [] v tt (omega arith),
      )
