-- ===== src/ProcessQueue/Refine.antt =====
-- `queueProcess` and `dequeueProcess` against a first-in first-out list of processes.
use dog_os.Prelude.{
  ℕ, ap, ◌+◌, ◌^◌, ◌<◌, ◌≡◌, refl, true, false, List, [], ◌∷◌, ◌++◌, arith, ◌==◌, length,
  length-append, ◌∉◌, Distinct-rotate,
}
use dog_os.ProcessQueue.{Pcb, Memory, ProcessList, null, set_next, queue_process, dequeue_process}
use dog_os.ProcessQueue.Chain.{
  Chain, IsQueue, count_ready, Chain-set_next, count_ready-append, count_ready-le-length,
  count_ready-same,
}

-- The chain behind the first process.
Chain-tail :
    (m : Memory) (first last p : ℕ) (ps : List ℕ)
    → Chain m first last (p ∷ ps)
    → Chain m (m p).next last ps
Chain-tail m first last p [] c = tt
Chain-tail m first last p (q ∷ ps) c = c.1

Chain-first :
    (m : Memory) (first last p : ℕ) (ps : List ℕ) → Chain m first last (p ∷ ps) → first ≡ p
Chain-first m first last p [] c = c.0
Chain-first m first last p (q ∷ ps) c = c.0

-- Taking the first process of a queue gives that process and the queue of the others.
pub dequeue_process-cons :
    {m : Memory} {l : ProcessList} (p : ℕ) (ps : List ℕ)
    → IsQueue m l (p ∷ ps)
    → ((dequeue_process m l).0 ≡ p) × IsQueue m (dequeue_process m l).1 ps
unfolding dequeue_process count_ready
dequeue_process-cons {m} {l} p ps v =
    let e : (l.size == 0) ≡ false = ground (arith, v.size) in
    let f : l.first ≡ p = Chain-first m l.first l.last p ps v.chain in
    rw (e, f)
      (
        refl,
        record {
          chain = Chain-tail m l.first l.last p ps v.chain;
          size = omega (arith, v.size, v.small);
          ready_size = ground (arith, v.ready_size, count_ready-le-length m ps, v.small);
          distinct = v.distinct.1;
          small = omega (arith, v.small);
        },
      )

-- From an empty queue `dequeueProcess` takes NULL, and changes nothing.
pub dequeue_process-nil :
    {m : Memory} {l : ProcessList} → IsQueue m l [] → dequeue_process m l ≡ (null, l)
unfolding dequeue_process
dequeue_process-nil {m} {l} v = let e : (l.size == 0) ≡ true = ground (arith, v.size) in rw e

-- Neither link changes a pcb.
pub queue_process-pcb :
    (m : Memory) (l : ProcessList) (p q : ℕ) → ((queue_process m l p).0 q).pcb ≡ (m q).pcb
unfolding queue_process
queue_process-pcb m l p q = ground arith

-- Into an empty queue a process goes with the links that memory had.
pub queue_process-empty :
    (m : Memory) (l : ProcessList) (p : ℕ)
    → l.size ≡ 0
    → ((queue_process m l p).0 ≡ m) × ((queue_process m l p).1.first ≡ p)
unfolding queue_process
queue_process-empty m l p h = let e : (l.size == 0) ≡ true = ground arith in (rw e, rw e)

-- Queueing a process that is not in a queue, short of 2 ^ 32 processes, puts it last, with the right
-- counters.
pub queue_process-append :
    {m : Memory} {l : ProcessList} (p : ℕ) (ps : List ℕ)
    → IsQueue m l ps
    → p ∉ ps
    → length ps + 1 < 2 ^ 32
    → IsQueue (queue_process m l p).0 (queue_process m l p).1 (ps ++ (p ∷ []))
unfolding queue_process count_ready
queue_process-append {m} {l} p [] v h k =
    let e : (l.size == 0) ≡ true = ground (arith, v.size) in
    rw e (record {
      chain = (refl, refl);
      size = omega (arith, v.size);
      ready_size = ground (arith, v.ready_size);
      distinct = (tt, tt);
      small = omega arith;
    })
queue_process-append {m} {l} p (q ∷ ps) v h k =
    let e : (l.size == 0) ≡ false = ground (arith, v.size) in
    let m' : Memory = set_next (set_next m l.last p) p null in
    let same : (x : ℕ) → (m' x).pcb ≡ (m x).pcb = λ x. ground arith in
    rw e (record {
      chain = Chain-set_next m p l.first l.last q ps v.distinct h v.chain;
      size = omega (arith, v.size, length-append ps (p ∷ []));
      ready_size = ground (
        arith,
        v.ready_size,
        same p,
        same q,
        count_ready-append m' ps (p ∷ []),
        count_ready-same m m' (λ x. ap (λ (b : Pcb). b.state) (same x)) ps,
        count_ready-le-length m ps,
      );
      distinct = Distinct-rotate p (q ∷ ps) h v.distinct;
      small = omega (arith, length-append ps (p ∷ []));
    })
