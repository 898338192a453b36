-- ===== src/ProcessQueue/Chain.antt =====
-- The list of processes that a queue of processManagerQueue.c stands for.
use dog_os.Prelude.{
  ℕ, suc, ◌+◌, ◌^◌, ◌<◌, ◌≡◌, refl, ◌≢◌, List, [], ◌∷◌, ◌++◌, arith, if◌then◌else◌, length, ◌∉◌,
  ◌∈◌, ne_of_mem, Distinct, inl, inr, subst, sym, ◌∙◌,
}
use dog_os.ProcessQueue.{
  is_ready, Pcb, Node, Memory, ProcessList, Pcb, null, write, set_next, set_pcb,
}

-- From `first` the `next` fields lead through the processes to `last`. Of the last one's `next`
-- nothing is said: `queueProcess` does not always clear it.
abbrev pub Chain : Memory → ℕ → ℕ → List ℕ → Type 0
Chain m first last [] = Unit
Chain m first last (p ∷ []) = (first ≡ p) × (last ≡ p)
Chain m first last (p ∷ q ∷ ps) = (first ≡ p) × Chain m (m p).next last (q ∷ ps)

-- How many of the processes are READY.
unfoldable pub count_ready : Memory → List ℕ → ℕ
count_ready m [] = 0
count_ready m (p ∷ ps) = (if is_ready (m p).state then 1 else 0) + count_ready m ps

pub record IsQueue (m : Memory) (l : ProcessList) (ps : List ℕ) : Type 0 where
  pub chain : Chain m l.first l.last ps
  pub size : l.size ≡ length ps
  pub ready_size : l.ready_size ≡ count_ready m ps
  pub distinct : Distinct ps
  pub small : length ps < 2 ^ 32

pub count_ready-le-length : (m : Memory) (ps : List ℕ) → count_ready m ps < suc (length ps)
unfolding count_ready
count_ready-le-length m [] = omega arith
count_ready-le-length m (p ∷ ps) = ground (arith, count_ready-le-length m ps)

pub count_ready-append :
    (m : Memory) (ps qs : List ℕ) → count_ready m (ps ++ qs) ≡ count_ready m ps + count_ready m qs
unfolding count_ready
count_ready-append m [] qs = omega arith
count_ready-append m (p ∷ ps) qs = omega (arith, count_ready-append m ps qs)

-- Two memories have the same states, and the same links.
abbrev pub SameStates : Memory → Memory → Type 0
SameStates m n = (q : ℕ) → (n q).state ≡ (m q).state

abbrev pub SameLinks : Memory → Memory → Type 0
SameLinks m n = (q : ℕ) → (n q).next ≡ (m q).next

pub count_ready-same :
    (m n : Memory) → SameStates m n → (ps : List ℕ) → count_ready n ps ≡ count_ready m ps
unfolding count_ready
count_ready-same m n h [] = refl
count_ready-same m n h (p ∷ ps) = ground (arith, h p, count_ready-same m n h ps)

pub Chain-same :
    (m n : Memory)
    → SameLinks m n
    → (first last : ℕ) (ps : List ℕ) → Chain m first last ps
    → Chain n first last ps
Chain-same m n h first last [] c = tt
Chain-same m n h first last (p ∷ []) c = c
Chain-same m n h first last (p ∷ q ∷ ps) c =
    (c.0, rw (h p) (Chain-same m n h (m p).next last (q ∷ ps) c.1))

pub IsQueue-same :
    (m n : Memory) (l : ProcessList) (ps : List ℕ)
    → SameLinks m n
    → SameStates m n
    → IsQueue m l ps
    → IsQueue n l ps
IsQueue-same m n l ps links states v = record {
  chain = Chain-same m n links l.first l.last ps v.chain;
  size = v.size;
  ready_size = v.ready_size ∙ sym (count_ready-same m n states ps);
  distinct = v.distinct;
  small = v.small;
}

-- Changing the state of a process outside a list, and of one in it.
pub count_ready-outside :
    (m : Memory) (p : ℕ) (b : Pcb) (ps : List ℕ)
    → p ∉ ps
    → count_ready (set_pcb m p b) ps ≡ count_ready m ps
unfolding count_ready
count_ready-outside m p b [] h = refl
count_ready-outside m p b (q ∷ ps) h = ground (arith, h.0, count_ready-outside m p b ps h.1)

pub count_ready-inside :
    (m : Memory) (p : ℕ) (b : Pcb) (ps : List ℕ)
    → p ∈ ps
    → Distinct ps
    → count_ready (set_pcb m p b) ps + (if is_ready (m p).state then 1 else 0)
      ≡ count_ready m ps + (if is_ready b.state then 1 else 0)
unfolding count_ready
count_ready-inside m p b [] h d = elim h [ ]
count_ready-inside m p b (q ∷ ps) (inl e) d =
    ground (arith, e, count_ready-outside m p b ps (subst (λ x. x ∉ ps) (sym e) d.0))
count_ready-inside m p b (q ∷ ps) (inr h) d =
    ground (arith, ne_of_mem p q ps h d.0, count_ready-inside m p b ps h d.1)

-- A write to a node outside the chain is not seen by it.
pub Chain-write_ne :
    (m : Memory) (x : ℕ) (v : Node) (first last : ℕ) (ps : List ℕ)
    → x ∉ ps
    → Chain m first last ps
    → Chain (write m x v) first last ps
Chain-write_ne m x v first last [] h c = tt
Chain-write_ne m x v first last (p ∷ []) h c = c
Chain-write_ne m x v first last (p ∷ q ∷ ps) h c =
    let e : (write m x v p).next ≡ (m p).next = ground arith in
    (c.0, rw e (Chain-write_ne m x v (m p).next last (q ∷ ps) h.1 c.1))

-- The last process of a chain is none of those before it.
ne-last :
    (m : Memory) (first last p q : ℕ) (ps : List ℕ)
    → p ∉ (q ∷ ps)
    → Chain m first last (q ∷ ps)
    → p ≢ last
ne-last m first last p q [] h c = ground arith
ne-last m first last p q (r ∷ ps) h c = ne-last m (m q).next last p r ps h.1 c.1

-- Linking `x` behind the last process, and clearing its `next`, extends the chain by `x`.
pub Chain-set_next :
    (m : Memory) (x first last p : ℕ) (ps : List ℕ)
    → Distinct (p ∷ ps)
    → x ∉ (p ∷ ps)
    → Chain m first last (p ∷ ps)
    → Chain (set_next (set_next m last x) x null) first x (p ∷ (ps ++ (x ∷ [])))
Chain-set_next m x first last p [] d h c = (c.0, (ground arith, refl))
Chain-set_next m x first last p (q ∷ ps) d h c =
    let ne : p ≢ last = ne-last m (m p).next last p q ps d.0 c.1 in
    let e : (set_next (set_next m last x) x null p).next ≡ (m p).next = ground arith in
    (c.0, rw e (Chain-set_next m x (m p).next last q ps d.1 h.1 c.1))
