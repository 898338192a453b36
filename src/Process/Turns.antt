-- ===== src/Process/Turns.antt =====
-- Of the processes in a queue, those that run before another: the ticks that this takes, and what a
-- switch keeps of it.
use dog_os.Prelude.{
  ℕ, suc, ◌+◌, ◌<◌, ◌≡◌, refl, sym, ◌≢◌, true, false, List, [], ◌∷◌, ◌++◌, arith, if◌then◌else◌,
  length, ◌∉◌, Distinct, inl, inr, Bool-cases, not-mem_right,
}
use dog_os.ProcessQueue.{is_ready, is_blocked, is_terminated, State, Memory, null}
use dog_os.Process.Dispatch.{NoneReady, blocked_of}
use dog_os.Process.Switch.{SameWork}

-- The ticks for which the READY ones of some processes run, each of them for its priority and for the
-- tick that takes the processor from it.
abbrev pub turns : Memory → List ℕ → ℕ
turns m [] = 0
turns m (p ∷ ps) = (if is_ready (m p).state then (m p).priority + 1 else 0) + turns m ps

-- They are processes, other than the one with the pid.
abbrev pub Ordinary : Memory → ℕ → List ℕ → Type 0
Ordinary m pid [] = Unit
Ordinary m pid (p ∷ ps) = (p ≢ null) × ((m p).pid ≢ pid) × Ordinary m pid ps

pub turns-same : (m n : Memory) → SameWork m n → (ps : List ℕ) → turns n ps ≡ turns m ps
turns-same m n s [] = refl
turns-same m n s (p ∷ ps) = ground (arith, (s p).0, (s p).1, turns-same m n s ps)

pub Ordinary-same :
    (m n : Memory)
    → SameWork m n
    → (a b : ℕ) → a ≡ b
    → (ps : List ℕ) → Ordinary m a ps
    → Ordinary n b ps
Ordinary-same m n s a b h [] o = tt
Ordinary-same m n s a b h (p ∷ ps) o =
    (o.0, ground (arith, (s p).2, h, o.1), Ordinary-same m n s a b h ps o.2)

pub ready-alive : (s : State) → is_ready s ≡ true → is_terminated s ≡ false
ready-alive State.ready h = refl
ready-alive State.blocked h = refl
ready-alive State.terminated h = sym h

pub NoneReady-append :
    (m : Memory) (ps : List ℕ) (p : ℕ)
    → NoneReady m ps
    → is_ready (m p).state ≡ false
    → NoneReady m (ps ++ (p ∷ []))
NoneReady-append m [] p h k = (k, tt)
NoneReady-append m (q ∷ ps) p h k = (h.0, NoneReady-append m ps p h.1 k)

pub not-mem-blocked_of : (m : Memory) (x : ℕ) (ps : List ℕ) → x ∉ ps → x ∉ blocked_of m ps
not-mem-blocked_of m x [] h = tt
not-mem-blocked_of m x (p ∷ ps) h = elim (Bool-cases (is_blocked (m p).state)) [
  | inl b ↦ rw b (h.0, not-mem-blocked_of m x ps h.1)
  | inr b ↦ rw b (not-mem-blocked_of m x ps h.1)
]

pub length-blocked_of : (m : Memory) (ps : List ℕ) → length (blocked_of m ps) < suc (length ps)
length-blocked_of m [] = omega arith
length-blocked_of m (p ∷ ps) = ground (arith, length-blocked_of m ps)

-- A process in the middle of distinct ones is none of the others.
pub Distinct-middle :
    (pre : List ℕ) (r : ℕ) (post : List ℕ) → Distinct (pre ++ (r ∷ post)) → (r ∉ post) × (r ∉ pre)
Distinct-middle [] r post d = (d.0, tt)
Distinct-middle (p ∷ pre) r post d =
    let (a, b) = Distinct-middle pre r post d.1 in
    (a, ((λ h. (not-mem_right p pre (r ∷ post) d.0).0 (sym h)), b))
