-- ===== src/Semaphore/Queue.antt =====
-- One semaphore of Kernel/semaphores/semaphores.c against its abstract view: a value, and the
-- processes that wait, first come first served.
use mathlib.Core.Path.{ap₂}
use native.Mathlib.Numerals.{add-one}
use dog_os.Prelude.{
  ltb→lt, ◌%◌, ℕ, zero, suc, ◌+◌, ◌-◌, ◌^◌, ◌<◌, ◌≤◌, ◌≡◌, refl, sym, ◌∙◌, ap, ◌⊎◌, inl, inr, Bool,
  true, false, Option, none, some, List, [], ◌∷◌, ◌++◌, arith, ltb, length, length-set, get_or, set,
  take, take-set, Bool-cases,
}
use dog_os.Prelude.Int.{ℤ, pos}
use dog_os.Semaphore.{Semaphore, max_blocked_processes, wait_on, post_to, shift_left}

-- The pids in the part of the array that is in use.
abbrev pub waiting : Semaphore → List ℤ
waiting s = take s.blocked_processes_amount s.blocked_processes

pub record IsSemaphore (s : Semaphore) : Type 0 where
  pub array : length s.blocked_processes ≡ max_blocked_processes
  pub in_array : s.blocked_processes_amount ≤ max_blocked_processes
  pub listening : s.listening_processes ≤ max_blocked_processes
  pub idle : (s.value ≡ 0) ⊎ (s.blocked_processes_amount ≡ 0)
  pub bounded : s.value < 2 ^ 64

length-shift_left : (n i : ℕ) (a : List ℤ) → length (shift_left n i a) ≡ length a
unfolding shift_left
length-shift_left zero i a = refl
length-shift_left (suc n) i a = length-shift_left n (i + 1) _ ∙ length-set a i _

-- Moving `n` elements left drops the first of `n + 1`.
shift_left-cons :
    (n i : ℕ) (x : ℤ) (a : List ℤ) → shift_left n (suc i) (x ∷ a) ≡ x ∷ shift_left n i a
unfolding shift_left
shift_left-cons zero i x a = refl
shift_left-cons (suc n) i x a =
    let e : suc i + 1 ≡ suc (i + 1) = omega arith in
    rw e (shift_left-cons n (i + 1) x (set a i (get_or a (i + 1) (pos 0))))

take-shift_left :
    (n : ℕ) (x : ℤ) (a : List ℤ) → n ≤ length a → take n (shift_left n 0 (x ∷ a)) ≡ take n a
unfolding shift_left
take-shift_left zero x a h = refl
take-shift_left (suc n) x [] h = absurd (omega arith)
take-shift_left (suc n) x (y ∷ a) h =
    rw (shift_left-cons n 0 y (y ∷ a)) (ap (λ l. y ∷ l) (take-shift_left n y a (omega arith)))

-- The first of the pids in use, and the others as they stand after the move.
take-cons :
    (n : ℕ) (a : List ℤ)
    → suc n ≤ length a
    → take (suc n) a ≡ get_or a 0 (pos 0) ∷ take n (shift_left n 0 a)
take-cons n [] h = absurd (omega arith)
take-cons n (x ∷ a) h = ap (λ l. x ∷ l) (sym (take-shift_left n x a (omega arith)))

-- The abstract view, and what the two operations do to it.
abbrev pub View : Type 0
View = ℕ × List ℤ

abbrev pub view : Semaphore → View
view s = (s.value, waiting s)

-- Whether the process has to wait.
unfoldable pub wait_spec : ℤ → View → View × Bool
wait_spec pid (zero, q) = ((0, q ++ (pid ∷ [])), true)
wait_spec pid (suc v, q) = ((v, q), false)

-- The process that is made READY, if there is one.
unfoldable pub post_spec : View → View × Option ℤ
post_spec (v, []) = ((v + 1, []), none)
post_spec (v, p ∷ q) = ((v, q), some p)

wait_spec-suc : (pid : ℤ) (n : ℕ) (q : List ℤ) → 0 < n → wait_spec pid (n, q) ≡ ((n - 1, q), false)
unfolding wait_spec
wait_spec-suc pid zero q h = absurd (omega arith)
wait_spec-suc pid (suc n) q h = ap (λ v. ((v, q), false)) (omega arith)

wait_spec-zero :
    (pid : ℤ) (n : ℕ) (q : List ℤ) → n ≡ 0 → wait_spec pid (n, q) ≡ ((0, q ++ (pid ∷ [])), true)
unfolding wait_spec
wait_spec-zero pid n q h = rw h

-- The semaphore after a process took a place in the queue.
abbrev queued : ℤ → Semaphore → Semaphore
queued pid s = record s {
  blocked_processes = set s.blocked_processes s.blocked_processes_amount pid;
  blocked_processes_amount = s.blocked_processes_amount + 1;
}

queued-IsSemaphore :
    (pid : ℤ) (s : Semaphore)
    → IsSemaphore s
    → s.value ≡ 0
    → s.blocked_processes_amount < max_blocked_processes
    → IsSemaphore (queued pid s)
queued-IsSemaphore pid s v e room = record {
  array = length-set s.blocked_processes s.blocked_processes_amount pid ∙ v.array;
  in_array = omega arith;
  listening = v.listening;
  idle = inl e;
  bounded = v.bounded;
}

waiting-queued :
    (pid : ℤ) (s : Semaphore)
    → IsSemaphore s
    → s.blocked_processes_amount < max_blocked_processes
    → waiting (queued pid s) ≡ waiting s ++ (pid ∷ [])
waiting-queued pid s v room =
    rw add-one
      (take-set s.blocked_processes_amount s.blocked_processes pid (omega (arith, v.array)))

wait_on-queued :
    (pid : ℤ) (s : Semaphore)
    → s.value ≡ 0
    → s.blocked_processes_amount < max_blocked_processes
    → wait_on pid s ≡ some (queued pid s, true)
unfolding wait_on
wait_on-queued pid s e room =
    let t : ltb 0 s.value ≡ false = ground arith in
    let u : ltb s.blocked_processes_amount max_blocked_processes ≡ true = ground arith in
    let w : (s.blocked_processes_amount + 1) % 2 ^ 16 ≡ s.blocked_processes_amount + 1 =
      omega arith in
    rw (t, u, w)

-- `semWait` takes a unit of the value, or else puts the process last in the queue and has it wait.
-- There must be room in the array for it.
pub wait_on-refines :
    (pid : ℤ) (s : Semaphore)
    → IsSemaphore s
    → (0 < s.value) ⊎ (s.blocked_processes_amount < max_blocked_processes)
    → (s' : Semaphore) × (waits : Bool) × (wait_on pid s ≡ some (s', waits))
      × IsSemaphore s'
      × ((view s', waits) ≡ wait_spec pid (view s))
unfolding wait_on
wait_on-refines pid s v room = elim (Bool-cases (ltb 0 s.value)) [
  | inl h ↦ (
    record s { value = s.value - 1 },
    false,
    rw h,
    ground (arith, v.array),
    sym (wait_spec-suc pid s.value (waiting s) (ltb→lt 0 s.value h)),
  )
  | inr h ↦
      let z : s.value ≡ 0 = ground arith in
      let left : s.blocked_processes_amount < max_blocked_processes = ground (arith, room) in
      (
        queued pid s,
        true,
        wait_on-queued pid s z left,
        queued-IsSemaphore pid s v z left,
        ap (λ w. (w, true)) (ap₂ (λ n q. (n, q)) z (waiting-queued pid s v left))
            ∙ sym (wait_spec-zero pid s.value (waiting s) z),
      )
]

-- A process that has to wait where the array is full makes the code write outside it.
pub wait_on-overflow :
    (pid : ℤ) (s : Semaphore)
    → s.value ≡ 0
    → s.blocked_processes_amount ≡ max_blocked_processes
    → wait_on pid s ≡ none
unfolding wait_on
wait_on-overflow pid s e f = ground arith

pub post_to-IsSemaphore : (s : Semaphore) → IsSemaphore s → IsSemaphore (post_to s).0
unfolding post_to
post_to-IsSemaphore s v = elim (Bool-cases (ltb 0 s.blocked_processes_amount)) [
  | inl t ↦ rw t (record {
    array = length-shift_left (s.blocked_processes_amount - 1) 0 s.blocked_processes ∙ v.array;
    in_array = omega (arith, v.in_array);
    listening = v.listening;
    idle = ground (arith, v.idle);
    bounded = v.bounded;
  })
  | inr f ↦ rw f (record {
    array = v.array;
    in_array = v.in_array;
    listening = v.listening;
    idle = inr (ground arith);
    bounded = omega arith;
  })
]

-- `semPost` makes the process that waited longest READY, or else adds a unit to the value.
pub post_to-refines :
    (s : Semaphore)
    → IsSemaphore s
    → s.value + 1 < 2 ^ 64
    → let (s', woken) = post_to s in (view s', woken) ≡ post_spec (view s)
unfolding post_to post_spec
post_to-refines s v h = elim (Bool-cases (ltb 0 s.blocked_processes_amount)) [
  | inl t ↦
      let n : ℕ = s.blocked_processes_amount - 1 in
      let e : s.blocked_processes_amount ≡ suc n = omega (arith, ltb→lt 0 _ t) in
      let head : waiting s
          ≡ get_or s.blocked_processes 0 (pos 0) ∷ take n (shift_left n 0 s.blocked_processes) =
        ap (λ m. take m s.blocked_processes) e
        ∙ take-cons n s.blocked_processes (omega (arith, v.array, v.in_array)) in
      rw t (rw head)
  | inr f ↦
      let none_left : s.blocked_processes_amount ≡ 0 = ground arith in
      let sum : (s.value + 1) % 2 ^ 64 ≡ s.value + 1 = omega arith in rw f (rw (none_left, sum))
]
