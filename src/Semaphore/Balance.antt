-- ===== src/Semaphore/Balance.antt =====
-- Any sequence of `semWait` and `semPost` on one semaphore of Kernel/semaphores/semaphores.c: the
-- units that were taken and given add up.
use dog_os.Prelude.{
  ℕ, zero, suc, ◌+◌, ◌^◌, ◌<◌, ◌≤◌, ◌≡◌, refl, sym, ap, Bool, Option, some, List, [], ◌∷◌, arith,
  ◌>>=◌, inr, length, length-append, length-take,
}
use dog_os.Prelude.Int.{ℤ}
use dog_os.Semaphore.{Semaphore, max_blocked_processes, wait_on, post_to}
use dog_os.Semaphore.Queue.{
  IsSemaphore, View, view, waiting, wait_spec, post_spec, wait_on-refines, post_to-refines,
  post_to-IsSemaphore,
}

pub data Use : Type 0 where
  waits : ℤ → Use
  posts : Use

-- The calls of several processes, in the order in which they get the lock.
unfoldable pub serve : List Use → Semaphore → Option Semaphore
serve [] s = some s
serve (waits pid ∷ us) s = wait_on pid s >>= λ (s', _). serve us s'
serve (posts ∷ us) s = serve us (post_to s).0

unfoldable pub count_waits : List Use → ℕ
count_waits [] = 0
count_waits (waits pid ∷ us) = 1 + count_waits us
count_waits (posts ∷ us) = count_waits us

unfoldable pub count_posts : List Use → ℕ
count_posts [] = 0
count_posts (waits pid ∷ us) = count_posts us
count_posts (posts ∷ us) = 1 + count_posts us

length-waiting : (s : Semaphore) → IsSemaphore s → length (waiting s) ≡ s.blocked_processes_amount
length-waiting s v =
    omega (arith, length-take s.blocked_processes_amount s.blocked_processes, v.array, v.in_array)

-- What each operation does to the two numbers.
wait-numbers :
    (pid : ℤ) (v : View)
    → let v' = (wait_spec pid v).0 in
      (v'.0 + length v.1 + 1 ≡ v.0 + length v'.1) × (length v'.1 ≤ length v.1 + 1) × (v'.0 ≤ v.0)
unfolding wait_spec
wait-numbers pid (zero, q) = omega (arith, length-append q (pid ∷ []))
wait-numbers pid (suc v, q) = omega arith

post-numbers :
    (v : View)
    → let v' = (post_spec v).0 in
      (v'.0 + length v.1 ≡ v.0 + length v'.1 + 1) × (length v'.1 ≤ length v.1) × (v'.0 ≤ v.0 + 1)
unfolding post_spec
post-numbers (v, []) = omega arith
post-numbers (v, p ∷ q) = omega arith

-- With room for all that may have to wait, every call returns, and in the end the value, the processes
-- that waited at first and the waits make up the first value, the processes that wait now and the posts.
pub serve_balance :
    (us : List Use) (s : Semaphore)
    → IsSemaphore s
    → length (waiting s) + count_waits us ≤ max_blocked_processes
    → s.value + count_posts us < 2 ^ 64
    → (s' : Semaphore) × (serve us s ≡ some s')
      × IsSemaphore s'
      × (s'.value + length (waiting s) + count_waits us
          ≡ s.value + length (waiting s') + count_posts us)
unfolding serve count_waits count_posts
serve_balance [] s v room bound = (s, refl, v, refl)
serve_balance (waits pid ∷ us) s v room bound =
    let (s₁, b, done, v₁, spec) =
      wait_on-refines pid s v (inr (omega (arith, length-waiting s v))) in
    let view' : (wait_spec pid (view s)).0 ≡ view s₁ = ap (λ (x : View × Bool). x.0) (sym spec) in
    let numbers = rw view' at (wait-numbers pid (view s)) in
    let (s', run, v', balance) =
      serve_balance us s₁ v₁ (omega (arith, numbers)) (omega (arith, numbers)) in
    (s', rw done run, v', omega (arith, numbers, balance))
serve_balance (posts ∷ us) s v room bound =
    let s₁ : Semaphore = (post_to s).0 in
    let view' : (post_spec (view s)).0 ≡ view s₁ =
      ap (λ (x : View × Option ℤ). x.0) (sym (post_to-refines s v (omega arith))) in
    let numbers = rw view' at (post-numbers (view s)) in
    let (s', run, v', balance) =
      serve_balance us s₁ (post_to-IsSemaphore s v) (omega (arith, numbers))
        (omega (arith, numbers)) in
    (s', run, v', omega (arith, numbers, balance))
