-- ===== src/Phylo.antt =====
-- Userland/SampleCodeModule/programs/phylo.c: the dining philosophers. Each function is one step: what
-- it does to the table, and the system calls that it makes, in order. Their results are arguments.
mod Neighbours
mod Safety
mod Dinner
pub mod Problem
mod Kinds
mod Balance
mod Tests
use dog_os.Prelude.{
  ℕ, zero, suc, ◌+◌, ◌-◌, ◌%◌, Bool, true, false, not, ◌&&◌, List, [], ◌∷◌, ◌++◌, ltb, ◌==◌,
  if◌then◌else◌, get_or, set, length, take,
}
use dog_os.Prelude.Int.{ℤ, pos, minus_one}

pub data PhiloState : Type 0 where
  thinking hungry eating : PhiloState

abbrev pub is_hungry : PhiloState → Bool
is_hungry hungry = true
is_hungry _ = false

abbrev pub is_eating : PhiloState → Bool
is_eating eating = true
is_eating _ = false

pub record Philosopher : Type 0 where
  pub pid : ℤ
  pub sem : ℤ
  pub id : ℕ
  pub state : PhiloState

-- The philosophers at the table: the first `philosopherCount` of the array.
abbrev pub Table : Type 0
Table = List Philosopher

abbrev pub max_philos : ℕ
max_philos = 10

abbrev pub initial_philos : ℕ
initial_philos = 5

abbrev pub filo_sem_id : ℕ
filo_sem_id = 2000

-- The variable `mutex`, to which nothing is assigned.
abbrev pub mutex : ℤ
mutex = pos 0

-- The calls, the ones that give something with their results: `sem_open` of a semaphore with the value 1,
-- `new_table` of the process that prints the table, `new_process` of the philosopher with that number.
pub data Call : Type 0 where
  sem_wait sem_post sem_close kill_process : ℤ → Call
  free : Philosopher → Call
  malloc : Call
  new_table : (pid : ℤ) → Call
  sem_open : (id : ℕ) (result : ℤ) → Call
  new_process : (number : ℕ) (pid : ℤ) → Call

-- What stands outside the array; the code asks only for philosophers at the table.
abbrev pub nobody : Philosopher
nobody = record { pid = pos 0; sem = pos 0; id = 0; state = thinking }

abbrev pub left : Table → ℕ → ℕ
left t i = (i + length t - 1) % length t

abbrev pub right : Table → ℕ → ℕ
right t i = (i + 1) % length t

abbrev pub state_of : Table → ℕ → PhiloState
state_of t i = (get_or t i nobody).state

abbrev pub sem_of : Table → ℕ → ℤ
sem_of t i = (get_or t i nobody).sem

abbrev pub set_state : Table → ℕ → PhiloState → Table
set_state t i s = set t i (record (get_or t i nobody) { state = s })

-- `test`: a philosopher who is hungry eats when neither neighbour does.
unfoldable pub test : ℕ → Table → List Call × Table
test i t =
    if is_hungry (state_of t i)
      && (not (is_eating (state_of t (left t i))) && not (is_eating (state_of t (right t i))))
    then (sem_post (sem_of t i) ∷ [], set_state t i eating)
    else ([], t)

unfoldable pub take_forks : ℕ → Table → List Call × Table
unfolding test
take_forks i t =
    let (posts, t') = test i (set_state t i hungry) in
    (sem_wait mutex ∷ (posts ++ (sem_post mutex ∷ sem_wait (sem_of t' i) ∷ [])), t')

unfoldable pub put_forks : ℕ → Table → List Call × Table
unfolding test
put_forks i t =
    let t₀ = set_state t i thinking in
    let (posts₁, t₁) = test (left t₀ i) t₀ in
    let (posts₂, t₂) = test (right t₁ i) t₁ in
    (sem_wait mutex ∷ (posts₁ ++ (posts₂ ++ (sem_post mutex ∷ []))), t₂)

-- `addPhilo`: somebody sits down last, given whether `malloc` succeeds, and the results of `semOpen` and `newProcess`.
unfoldable pub add_philo : Bool → ℤ → ℤ → Table → ℤ × List Call × Table
add_philo memory sem pid t =
    if length t == max_philos
    then (minus_one, [], t)
    else if memory
    then (
      pos 0,
      sem_wait mutex
          ∷ malloc
          ∷ sem_open (filo_sem_id + length t) sem
          ∷ new_process (length t) pid
          ∷ sem_post mutex
          ∷ [],
      t ++ (record { pid = pid; sem = sem; id = length t; state = thinking } ∷ []),
    )
    else (minus_one, sem_wait mutex ∷ malloc ∷ [], t)

-- `removePhilo`: the last philosopher leaves.
unfoldable pub remove_philo : Table → ℤ × List Call × Table
remove_philo t =
    let p = get_or t (length t - 1) nobody in
    if length t == initial_philos then (minus_one, [], t) else (
      pos 0,
      sem_wait mutex ∷ sem_close p.sem ∷ kill_process p.pid ∷ free p ∷ sem_post mutex ∷ [],
      take (length t - 1) t,
    )

-- What `printTable` writes for one philosopher after another.
unfoldable pub table_line : Table → List ℕ
table_line [] = b'\n' ∷ []
table_line (p ∷ t) = (if is_eating p.state then b'E' else b'-') ∷ b' ' ∷ table_line t
