-- ===== src/Phylo/Tests.antt =====
-- A dinner of six, and the theorems about dinners at it.
use dog_os.Prelude.{ℕ, zero, suc, ◌+◌, refl, true, [], ◌∷◌, arith, List, some, inl, inr, ◌≡◌}
use mathlib.Core.Bool.{false≢true}
use dog_os.Prelude.Int.{ℤ, pos}
use dog_os.Phylo.{PhiloState, thinking, hungry, eating, Philosopher, Table, remove_philo, Call}
use dog_os.Phylo.Safety.{Apart}
use dog_os.Phylo.Dinner.{takes, puts, joins, dinner, IsOpen, dinner-IsOpen, remove_philo-neighbours}
use dog_os.Phylo.Problem.{Results, philo_problem}
use dog_os.Phylo.Kinds.{count, kills, starts, closes, opens, frees, seats, releases, mallocs}
use dog_os.Phylo.Balance.{philo_problem-balance}

abbrev philosopher : ℕ → PhiloState → Philosopher
philosopher i s = record { pid = pos (10 + i); sem = pos (2000 + i); id = i; state = s }

-- The first and the last but one eat.
abbrev six : Table
six =
    philosopher 0 eating
    ∷ philosopher 1 hungry
    ∷ philosopher 2 thinking
    ∷ philosopher 3 thinking
    ∷ philosopher 4 eating
    ∷ philosopher 5 hungry
    ∷ []

six-Apart : Apart six
six-Apart zero h e = refl
six-Apart (suc zero) h e = refl
six-Apart (suc (suc zero)) h e = refl
six-Apart (suc (suc (suc zero))) h e = absurd (false≢true e)
six-Apart (suc (suc (suc (suc zero)))) h e = refl
six-Apart (suc (suc (suc (suc (suc zero))))) h e = absurd (false≢true e)
six-Apart (suc (suc (suc (suc (suc (suc i)))))) h e = absurd (omega arith)

six-IsOpen : IsOpen six
six-IsOpen = record { many = omega arith; seats = omega arith; apart = six-Apart }

dinner-IsOpen_example : IsOpen (dinner (puts 0 ∷ joins true (pos 2006) (pos 16) ∷ takes 2 ∷ []) six)
dinner-IsOpen_example =
    dinner-IsOpen (puts 0 ∷ joins true (pos 2006) (pos 16) ∷ takes 2 ∷ []) six six-IsOpen

remove_philo-neighbours_example : ¬ Apart (remove_philo six).2
remove_philo-neighbours_example = remove_philo-neighbours six (omega arith) refl refl

abbrev generous : Results
generous = record {
  memory = λ n. true;
  sem = λ n. pos (2000 + n);
  pid = λ n. pos (10 + n);
  table_pid = pos 9;
  mutex_sem = pos 3000;
}

-- Two more sit down, one leaves, and the table is closed.
philo_problem-balance_example :
    (cs : List Call) × (philo_problem 1 (b'a' ∷ b'a' ∷ b'r' ∷ b'q' ∷ []) generous ≡ some cs)
    × ((x : ℤ)
        → (count (kills x) cs ≡ count (starts x) cs)
          × (count (closes x) cs ≡ count (opens x) cs)
          × (count (frees x) cs ≡ count (seats x) cs))
    × (count releases cs ≡ count mallocs cs)
philo_problem-balance_example =
    philo_problem-balance generous (b'a' ∷ b'a' ∷ b'r' ∷ b'q' ∷ []) (λ n. refl) refl
      (inr (inr (inr (inl refl))))
