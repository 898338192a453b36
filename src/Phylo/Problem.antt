-- ===== src/Phylo/Problem.antt =====
-- `philoProblem` of programs/phylo.c: the dinner from the opening of the table to its end. What is printed is
-- left out, and so is what the philosophers do meanwhile, which changes their states alone. The results of
-- the calls of the philosopher who sits down as the n-th one are a function of n.
use dog_os.Prelude.{
  ℕ, zero, suc, ◌+◌, Bool, true, false, Option, none, some, List, [], ◌∷◌, ◌++◌, ◌==◌, ◌>>=◌,
  if◌then◌else◌,
}
use dog_os.Prelude.Int.{ℤ, pos, is_minus_one}
use dog_os.Commands.{check_argc_wrapper}
use dog_os.Phylo.{
  Table, Call, add_philo, remove_philo, initial_philos, sem_open, sem_close, kill_process, free,
  new_table,
}

abbrev pub mutex_sem_id : ℕ
mutex_sem_id = 3000

-- Whether `malloc` succeeds, and the results of `semOpen` and `newProcess`.
pub record Results : Type 0 where
  pub memory : ℕ → Bool
  pub sem : ℕ → ℤ
  pub pid : ℕ → ℤ
  pub table_pid : ℤ
  pub mutex_sem : ℤ

-- The call of `addPhilo` that is the n-th one: the calls it makes, and the table.
unfoldable pub add_next : Results → ℕ → Table → List Call × Table
unfolding add_philo
add_next r n t = let (_, calls, t') = add_philo (r.memory n) (r.sem n) (r.pid n) t in (calls, t')

-- The loop in which the first philosophers sit down.
unfoldable pub seat_loop : ℕ → Results → ℕ → Table → List Call × Table
unfolding add_next
seat_loop zero r n t = ([], t)
seat_loop (suc i) r n t =
    let (calls, t') = add_next r n t in
    let (more, t'') = seat_loop i r (n + 1) t' in (calls ++ more, t'')

-- The loop on the keys, up to a `q`; `none` is a loop that waits for another key.
unfoldable pub key_loop : List ℕ → Results → ℕ → Table → Option (List Call × Table)
unfolding add_next remove_philo
key_loop [] r n t = none
key_loop (key ∷ keys) r n t = elim (key == b'q') [
  | true ↦ some ([], t)
  | false ↦ elim (key == b'a') [
    | true ↦
        let (calls, t') = add_next r n t in
        key_loop keys r (n + 1) t' >>= λ (u : List Call × Table). some (calls ++ u.0, u.1)
    | false ↦ elim (key == b'r') [
      | true ↦
          let (_, calls, t') = remove_philo t in
          key_loop keys r n t' >>= λ (u : List Call × Table). some (calls ++ u.0, u.1)
      | false ↦ key_loop keys r n t
    ]
  ]
]

-- The loop at the end, over the philosophers at the table.
unfoldable pub clear_table : Table → List Call
clear_table [] = []
clear_table (p ∷ t) = sem_close p.sem ∷ kill_process p.pid ∷ free p ∷ clear_table t

-- `philoProblem` behind the check of its arguments: its calls, given the keys.
unfoldable pub serve_dinner : (keys : List ℕ) → Results → Option (List Call)
unfolding seat_loop key_loop clear_table
serve_dinner keys r =
    let (seated, t) = seat_loop initial_philos r 0 [] in
    key_loop keys r initial_philos t >>= λ (u : List Call × Table). some (
      (sem_open mutex_sem_id r.mutex_sem ∷ seated)
      ++ ((new_table r.table_pid ∷ u.0)
          ++ (clear_table u.1 ++ (kill_process r.table_pid ∷ sem_close (pos mutex_sem_id) ∷ []))))

-- `philoProblem`
unfoldable pub philo_problem : (argc : ℕ) (keys : List ℕ) → Results → Option (List Call)
unfolding serve_dinner
philo_problem argc keys r =
    if is_minus_one (check_argc_wrapper argc 1).0 then some [] else serve_dinner keys r
