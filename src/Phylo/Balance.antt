-- ===== src/Phylo/Balance.antt =====
-- The dinner of programs/phylo.c as a whole: what is taken from the system is given back.
use dog_os.Prelude.{
  ℕ, zero, suc, ◌+◌, ◌-◌, ◌<◌, ◌≤◌, ◌≡◌, refl, ap, true, some, List, [], ◌∷◌, ◌++◌, ◌==◌, length,
  length-append, length-take, get_or, arith, Bool-cases, inl, inr, ◌∈◌,
}
use dog_os.Prelude.Int.{ℤ, pos}
use dog_os.Phylo.{
  Philosopher, thinking, nobody, filo_sem_id, Table, Call, add_philo, remove_philo, initial_philos,
  max_philos, sem_open, sem_close, kill_process, new_table,
}
use dog_os.Phylo.Problem.{
  Results, add_next, seat_loop, key_loop, clear_table, philo_problem, serve_dinner, mutex_sem_id,
}
use dog_os.Phylo.Kinds.{
  count, hit, starts, kills, opens, closes, seats, frees, mallocs, releases, processes, semaphores,
  places, blocks, held-append, held-take, count-append, Held, Held-append,
}

-- One who sits down, where memory is given.
add_next-Held :
    (r : Results) (n : ℕ) (t : Table)
    → r.memory n ≡ true
    → length t ≤ max_philos
    → Held (add_next r n t).0 t (add_next r n t).1
      × (length t ≤ length (add_next r n t).1)
      × (length (add_next r n t).1 ≤ max_philos)
      × ((length t < max_philos) → length (add_next r n t).1 ≡ length t + 1)
unfolding add_next add_philo
add_next-Held r n t given room = elim (Bool-cases (length t == max_philos)) [
  | inl e ↦ rw e (λ k. refl, omega arith, room, λ h. ground (arith, e, h))
  | inr e ↦
      let p : Philosopher = record {
        pid = r.pid n;
        sem = r.sem n;
        id = length t;
        state = thinking;
      } in
      let long = length-append t (p ∷ []) in
      rw (e, given)
        (
          λ k.
              let (given', taken) = k.on_sitting (filo_sem_id + length t) (length t) p in
              omega (arith, held-append k.per t p, given', taken),
          omega (arith, long),
          ground (arith, long, e, room),
          λ h. long,
        )
]

remove_philo-Held :
    (t : Table)
    → initial_philos ≤ length t
    → Held (remove_philo t).1 t (remove_philo t).2
      × (initial_philos ≤ length (remove_philo t).2)
      × (length (remove_philo t).2 ≤ length t)
unfolding remove_philo
remove_philo-Held t enough = elim (Bool-cases (length t == initial_philos)) [
  | inl e ↦ rw e (λ k. refl, enough, omega arith)
  | inr e ↦
      let long = length-take (length t - 1) t in
      let more : initial_philos < length t = ground arith in
      rw e (
        λ k.
            let (given, taken) = k.on_leaving (get_or t (length t - 1) nobody) in
            omega (arith, held-take k.per (length t - 1) t (omega arith), given, taken),
        omega (arith, long),
        omega (arith, long),
      )
]

module _ (r : Results) (given : (n : ℕ) → r.memory n ≡ true) where
  seat_loop-Held :
      (i n : ℕ) (t : Table)
      → length t + i ≤ max_philos
      → Held (seat_loop i r n t).0 t (seat_loop i r n t).1
        × (length (seat_loop i r n t).1 ≡ length t + i)
  unfolding seat_loop
  seat_loop-Held zero n t room = (λ k. refl, omega arith)
  seat_loop-Held (suc i) n t room =
      let (h, grows, few, one) = add_next-Held r n t (given n) (omega arith) in
      let more = one (omega arith) in
      let (g, all) = seat_loop-Held i (n + 1) (add_next r n t).1 (omega (arith, more)) in
      (Held-append _ _ _ _ _ h g, omega (arith, more, all))

  -- The keys up to a `q`, at a table that is neither too small nor too large.
  key_loop-Held :
      (keys : List ℕ) (n : ℕ) (t : Table)
      → b'q' ∈ keys
      → initial_philos ≤ length t
      → length t ≤ max_philos
      → (cs : List Call) × (t' : Table) × (key_loop keys r n t ≡ some (cs, t')) × Held cs t t'
  unfolding key_loop
  key_loop-Held [] n t q enough few = elim q [ ]
  key_loop-Held (key ∷ keys) n t q enough few = elim (Bool-cases (key == b'q')) [
    | inl e ↦ ([], t, rw (e, key_loop) refl, λ k. refl)
    | inr e ↦
        let later : b'q' ∈ keys = elim q [ inl h ↦ absurd (ground (arith, e, h)) | inr h ↦ h ] in
        elim (Bool-cases (key == b'a')) [
          | inl a ↦
              let (h, grows, still, one) = add_next-Held r n t (given n) few in
              let (cs, t', loop, g) =
                key_loop-Held keys (n + 1) (add_next r n t).1 later (omega arith) still in
              (
                (add_next r n t).0 ++ cs,
                t',
                rw (e, key_loop) (rw (a, key_loop) (rw (loop, key_loop) refl)),
                Held-append _ _ _ _ _ h g,
              )
          | inr a ↦ elim (Bool-cases (key == b'r')) [
            | inl b ↦
                let (h, still, shrinks) = remove_philo-Held t enough in
                let (cs, t', loop, g) =
                  key_loop-Held keys n (remove_philo t).2 later still (omega arith) in
                (
                  (remove_philo t).1 ++ cs,
                  t',
                  rw (e, key_loop) (rw (a, key_loop) (rw (b, key_loop) (rw (loop, key_loop) refl))),
                  Held-append _ _ _ _ _ h g,
                )
            | inr b ↦
                let (cs, t', loop, g) = key_loop-Held keys n t later enough few in
                (cs, t', rw (e, key_loop) (rw (a, key_loop) (rw (b, key_loop) loop)), g)
          ]
        ]
  ]

clear_table-Held : (t : Table) → Held (clear_table t) t []
unfolding clear_table
clear_table-Held [] k = refl
clear_table-Held (p ∷ t) k =
    let (given, taken) = k.on_clearing p in omega (arith, clear_table-Held t k, given, taken)

count-parts :
    (w : Call → ℕ) (ks bs cs ds : List Call)
    → count w (ks ++ (bs ++ (cs ++ ds))) ≡ count w ks + (count w bs + (count w cs + count w ds))
count-parts w ks bs cs ds =
    let first = count-append w ks (bs ++ (cs ++ ds)) in
    let second = count-append w bs (cs ++ ds) in omega (arith, first, second, count-append w cs ds)

-- Where `malloc` never fails and `semOpen` returns the number of the mutex, the dinner of `philoProblem`,
-- with one argument, ends when a `q` is among the keys, whoever comes and goes before it. By then, for each number, the processes with that pid are killed as
-- many times as they were started, the semaphores with that number closed as many times as they were opened,
-- and the blocks of the philosophers with that pid freed as many times as one of them sat down; and as many
-- blocks are freed as were allocated.
pub philo_problem-balance :
    (r : Results) (keys : List ℕ)
    → ((n : ℕ) → r.memory n ≡ true)
    → r.mutex_sem ≡ pos mutex_sem_id
    → b'q' ∈ keys
    → (cs : List Call) × (philo_problem 1 keys r ≡ some cs)
      × ((x : ℤ)
          → (count (kills x) cs ≡ count (starts x) cs)
            × (count (closes x) cs ≡ count (opens x) cs)
            × (count (frees x) cs ≡ count (seats x) cs))
      × (count releases cs ≡ count mallocs cs)
unfolding philo_problem serve_dinner
philo_problem-balance r keys given own q =
    let seated = seat_loop initial_philos r 0 [] in
    let (h, size) = seat_loop-Held r given initial_philos 0 [] (omega arith) in
    let (calls, t, loop, g) =
      key_loop-Held r given keys initial_philos seated.1 q (omega (arith, size))
        (omega (arith, size)) in
    let start : List Call = sem_open mutex_sem_id r.mutex_sem ∷ seated.0 in
    let dinner : List Call = new_table r.table_pid ∷ calls in
    let end : List Call = kill_process r.table_pid ∷ sem_close (pos mutex_sem_id) ∷ [] in
    let parts : (w : Call → ℕ)
        → count w (start ++ (dinner ++ (clear_table t ++ end)))
          ≡ count w start + (count w dinner + (count w (clear_table t) + count w end)) =
      λ w. count-parts w start dinner (clear_table t) end in
    let f = clear_table-Held t in
    (
      start ++ (dinner ++ (clear_table t ++ end)),
      rw loop refl,
      λ x. (
        omega (
          arith,
          parts (kills x),
          parts (starts x),
          h (processes x),
          g (processes x),
          f (processes x),
        ),
        omega (
          arith,
          parts (closes x),
          parts (opens x),
          h (semaphores x),
          g (semaphores x),
          f (semaphores x),
          ap (hit x) own,
        ),
        omega (arith, parts (frees x), parts (seats x), h (places x), g (places x), f (places x)),
      ),
      omega (arith, parts releases, parts mallocs, h blocks, g blocks, f blocks),
    )
