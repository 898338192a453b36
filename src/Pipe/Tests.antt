-- ===== src/Pipe/Tests.antt =====
-- The pipes of pipes.c on small inputs, and their theorems at them.
use dog_os.Prelude.{
  ℕ, suc, ap, ◌<◌, ◌^◌, ◌≡◌, refl, true, some, [], ◌∷◌, arith, length-replicate, replicate, inr,
}
use dog_os.Prelude.Int.{pos}
use dog_os.Semaphore.{Semaphore, get_semaphore}
use dog_os.Semaphore.Queue.{IsSemaphore}
use dog_os.Semaphore.Table.{IsTable}
use dog_os.Semaphore.Tests.{Log, log}
use dog_os.Pipe.{Pipe, Pipes, no_pipe, index_from, pipe_read, pipe_write, returns}
use dog_os.Pipe.Ring.{Holds, pipe_read-cons}
use dog_os.Pipe.Write.{pipe_write-append}

abbrev counter : ℕ → ℕ → Semaphore
counter n value = record {
  address = 0;
  id = n;
  value = value;
  blocked_processes = replicate 20 (pos 0);
  blocked_processes_amount = 0;
  listening_processes = 2;
  lock = 0;
}

-- The pipe 70 at the index 0, which holds an A, and seven slots that are free.
abbrev shut : Pipe
shut = record {
  id = 70;
  buffer = b'A' ∷ replicate 1023 0;
  write_index = 1;
  read_index = 0;
  total_processes = pos 1;
  write_lock = pos 1001;
  read_lock = pos 1000;
  in_use = true;
}

abbrev pipes : Pipes Log
pipes = record {
  pipes = shut ∷ replicate 7 no_pipe;
  initial_sem_id = 1002;
  sems = record {
    semaphores = counter 1000 1 ∷ counter 1001 1023 ∷ [];
    sys = record { calls = []; blocks_left = 2 };
  };
}

counter-IsSemaphore : (n v : ℕ) → v < 2 ^ 64 → IsSemaphore (counter n v)
counter-IsSemaphore n v h = record {
  array = refl;
  in_array = omega arith;
  listening = omega arith;
  idle = inr refl;
  bounded = h;
}

pipes-IsTable : IsTable pipes.sems.semaphores
pipes-IsTable = record {
  free = (
    counter-IsSemaphore 1000 1 (omega arith),
    refl,
    (counter-IsSemaphore 1001 1023 (omega arith), refl, tt),
  );
  distinct = ((omega arith, tt), (tt, tt));
}

pipes-Holds : Holds pipes 0 (b'A' ∷ [])
unfolding get_semaphore
pipes-Holds = (
  omega arith,
  record {
    buffer = ap suc (length-replicate {A = ℕ} 1023 0);
    read = omega arith;
    write = refl;
    bytes = refl;
    fits = omega arith;
    table = pipes-IsTable;
    filled = record { sem = counter 1000 1; found = refl; sees = refl };
    free = record { sem = counter 1001 1023; found = refl; sees = refl };
    apart = omega arith;
  },
)

pipe_read-cons_example :
    (p' : Pipes Log) × (pipe_read log 70 pipes ≡ some (returns (pos b'A') p')) × Holds p' 0 []
unfolding index_from
pipe_read-cons_example = pipe_read-cons log pipes 70 0 b'A' [] refl pipes-Holds

pipe_write-append_example :
    (p' : Pipes Log) × (pipe_write log 70 (b'B' ∷ b'C' ∷ []) pipes ≡ some (returns (pos 70) p'))
    × Holds p' 0 (b'A' ∷ b'B' ∷ b'C' ∷ [])
unfolding index_from
pipe_write-append_example =
    pipe_write-append log pipes 70 0 (b'B' ∷ b'C' ∷ []) (b'A' ∷ []) refl pipes-Holds (omega arith)
