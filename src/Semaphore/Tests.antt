-- ===== src/Semaphore/Tests.antt =====
-- The semaphores of semaphores.c on a small table, and their theorems at it. The rest of the kernel is
-- a log of the calls.
use dog_os.Prelude.{
  ℕ, ◌+◌, ◌-◌, ◌≡◌, refl, some, List, [], ◌∷◌, arith, ◌==◌, if◌then◌else◌, replicate, inl, inr,
  length,
}
use dog_os.Prelude.Int.{pos}
use dog_os.Services.{Services}
use dog_os.Semaphore.{Semaphore, Semaphores, get_semaphore, sem_wait, sem_post}
use dog_os.Semaphore.Queue.{IsSemaphore, waiting, wait_spec, post_spec}
use dog_os.Semaphore.Table.{IsTable}
use dog_os.Semaphore.Calls.{Changed, sem_wait-refines, sem_post-refines}
use dog_os.Semaphore.Balance.{waits, posts, serve, serve_balance, count_waits, count_posts}

pub data Call : Type 0 where
  blocked woken freed : ℕ → Call

-- Process 7 is running; `malloc` returns the address 640, or NULL when no blocks are left.
pub record Log : Type 0 where
  pub calls : List Call
  pub blocks_left : ℕ

abbrev pub log : Services Log
log = record {
  current_pid = λ s. pos 7;
  block = λ pid s. some (record s { calls = blocked pid ∷ s.calls });
  ready = λ pid s. some (record s { calls = woken pid ∷ s.calls });
  malloc = λ s n.
      if s.blocks_left == 0 then (0, s) else (640, record s { blocks_left = s.blocks_left - 1 });
  free = λ s p. record s { calls = freed p ∷ s.calls };
  garbage = pos 0;
}

-- A semaphore with nobody waiting, and one for which process 3 waits and two processes listen.
abbrev plain : Semaphore
plain = record {
  address = 512;
  id = 55;
  value = 1;
  blocked_processes = replicate 20 (pos 0);
  blocked_processes_amount = 0;
  listening_processes = 1;
  lock = 0;
}

abbrev taken : Semaphore
taken = record {
  address = 576;
  id = 10;
  value = 0;
  blocked_processes = pos 3 ∷ replicate 19 (pos 0);
  blocked_processes_amount = 1;
  listening_processes = 2;
  lock = 0;
}

abbrev pub table : Semaphores Log
table = record { semaphores = plain ∷ taken ∷ []; sys = record { calls = []; blocks_left = 1 } }

plain-IsSemaphore : IsSemaphore plain
plain-IsSemaphore = record {
  array = refl;
  in_array = omega arith;
  listening = omega arith;
  idle = inr refl;
  bounded = omega arith;
}

table-IsTable : IsTable table.semaphores
table-IsTable = record {
  free = (
    plain-IsSemaphore,
    refl,
    (
      record {
        array = refl;
        in_array = omega arith;
        listening = omega arith;
        idle = inl refl;
        bounded = omega arith;
      },
      refl,
      tt,
    ),
  );
  distinct = ((omega arith, tt), (tt, tt));
}

-- Process 7 has to wait for the semaphore 10, behind process 3.
sem_wait-refines_example :
    (ss : List Semaphore) × (sem_wait log 10 table
      ≡ some (
        pos 0,
        record { semaphores = ss; sys = record { calls = blocked 7 ∷ []; blocks_left = 1 } },
      ))
    × Changed table.semaphores ss 10 (0, pos 3 ∷ pos 7 ∷ [])
unfolding wait_spec get_semaphore
sem_wait-refines_example =
    sem_wait-refines log table 10 taken table-IsTable refl (inr (omega arith))

sem_post-refines_example :
    (ss : List Semaphore) × (sem_post log 10 table
      ≡ some (
        pos 0,
        record { semaphores = ss; sys = record { calls = woken 3 ∷ []; blocks_left = 1 } },
      ))
    × Changed table.semaphores ss 10 (0, [])
unfolding post_spec get_semaphore
sem_post-refines_example = sem_post-refines log table 10 taken table-IsTable refl (omega arith)

-- Three processes use the semaphore 55, which admits one at a time.
serve_balance_example :
    let us = waits (pos 1) ∷ waits (pos 2) ∷ posts ∷ posts ∷ [] in
    (s' : Semaphore) × (serve us plain ≡ some s')
    × IsSemaphore s'
    × (s'.value + 0 + 2 ≡ 1 + length (waiting s') + 2)
unfolding count_waits count_posts
serve_balance_example =
    serve_balance (waits (pos 1) ∷ waits (pos 2) ∷ posts ∷ posts ∷ []) plain plain-IsSemaphore
      (omega arith) (omega arith)
