-- ===== src/Pipe.antt =====
-- Kernel/pipes/pipes.c and Kernel/include/pipes.h: the pipes, each a ring of bytes between two
-- semaphores. `semWait` may put the running process to sleep; the rest of the call runs when the
-- process is scheduled again, on what the pipes are by then. So a call gives an outcome: it returned,
-- or it sleeps and names what is left to do. `none` is a call that goes wrong: a write outside the
-- array of pipes, or a semaphore call that does not return.
mod Tests
pub mod Open
pub mod Write
pub mod Ring
use dog_os.Prelude.{
  ℕ, zero, suc, ◌+◌, ◌-◌, ◌%◌, ◌^◌, Bool, true, false, ◌&&◌, Option, none, some, List, [], ◌∷◌, ltb,
  ◌==◌, if◌then◌else◌, ◌>>=◌, get_or, set, length,
}
use dog_os.Prelude.Int.{
  ℤ, pos, negsuc, minus_one, sub_one, add_one, is_pos, of_char, to_u32, is_minus_one,
}
use dog_os.Services.{Services}
use dog_os.Semaphore.{Semaphores, get_semaphore, sem_open, sem_wait, sem_post, sem_close}

abbrev pub pipe_buffer_size : ℕ
pipe_buffer_size = 1024

abbrev pub max_pipes : ℕ
max_pipes = 8

pub record Pipe : Type 0 where
  pub id : ℕ
  pub buffer : List ℕ
  pub write_index : ℕ
  pub read_index : ℕ
  pub total_processes : ℤ
  pub write_lock : ℤ
  pub read_lock : ℤ
  pub in_use : Bool

-- The static variables of pipes.c, over the semaphores and the rest of the kernel.
pub record Pipes (S : Type 0) : Type 0 where
  pub pipes : List Pipe
  pub initial_sem_id : ℕ
  pub sems : Semaphores S

-- What is read outside the array; the code below looks only at indices that it found.
abbrev pub no_pipe : Pipe
no_pipe = record {
  id = 0;
  buffer = [];
  write_index = 0;
  read_index = 0;
  total_processes = pos 0;
  write_lock = pos 0;
  read_lock = pos 0;
  in_use = false;
}

-- `getIndex` and `getNewIndex`: the loops over the array, from index `i` on.
unfoldable pub index_from : ℕ → List Pipe → ℕ → Option ℕ
index_from i [] id = none
index_from i (p ∷ ps) id = if p.in_use && (p.id == id) then some i else index_from (i + 1) ps id

unfoldable pub new_index_from : ℕ → List Pipe → Option ℕ
new_index_from i [] = none
new_index_from i (p ∷ ps) = if p.in_use then new_index_from (i + 1) ps else some i

-- How a call of `pipeRead` or `pipeWrite` ends: with a result, or asleep in `semWait`, at the pipe of
-- that index and with those characters still to write (none for a reader).
pub data Outcome (S : Type 0) : Type 0 where
  returns : ℤ → Pipes S → Outcome S
  sleeps : ℕ → List ℕ → Pipes S → Outcome S

module _ {S : Type 0} where
  abbrev pub pipe_at : Pipes S → ℕ → Pipe
  pipe_at p i = get_or p.pipes i no_pipe

  abbrev pub put_pipe : Pipes S → ℕ → Pipe → Pipes S
  put_pipe p i b = record p { pipes = set p.pipes i b }

  abbrev pub get_index : Pipes S → ℕ → Option ℕ
  get_index p id = index_from 0 p.pipes id

  -- Whether `semWait` on that semaphore blocks the process.
  abbrev pub blocks : ℤ → Semaphores S → Bool
  blocks lock st = elim (get_semaphore (to_u32 lock) st.semaphores) [
    | none ↦ false
    | some s ↦ s.value == 0
  ]

  -- `pipes[idx].totalProcesses++`
  unfoldable pub attach : ℕ → ℕ → Pipes S → Option (ℤ × Pipes S)
  attach i id p =
      let b = pipe_at p i in
      if ltb i max_pipes
      then some (pos id, put_pipe p i (record b { total_processes = add_one b.total_processes }))
      else none

module _ {S : Type 0} (api : Services S) where
  -- The id of the pipe, or -1.
  unfoldable pub create_pipe : ℕ → Pipes S → ℤ × Pipes S
  create_pipe id p = elim (new_index_from 0 p.pipes) [
    | none ↦ (minus_one, p)
    | some i ↦
        let b : Pipe = record (pipe_at p i) {
          id = id;
          in_use = true;
          total_processes = pos 0;
          write_index = 0;
          read_index = 0;
        } in
        let n = p.initial_sem_id in
        let (r, st₁) = sem_open api n 0 p.sems in
        let (w, st₂) = sem_open api (n + 1) pipe_buffer_size st₁ in
        let b₁ : Pipe = record b { read_lock = r } in
        let p₁ : Pipes S = record {
          pipes = set p.pipes i b₁;
          initial_sem_id = n + 1;
          sems = st₁;
        } in
        let b₂ : Pipe = record b₁ { write_lock = w } in
        let p₂ : Pipes S = record {
          pipes = set p.pipes i b₂;
          initial_sem_id = n + 2;
          sems = st₂;
        } in
        if is_minus_one r
        then (minus_one, p₁)
        else if is_minus_one w
        then (minus_one, p₂)
        else (pos id, p₂)
  ]

  -- The result of `createPipe` is taken for an index.
  unfoldable pub pipe_open : ℕ → Pipes S → Option (ℤ × Pipes S)
  unfolding create_pipe attach index_from
  pipe_open id p = elim (get_index p id) [
    | some i ↦ attach i id p
    | none ↦
        let (r, p') = create_pipe id p in
        if is_minus_one r then some (minus_one, p') else attach id id p'
  ]

  -- `pipeRead` from the return of `semWait` on.
  unfoldable pub finish_read : ℕ → Pipes S → Option (Outcome S)
  finish_read i p = do
    let b = pipe_at p i
    let c = get_or b.buffer b.read_index 0
    let p' = put_pipe p i (record b { read_index = (b.read_index + 1) % pipe_buffer_size })
    (_, st) ← sem_post api (to_u32 b.write_lock) p'.sems
    some (returns (of_char c) (record p' { sems = st }))

  unfoldable pub pipe_read : ℕ → Pipes S → Option (Outcome S)
  unfolding finish_read index_from
  pipe_read id p = elim (get_index p id) [
    | none ↦ some (returns minus_one p)
    | some i ↦ do
      let lock = (pipe_at p i).read_lock
      (_, st) ← sem_wait api (to_u32 lock) p.sems
      let p' = record p { sems = st }
      if blocks lock p.sems then some (sleeps i [] p') else finish_read i p'
  ]

  -- `pipeWriter` from the return of `semWait` on.
  unfoldable pub store : ℕ → ℕ → Pipes S → Option (Pipes S)
  store i c p = do
    let b = pipe_at p i
    let b' : Pipe = record b {
      buffer = set b.buffer b.write_index c;
      write_index = (b.write_index + 1) % pipe_buffer_size;
    }
    (_, st) ← sem_post api (to_u32 b.read_lock) p.sems
    some (record (put_pipe p i b') { sems = st })

  -- The loop of `pipeWrite` on what is left of the string.
  unfoldable pub write_loop : ℕ → ℕ → List ℕ → Pipes S → Option (Outcome S)
  unfolding store
  write_loop id i [] p = some (returns (pos id) p)
  write_loop id i (c ∷ cs) p = do
    let lock = (pipe_at p i).write_lock
    (_, st) ← sem_wait api (to_u32 lock) p.sems
    let p' = record p { sems = st }
    if blocks lock p.sems
        then some (sleeps i (c ∷ cs) p')
        else store i c p' >>= λ p''. write_loop id i cs p''

  -- What a writer does that was asleep: the character that it waited to write, and the rest.
  unfoldable pub resume_write : ℕ → ℕ → List ℕ → Pipes S → Option (Outcome S)
  unfolding write_loop
  resume_write id i [] p = some (returns (pos id) p)
  resume_write id i (c ∷ cs) p = store i c p >>= λ p'. write_loop id i cs p'

  unfoldable pub pipe_write : ℕ → List ℕ → Pipes S → Option (Outcome S)
  unfolding write_loop index_from
  pipe_write id str p = elim (get_index p id) [
    | none ↦ some (returns minus_one p)
    | some i ↦ write_loop id i str p
  ]

  unfoldable pub pipe_close : ℕ → Pipes S → ℤ × Pipes S
  unfolding index_from
  pipe_close id p = elim (get_index p id) [
    | none ↦ (minus_one, p)
    | some i ↦
        let b = pipe_at p i in
        let b' : Pipe = record b { total_processes = sub_one b.total_processes } in
        let (_, st₁) = sem_close api (to_u32 b.read_lock) p.sems in
        let (_, st₂) = sem_close api (to_u32 b.write_lock) st₁ in
        if is_pos b'.total_processes
        then (pos 1, put_pipe p i b')
        else (pos 1, record (put_pipe p i (record b' { in_use = false })) { sems = st₂ })
  ]
