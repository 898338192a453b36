-- ===== src/Semaphore.antt =====
-- Kernel/semaphores/semaphores.c and Kernel/include/semaphores.h: the counting semaphores.
-- The linked list of semaphores is a list; a semaphore carries the address of its node. A write
-- outside `blockedProcesses`, and a lock that is taken already, give `none`.
pub mod Queue
pub mod Balance
pub mod Calls
pub mod Life
pub mod Table
pub mod Tests
use dog_os.Prelude.{
  ℕ, zero, suc, ◌+◌, ◌-◌, ◌%◌, ◌^◌, Bool, true, false, Option, none, some, List, [], ◌∷◌, ◌++◌, ltb,
  leb, ◌==◌, if◌then◌else◌, ◌>>=◌, get_or, set, replicate,
}
use dog_os.Prelude.Int.{ℤ, pos, minus_one, to_u64, of_u32}
use dog_os.Services.{Services}

abbrev pub max_blocked_processes : ℕ
max_blocked_processes = 20

-- `sizeof(t_semaphore)`.
abbrev pub size_of_semaphore : ℕ
size_of_semaphore = 120

pub record Semaphore : Type 0 where
  pub address : ℕ
  pub id : ℕ
  pub value : ℕ
  pub blocked_processes : List ℤ
  pub blocked_processes_amount : ℕ
  pub listening_processes : ℕ
  pub lock : ℕ

-- `acquire` and `release` of Kernel/lib.c on the lock of a semaphore: the exchange is repeated until
-- it finds 0, which here is at once or never.
abbrev pub acquire : Semaphore → Option Semaphore
acquire s = if s.lock == 0 then some (record s { lock = 1 }) else none

abbrev pub release : Semaphore → Semaphore
release s = record s { lock = 0 }

-- `getSemaphore`.
unfoldable pub get_semaphore : ℕ → List Semaphore → Option Semaphore
get_semaphore id [] = none
get_semaphore id (s ∷ ss) = if s.id == id then some s else get_semaphore id ss

-- The list after a write to the node that `getSemaphore` finds, and after `removeSemaphore` of it.
unfoldable pub update_semaphore : Semaphore → List Semaphore → List Semaphore
update_semaphore s [] = []
update_semaphore s (t ∷ ts) = if t.id == s.id then s ∷ ts else t ∷ update_semaphore s ts

unfoldable pub remove_semaphore : ℕ → List Semaphore → List Semaphore
remove_semaphore id [] = []
remove_semaphore id (s ∷ ss) = if s.id == id then ss else s ∷ remove_semaphore id ss

-- `semWait` on the semaphore that it locked: the semaphore, and whether the process has to wait.
unfoldable pub wait_on : ℤ → Semaphore → Option (Semaphore × Bool)
wait_on pid s =
    if ltb 0 s.value
    then some (record s { value = s.value - 1 }, false)
    else if ltb s.blocked_processes_amount max_blocked_processes
    then some (
      record s {
        blocked_processes = set s.blocked_processes s.blocked_processes_amount pid;
        blocked_processes_amount = (s.blocked_processes_amount + 1) % 2 ^ 16;
      },
      true,
    )
    else none

-- The loop of `unblockSemProcess`: `n` moves, each one place to the left, from index `i` on.
unfoldable pub shift_left : ℕ → ℕ → List ℤ → List ℤ
shift_left zero i a = a
shift_left (suc n) i a = shift_left n (i + 1) (set a i (get_or a (i + 1) (pos 0)))

-- `semPost` on the semaphore that it locked: the semaphore, and the process to make READY.
unfoldable pub post_to : Semaphore → Semaphore × Option ℤ
unfolding shift_left
post_to s =
    if ltb 0 s.blocked_processes_amount
    then (
      record s {
        blocked_processes = shift_left (s.blocked_processes_amount - 1) 0 s.blocked_processes;
        blocked_processes_amount = s.blocked_processes_amount - 1;
      },
      some (get_or s.blocked_processes 0 (pos 0)),
    )
    else (record s { value = (s.value + 1) % 2 ^ 64 }, none)

-- The semaphores and the state of the rest of the kernel.
pub record Semaphores (S : Type 0) : Type 0 where
  pub semaphores : List Semaphore
  pub sys : S

module _ {S : Type 0} where
  -- The end of `semOpen`: one more process listens.
  unfoldable pub listen : ℕ → Semaphore → Semaphores S → ℤ × Semaphores S
  listen id s st = if leb max_blocked_processes s.listening_processes then (minus_one, st) else (
    of_u32 id,
    record st {
      semaphores =
          update_semaphore (record s { listening_processes = (s.listening_processes + 1) % 2 ^ 16 })
            st.semaphores;
    },
  )

module _ {S : Type 0} (api : Services S) where
  -- `createSemaphore`, with `addSemaphoreToList`; `none` where `malloc` fails.
  unfoldable pub create_semaphore :
      (id initial : ℕ) → Semaphores S → Option Semaphore × Semaphores S
  create_semaphore id initial st =
      let (p, sys) = api.malloc st.sys size_of_semaphore in
      let s : Semaphore = record {
        address = p;
        id = id;
        value = initial;
        blocked_processes = replicate max_blocked_processes api.garbage;
        blocked_processes_amount = 0;
        listening_processes = 0;
        lock = 0;
      } in
      if p == 0
      then (none, record st { sys = sys })
      else (some s, record { semaphores = st.semaphores ++ (s ∷ []); sys = sys })

  unfoldable pub sem_open : (id initial : ℕ) → Semaphores S → ℤ × Semaphores S
  unfolding create_semaphore listen get_semaphore update_semaphore
  sem_open id initial st = elim (get_semaphore id st.semaphores) [
    | some s ↦ listen id s st
    | none ↦
        let (made, st') = create_semaphore id initial st in
        elim made [ none ↦ (minus_one, st') | some s ↦ listen id s st' ]
  ]

  unfoldable pub sem_wait : ℕ → Semaphores S → Option (ℤ × Semaphores S)
  unfolding wait_on get_semaphore update_semaphore
  sem_wait id st = elim (get_semaphore id st.semaphores) [
    | none ↦ some (minus_one, st)
    | some s ↦ do
      locked ← acquire s
      let pid = api.current_pid st.sys
      (s', waits) ← wait_on pid locked
      let st' = record st { semaphores = update_semaphore (release s') st.semaphores }
      if waits
          then (do sys ← api.block (to_u64 pid) st'.sys; some (pos 0, record st' { sys = sys }))
          else some (pos 0, st')
  ]

  unfoldable pub sem_post : ℕ → Semaphores S → Option (ℤ × Semaphores S)
  unfolding post_to get_semaphore update_semaphore
  sem_post id st = elim (get_semaphore id st.semaphores) [
    | none ↦ some (minus_one, st)
    | some s ↦ do
      locked ← acquire s
      let (s', woken) = post_to locked
      let st' = record st { semaphores = update_semaphore (release s') st.semaphores }
      elim woken [
        | none ↦ some (pos 0, st')
        | some pid ↦ do sys ← api.ready (to_u64 pid) st'.sys; some (pos 0, record st' { sys = sys })
      ]
  ]

  -- The semaphore goes away with the last process that listens.
  unfoldable pub sem_close : ℕ → Semaphores S → ℤ × Semaphores S
  unfolding get_semaphore update_semaphore remove_semaphore
  sem_close id st = elim (get_semaphore id st.semaphores) [
    | none ↦ (minus_one, st)
    | some s ↦
        let left : ℕ =
          if ltb 0 s.listening_processes
          then s.listening_processes - 1
          else s.listening_processes in
        if left == 0
        then (
          pos 0,
          record {
            semaphores = remove_semaphore id st.semaphores;
            sys = api.free st.sys s.address;
          },
        )
        else (
          pos 0,
          record st {
            semaphores = update_semaphore (record s { listening_processes = left }) st.semaphores;
          },
        )
  ]
