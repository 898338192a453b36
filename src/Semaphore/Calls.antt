-- ===== src/Semaphore/Calls.antt =====
-- The calls `semOpen`, `semWait`, `semPost` and `semClose` of Kernel/semaphores/semaphores.c on the
-- whole table.
use dog_os.Prelude.{
  ℕ, ◌+◌, ◌^◌, ◌<◌, ◌≡◌, ◌≢◌, refl, ◌∙◌, Bool, true, none, some, List, arith, ◌==◌, if◌then◌else◌,
  ◌>>=◌, ◌⊎◌,
}
use dog_os.Prelude.Int.{ℤ, pos, minus_one, to_u64}
use dog_os.Services.{Services}
use dog_os.Semaphore.{
  Semaphore, Semaphores, max_blocked_processes, wait_on, post_to, release, get_semaphore,
  update_semaphore, sem_wait, sem_post, sem_close,
}
use dog_os.Semaphore.Queue.{
  IsSemaphore, View, view, wait_spec, post_spec, wait_on-refines, post_to-refines,
  post_to-IsSemaphore,
}
use dog_os.Semaphore.Table.{
  IsTable, id-get_semaphore, get_semaphore-free, update_semaphore-IsTable,
  get_semaphore-update_semaphore,
}

-- `ss'` is `ss` with the semaphore `id` changed to one whose view is `v`, unlocked as before.
pub record Changed (ss ss' : List Semaphore) (id : ℕ) (v : View) : Type 0 where
  pub table : IsTable ss'
  pub after : Semaphore
  pub found : get_semaphore id ss' ≡ some after
  pub sees : view after ≡ v
  pub others : (j : ℕ) → j ≢ id → get_semaphore j ss' ≡ get_semaphore j ss

lock-IsSemaphore : (s : Semaphore) (l : ℕ) → IsSemaphore s → IsSemaphore (record s { lock = l })
lock-IsSemaphore s l v = record {
  array = v.array;
  in_array = v.in_array;
  listening = v.listening;
  idle = v.idle;
  bounded = v.bounded;
}

wait_on-id : (pid : ℤ) (s s' : Semaphore) (b : Bool) → wait_on pid s ≡ some (s', b) → s'.id ≡ s.id
unfolding wait_on
wait_on-id pid s s' b h = ground arith

post_to-id : (s : Semaphore) → (post_to s).0.id ≡ s.id
unfolding post_to
post_to-id s = ground arith

changed :
    (ss : List Semaphore) (id : ℕ) (s s' : Semaphore)
    → IsTable ss
    → get_semaphore id ss ≡ some s
    → IsSemaphore s'
    → s'.id ≡ id
    → s'.lock ≡ 0
    → Changed ss (update_semaphore s' ss) id (view s')
changed ss id s s' t g v e l =
    let at = λ (j : ℕ). get_semaphore-update_semaphore s' ss s j (rw e g) in
    record {
      table = update_semaphore-IsTable s' ss t v l;
      after = s';
      found = at id ∙ ground (arith, e);
      sees = refl;
      others = λ j ne. at j ∙ ground (arith, e, ne);
    }

module _ {S : Type 0} (api : Services S) (st : Semaphores S) (id : ℕ) where
  -- What `semWait` does to a semaphore that is seen as `w`: its view becomes that of the specification
  -- and no other semaphore changes; the calling process is blocked exactly if it has to wait; 0 is
  -- returned once `blockProcess` returns.
  abbrev pub Waited : View → Type 0
  Waited w =
      let pid = api.current_pid st.sys in
      let (v, waits) = wait_spec pid w in
      (ss : List Semaphore) × (sem_wait api id st ≡ (
        if waits
        then (api.block (to_u64 pid) st.sys >>= λ sys.
            some (pos 0, record { semaphores = ss; sys = sys }))
        else some (pos 0, record { semaphores = ss; sys = st.sys })))
      × Changed st.semaphores ss id v

  -- What `semPost` does to it: its view becomes that of the specification and no other semaphore
  -- changes; exactly the process that the specification wakes is made READY; 0 is returned.
  abbrev pub Posted : View → Type 0
  Posted w =
      let (v, woken) = post_spec w in
      (ss : List Semaphore) × (sem_post api id st ≡ elim woken [
        | none ↦ some (pos 0, record { semaphores = ss; sys = st.sys })
        | some pid ↦ api.ready (to_u64 pid) st.sys >>= λ sys.
            some (pos 0, record { semaphores = ss; sys = sys })
      ])
      × Changed st.semaphores ss id v

module _ {S : Type 0} (api : Services S) (st : Semaphores S) (id : ℕ) (s : Semaphore)
    (t : IsTable st.semaphores) (g : get_semaphore id st.semaphores ≡ some s) where
  sem_wait-some :
      (s' : Semaphore) (waits : Bool)
      → s.lock ≡ 0
      → wait_on (api.current_pid st.sys) (record s { lock = 1 }) ≡ some (s', waits)
      → let ss = update_semaphore (release s') st.semaphores in
        sem_wait api id st ≡ (
          if waits
          then (api.block (to_u64 (api.current_pid st.sys)) st.sys >>= λ sys.
              some (pos 0, record { semaphores = ss; sys = sys }))
          else some (pos 0, record { semaphores = ss; sys = st.sys }))
  unfolding sem_wait
  sem_wait-some s' waits free done =
      let unlocked : (s.lock == 0) ≡ true = ground arith in rw (g, sem_wait) (rw (unlocked, done))

  -- `semWait` on an open semaphore of a well-formed list, with a unit to take or room for one more
  -- process to wait, takes the unit, or else puts the running process behind those that wait and blocks
  -- it, as the specification says; the other semaphores stay as they were.
  pub sem_wait-refines :
      (0 < s.value) ⊎ (s.blocked_processes_amount < max_blocked_processes)
      → Waited api st id (view s)
  sem_wait-refines room =
      let pid : ℤ = api.current_pid st.sys in
      let (v, free) = get_semaphore-free id st.semaphores s t.free g in
      let locked : Semaphore = record s { lock = 1 } in
      let (s', waits, done, v', spec) = wait_on-refines pid locked (lock-IsSemaphore s 1 v) room in
      let same : s'.id ≡ id =
        wait_on-id pid locked s' waits done ∙ id-get_semaphore id st.semaphores s g in
      rw (← spec) (
        update_semaphore (release s') st.semaphores,
        sem_wait-some s' waits free done,
        changed st.semaphores id s (release s') t g (lock-IsSemaphore s' 0 v') same refl,
      )

  sem_post-some :
      s.lock ≡ 0
      → let (s', woken) = post_to (record s { lock = 1 }) in
        let ss = update_semaphore (release s') st.semaphores in
        sem_post api id st ≡ elim woken [
          | none ↦ some (pos 0, record { semaphores = ss; sys = st.sys })
          | some pid ↦ api.ready (to_u64 pid) st.sys >>= λ sys.
              some (pos 0, record { semaphores = ss; sys = sys })
        ]
  unfolding sem_post
  sem_post-some free =
      let unlocked : (s.lock == 0) ≡ true = ground arith in rw (g, sem_post) (rw unlocked)

  -- `semPost` on an open semaphore of a well-formed list, whose value is not the largest, makes the
  -- process that waits longest READY, or else raises the value, as the specification says; the other
  -- semaphores stay as they were.
  pub sem_post-refines : s.value + 1 < 2 ^ 64 → Posted api st id (view s)
  sem_post-refines h =
      let (v, free) = get_semaphore-free id st.semaphores s t.free g in
      let locked : Semaphore = record s { lock = 1 } in
      let w = lock-IsSemaphore s 1 v in
      let s' : Semaphore = (post_to locked).0 in
      let same : s'.id ≡ id = post_to-id locked ∙ id-get_semaphore id st.semaphores s g in
      rw (← post_to-refines locked w h) (
        update_semaphore (release s') st.semaphores,
        sem_post-some free,
        changed st.semaphores id s (release s') t g
            (lock-IsSemaphore s' 0 (post_to-IsSemaphore locked w)) same refl,
      )

module _ {S : Type 0} (api : Services S) (id : ℕ) (st : Semaphores S) where
  -- Without a semaphore of that id `semWait`, `semPost` and `semClose` return -1 and do nothing.
  pub sem-unknown :
      get_semaphore id st.semaphores ≡ none
      → (sem_wait api id st ≡ some (minus_one, st))
        × (sem_post api id st ≡ some (minus_one, st))
        × (sem_close api id st ≡ (minus_one, st))
  unfolding sem_wait sem_post sem_close
  sem-unknown g = (rw (g, sem_wait), rw (g, sem_post), rw (g, sem_close))
