-- ===== src/Semaphore/Life.antt =====
-- `semOpen` and `semClose` of Kernel/semaphores/semaphores.c: how a semaphore comes and goes.
use dog_os.Prelude.{
  ℕ, ◌-◌, ◌^◌, ◌<◌, ◌≤◌, ◌≡◌, ◌≢◌, refl, ◌∙◌, ap, true, false, none, some, List, [], ◌∷◌, ◌++◌,
  arith, ltb, ◌==◌, if◌then◌else◌, inr, Distinct-rotate, ◌∉◌, replicate,
}
use dog_os.Prelude.Int.{pos, minus_one, of_u32}
use dog_os.Services.{Services}
use dog_os.Semaphore.{
  Semaphore, Semaphores, max_blocked_processes, size_of_semaphore, get_semaphore, update_semaphore,
  remove_semaphore, create_semaphore, listen, sem_open, sem_close,
}
use dog_os.Semaphore.Queue.{IsSemaphore}
use dog_os.Semaphore.Table.{
  AllFree, IsTable, ids, id-get_semaphore, get_semaphore-free, get_semaphore-none,
  update_semaphore-IsTable, get_semaphore-update_semaphore, remove_semaphore-IsTable,
  get_semaphore-remove_semaphore,
}

AllFree-append :
    (ss : List Semaphore) (s : Semaphore)
    → AllFree ss
    → IsSemaphore s
    → s.lock ≡ 0
    → AllFree (ss ++ (s ∷ []))
AllFree-append [] s a v l = (v, l, tt)
AllFree-append (t ∷ ts) s a v l = (a.0, a.1, AllFree-append ts s a.2 v l)

ids-append : (ss : List Semaphore) (s : Semaphore) → ids (ss ++ (s ∷ [])) ≡ ids ss ++ (s.id ∷ [])
ids-append [] s = refl
ids-append (t ∷ ts) s = ap (λ l. t.id ∷ l) (ids-append ts s)

-- Writing to the last semaphore of a list, and removing it, if no other has its id.
update_semaphore-last :
    (ss : List Semaphore) (s t : Semaphore)
    → t.id ≡ s.id
    → s.id ∉ ids ss
    → update_semaphore s (ss ++ (t ∷ [])) ≡ ss ++ (s ∷ [])
unfolding update_semaphore
update_semaphore-last [] s t e h = ground arith
update_semaphore-last (x ∷ ss) s t e h = ground (arith, h.0, update_semaphore-last ss s t e h.1)

remove_semaphore-last :
    (ss : List Semaphore) (s : Semaphore)
    → s.id ∉ ids ss
    → remove_semaphore s.id (ss ++ (s ∷ [])) ≡ ss
unfolding remove_semaphore
remove_semaphore-last [] s h = ground arith
remove_semaphore-last (x ∷ ss) s h = ground (arith, h.0, remove_semaphore-last ss s h.1)

get_semaphore-last :
    (ss : List Semaphore) (s : Semaphore)
    → s.id ∉ ids ss
    → get_semaphore s.id (ss ++ (s ∷ [])) ≡ some s
unfolding get_semaphore
get_semaphore-last [] s h = ground arith
get_semaphore-last (x ∷ ss) s h = ground (arith, h.0, get_semaphore-last ss s h.1)

module _ {S : Type 0} (api : Services S) (id initial : ℕ) (st : Semaphores S) where
  -- The semaphore that `semOpen` makes for an unknown id.
  abbrev pub opened : Semaphore
  opened = record {
    address = (api.malloc st.sys size_of_semaphore).0;
    id = id;
    value = initial;
    blocked_processes = replicate max_blocked_processes api.garbage;
    blocked_processes_amount = 0;
    listening_processes = 1;
    lock = 0;
  }

module _ {S : Type 0} (api : Services S) (id initial : ℕ) (st : Semaphores S)
    (g : get_semaphore id st.semaphores ≡ none) where
  made : Semaphore
  made = record (opened api id initial st) { listening_processes = 0 }

  created : Semaphores S
  created = record {
    semaphores = st.semaphores ++ (made ∷ []);
    sys = (api.malloc st.sys size_of_semaphore).1;
  }

  create_semaphore-some :
      (api.malloc st.sys size_of_semaphore).0 ≢ 0
      → create_semaphore api id initial st ≡ (some made, created)
  unfolding create_semaphore made created
  create_semaphore-some ok =
      let e : ((api.malloc st.sys size_of_semaphore).0 == 0) ≡ false = ground arith in rw e

  listen-created : listen id made created ≡ (
    of_u32 id,
    record {
      semaphores = st.semaphores ++ (opened api id initial st ∷ []);
      sys = (api.malloc st.sys size_of_semaphore).1;
    },
  )
  unfolding listen made created
  listen-created = rw (
      update_semaphore-last st.semaphores (opened api id initial st) made refl
        (get_semaphore-none id st.semaphores g))

  -- Opening an unknown id where `malloc` succeeds puts a new semaphore last in the list, with the
  -- initial value, nobody waiting and one process listening.
  pub sem_open-new :
      (api.malloc st.sys size_of_semaphore).0 ≢ 0
      → sem_open api id initial st ≡ (
        of_u32 id,
        record {
          semaphores = st.semaphores ++ (opened api id initial st ∷ []);
          sys = (api.malloc st.sys size_of_semaphore).1;
        },
      )
  unfolding sem_open
  sem_open-new ok =
      let c = create_semaphore-some ok in rw (g, sem_open) (rw c (rw c listen-created))

  create_semaphore-none :
      (api.malloc st.sys size_of_semaphore).0 ≡ 0
      → create_semaphore api id initial st
        ≡ (none, record st { sys = (api.malloc st.sys size_of_semaphore).1 })
  unfolding create_semaphore
  create_semaphore-none fail =
      let e : ((api.malloc st.sys size_of_semaphore).0 == 0) ≡ true = ground arith in rw e

  -- Where it fails, `semOpen` returns -1 and leaves the list.
  pub sem_open-no_memory :
      (api.malloc st.sys size_of_semaphore).0 ≡ 0
      → sem_open api id initial st
        ≡ (minus_one, record st { sys = (api.malloc st.sys size_of_semaphore).1 })
  unfolding sem_open
  sem_open-no_memory fail = let c = create_semaphore-none fail in rw (g, sem_open) (rw c (rw c))

  -- The new list is a table again.
  pub opened-IsTable :
      IsTable st.semaphores
      → initial < 2 ^ 64
      → IsTable (st.semaphores ++ (opened api id initial st ∷ []))
  opened-IsTable t h =
      let out : id ∉ ids st.semaphores = get_semaphore-none id st.semaphores g in
      record {
        free =
            AllFree-append st.semaphores (opened api id initial st) t.free
              (record {
                array = refl;
                in_array = omega arith;
                listening = omega arith;
                idle = inr refl;
                bounded = h;
              })
              refl;
        distinct =
            rw (ids-append st.semaphores (opened api id initial st))
              (Distinct-rotate id (ids st.semaphores) out t.distinct);
      }

module _ {S : Type 0} (api : Services S) (id : ℕ) (st : Semaphores S)
    (t : IsTable st.semaphores) where
  -- Closing a semaphore to which at most one process listens removes it, frees its node, and leaves
  -- the other semaphores as they were.
  pub sem_close-last :
      (s : Semaphore)
      → get_semaphore id st.semaphores ≡ some s
      → s.listening_processes ≤ 1
      → let (r, st') = sem_close api id st in
        (r ≡ pos 0)
        × (st'.sys ≡ api.free st.sys s.address)
        × IsTable st'.semaphores
        × ((j : ℕ)
            → get_semaphore j st'.semaphores
              ≡ (if j == id then none else get_semaphore j st.semaphores))
  unfolding sem_close
  sem_close-last s g few =
      let e : ((if ltb 0 s.listening_processes
              then s.listening_processes - 1
              else s.listening_processes)
            == 0)
          ≡ true =
        ground arith in
      rw (g, sem_close)
        (rw e (
          refl,
          refl,
          remove_semaphore-IsTable id st.semaphores t,
          λ j. get_semaphore-remove_semaphore id st.semaphores j t.distinct,
        ))

  -- With more processes listening the semaphore stays, and one process less listens.
  pub sem_close-shared :
      (s : Semaphore)
      → get_semaphore id st.semaphores ≡ some s
      → 1 < s.listening_processes
      → let (r, st') = sem_close api id st in
        let s' : Semaphore = record s { listening_processes = s.listening_processes - 1 } in
        (r ≡ pos 0)
        × (st'.sys ≡ st.sys)
        × IsTable st'.semaphores
        × ((j : ℕ)
            → get_semaphore j st'.semaphores
              ≡ (if j == id then some s' else get_semaphore j st.semaphores))
  unfolding sem_close
  sem_close-shared s g many =
      let left : ℕ = s.listening_processes - 1 in
      let s' : Semaphore = record s { listening_processes = left } in
      let e : ltb 0 s.listening_processes ≡ true = ground arith in
      let f : (left == 0) ≡ false = ground arith in
      let same : s.id ≡ id = id-get_semaphore id st.semaphores s g in
      let (v, free) = get_semaphore-free id st.semaphores s t.free g in
      let w : IsSemaphore s' = record {
        array = v.array;
        in_array = v.in_array;
        listening = omega (arith, v.listening);
        idle = v.idle;
        bounded = v.bounded;
      } in
      rw (g, sem_close)
        (rw (e, f)
          (
            refl,
            refl,
            update_semaphore-IsTable s' st.semaphores t w free,
            λ j.
                get_semaphore-update_semaphore s' st.semaphores s j
                  (ap (λ i. get_semaphore i st.semaphores) same ∙ g)
                ∙ ap (λ i. if j == i then some s' else get_semaphore j st.semaphores) same,
          ))

module _ {S : Type 0} (api : Services S) (id initial : ℕ) (st : Semaphores S)
    (g : get_semaphore id st.semaphores ≡ none) where
  -- Opening an unknown id and closing it again gives the list of semaphores back, and frees what was
  -- allocated.
  pub sem_close-sem_open :
      (api.malloc st.sys size_of_semaphore).0 ≢ 0
      → (sem_close api id (sem_open api id initial st).1).1 ≡ (
          let (p, sys) = api.malloc st.sys size_of_semaphore in
          record { semaphores = st.semaphores; sys = api.free sys p })
  unfolding sem_close
  sem_close-sem_open ok =
      let o = sem_open-new api id initial st g ok in
      let new =
        get_semaphore-last st.semaphores (opened api id initial st)
          (get_semaphore-none id st.semaphores g) in
      rw o (
        rw (new, sem_close)
          (rw (
            remove_semaphore-last st.semaphores (opened api id initial st)
              (get_semaphore-none id st.semaphores g))))
