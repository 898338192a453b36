-- ===== src/Pipe/Ring.antt =====
-- Reading and writing a pipe of Kernel/pipes/pipes.c against a bounded first-in first-out queue of
-- bytes, as long as nobody has to wait.
use dog_os.Prelude.{
  ℕ, subst, suc, ◌+◌, ◌-◌, ◌%◌, ◌<◌, ◌≤◌, ◌≡◌, ◌≢◌, sym, ◌∙◌, ap, false, some, List, [], ◌∷◌, arith,
  length, get_or, get_or-set_self, length-set, inl,
}
use mathlib.Core.List.{head-eq_of_cons-eq, tail-eq_of_cons-eq}
use dog_os.Prelude.Int.{ℤ, pos, to_u32, of_char}
use dog_os.Services.{Services}
use dog_os.Semaphore.{Semaphore, Semaphores, get_semaphore, sem_wait, sem_post}
use dog_os.Semaphore.Queue.{View, view, wait_spec, post_spec}
use dog_os.Semaphore.Table.{IsTable}
use dog_os.Semaphore.Calls.{Changed, Waited, Posted, sem_wait-refines, sem_post-refines}
use dog_os.Pipe.{
  Pipe, Pipes, returns, pipe_buffer_size, no_pipe, pipe_at, put_pipe, blocks, get_index, pipe_read,
}
use dog_os.Prelude.Ring.{window}

-- A semaphore of the table with that value, for which nobody waits.
pub record Counts (st : List Semaphore) (lock : ℕ) (n : ℕ) : Type 0 where
  pub sem : Semaphore
  pub found : get_semaphore lock st ≡ some sem
  pub sees : view sem ≡ (n, [])

pub Counts-other :
    (ss ss' : List Semaphore) (id j n : ℕ) (v : View)
    → Changed ss ss' id v
    → j ≢ id
    → Counts ss j n
    → Counts ss' j n
Counts-other ss ss' id j n v c ne k = record {
  sem = k.sem;
  found = c.others j ne ∙ k.found;
  sees = k.sees;
}

pub Counts-same : (ss ss' : List Semaphore) (id n : ℕ) → Changed ss ss' id (n, []) → Counts ss' id n
Counts-same ss ss' id n c = record { sem = c.after; found = c.found; sees = c.sees }

-- A pipe holds the bytes `q`, the oldest first: they stand in its ring, its semaphores count them and
-- the free places, and nobody waits.
pub record Carries (b : Pipe) (st : List Semaphore) (q : List ℕ) : Type 0 where
  pub buffer : length b.buffer ≡ 1024
  pub read : b.read_index < 1024
  pub write : b.write_index ≡ (b.read_index + length q) % 1024
  pub bytes : window 1024 b.buffer b.read_index (length q) ≡ q
  pub fits : length q ≤ 1024
  pub table : IsTable st
  pub filled : Counts st (to_u32 b.read_lock) (length q)
  pub free : Counts st (to_u32 b.write_lock) (1024 - length q)
  pub apart : to_u32 b.read_lock ≢ to_u32 b.write_lock

-- So it does at the index `i`.
abbrev pub Holds : {S : Type 0} → Pipes S → ℕ → List ℕ → Type 0
Holds p i q = (i < length p.pipes) × Carries (pipe_at p i) p.sems.semaphores q

module _ {S : Type 0} (api : Services S) where
  -- Taking a unit that is there, and giving one back for which nobody waits.
  pub wait-now :
      (st : Semaphores S) (id n : ℕ)
      → IsTable st.semaphores
      → Counts st.semaphores id (suc n)
      → (ss : List Semaphore) × (sem_wait api id st
          ≡ some (pos 0, record { semaphores = ss; sys = st.sys }))
        × Changed st.semaphores ss id (n, [])
  unfolding wait_spec
  wait-now st id n t k =
      let value : k.sem.value ≡ suc n = ap (λ (v : View). v.0) k.sees in
      let r = sem_wait-refines api st id k.sem t k.found (inl (omega arith)) in
      subst (Waited api st id) k.sees r

  pub post-now :
      (st : Semaphores S) (id n : ℕ)
      → IsTable st.semaphores
      → n < 1024
      → Counts st.semaphores id n
      → (ss : List Semaphore) × (sem_post api id st
          ≡ some (pos 0, record { semaphores = ss; sys = st.sys }))
        × Changed st.semaphores ss id (n + 1, [])
  unfolding post_spec
  post-now st id n t h k =
      let value : k.sem.value ≡ n = ap (λ (v : View). v.0) k.sees in
      let r = sem_post-refines api st id k.sem t k.found (omega arith) in
      subst (Posted api st id) k.sees r

  pub blocks-Counts :
      (st : Semaphores S) (lock : ℤ) (n : ℕ)
      → Counts st.semaphores (to_u32 lock) (suc n)
      → blocks lock st ≡ false
  blocks-Counts st lock n k =
      let value : k.sem.value ≡ suc n = ap (λ (v : View). v.0) k.sees in
      rw (k.found, blocks) (ground arith)

  -- A pipe that was written back at its index.
  pub Holds-put :
      (p : Pipes S) (i : ℕ) (b : Pipe) (st : Semaphores S) (q : List ℕ)
      → i < length p.pipes
      → Carries b st.semaphores q
      → Holds (record (put_pipe p i b) { sems = st }) i q
  Holds-put p i b st q h c = (
    rw (length-set p.pipes i b) h,
    subst (λ x. Carries x st.semaphores q) (sym (get_or-set_self p.pipes i b no_pipe h)) c,
  )

  pipe_read-now :
      (p : Pipes S) (id i : ℕ) (st₁ st₂ : Semaphores S)
      → get_index p id ≡ some i
      → blocks (pipe_at p i).read_lock p.sems ≡ false
      → sem_wait api (to_u32 (pipe_at p i).read_lock) p.sems ≡ some (pos 0, st₁)
      → sem_post api (to_u32 (pipe_at p i).write_lock) st₁ ≡ some (pos 0, st₂)
      → let b : Pipe = pipe_at p i in
        pipe_read api id p
        ≡ some (
            returns
              (of_char (get_or b.buffer b.read_index 0))
              (record (put_pipe p i
                (record b { read_index = (b.read_index + 1) % pipe_buffer_size })) { sems = st₂ }))
  unfolding pipe_read
  pipe_read-now p id i st₁ st₂ g awake waited posted =
      rw (g, pipe_read) (rw (waited, awake) (rw posted))

  -- With a byte in the pipe, while nobody waits, `pipeRead` returns the oldest one at once, and the pipe
  -- holds the others.
  pub pipe_read-cons :
      (p : Pipes S) (id i c : ℕ) (q : List ℕ)
      → get_index p id ≡ some i
      → Holds p i (c ∷ q)
      → (p' : Pipes S) × (pipe_read api id p ≡ some (returns (of_char c) p')) × Holds p' i q
  pipe_read-cons p id i c q g (h, v) =
      let b : Pipe = pipe_at p i in
      let r : ℕ = to_u32 b.read_lock in
      let w : ℕ = to_u32 b.write_lock in
      let (ss₁, waited, c₁) = wait-now p.sems r (length q) v.table v.filled in
      let st₁ : Semaphores S = record { semaphores = ss₁; sys = p.sems.sys } in
      let free₁ = Counts-other _ ss₁ r w _ _ c₁ (λ e. v.apart (sym e)) v.free in
      let (ss₂, posted, c₂) =
        post-now st₁ w (1024 - suc (length q)) c₁.table (omega (arith, v.fits)) free₁ in
      let st₂ : Semaphores S = record { semaphores = ss₂; sys = p.sems.sys } in
      let b' : Pipe = record b { read_index = (b.read_index + 1) % 1024 } in
      let one_more : 1024 - suc (length q) + 1 ≡ 1024 - length q = omega (arith, v.fits) in
      let first : get_or b.buffer b.read_index 0 ≡ c = head-eq_of_cons-eq v.bytes in
      (
        record (put_pipe p i b') { sems = st₂ },
        rw (← first) (
            pipe_read-now p id i st₁ st₂ g (blocks-Counts p.sems b.read_lock _ v.filled) waited
              posted),
        Holds-put p i b' st₂ q h (record {
          buffer = v.buffer;
          read = omega arith;
          write = omega (arith, v.write, v.read);
          bytes = tail-eq_of_cons-eq v.bytes;
          fits = omega (arith, v.fits);
          table = c₂.table;
          filled =
              Counts-other ss₁ ss₂ w r (length q) _ c₂ v.apart (Counts-same _ ss₁ r (length q) c₁);
          free = rw one_more at (Counts-same ss₁ ss₂ w _ c₂);
          apart = v.apart;
        }),
      )
