-- ===== src/Pipe/Write.antt =====
-- `pipeWrite` of Kernel/pipes/pipes.c, as long as there is room for the whole string.
use dog_os.Prelude.{
  ℕ, subst, suc, ◌+◌, ◌-◌, ◌%◌, ◌<◌, ◌≤◌, ◌≡◌, refl, sym, ◌∙◌, ap, false, some, List, [], ◌∷◌, ◌++◌,
  append-nil, append_assoc, arith, length, length-append, set, length-set,
}
use native.Mathlib.Numerals.{add-one}
use dog_os.Prelude.Int.{pos, to_u32}
use dog_os.Services.{Services}
use dog_os.Semaphore.{Semaphores, sem_wait, sem_post}
use dog_os.Pipe.{
  Pipe, Pipes, returns, pipe_buffer_size, pipe_at, put_pipe, blocks, get_index, write_loop,
  pipe_write,
}
use dog_os.Prelude.Ring.{window, window-set}
use dog_os.Pipe.Ring.{
  Holds, Holds-put, Counts, Counts-other, Counts-same, wait-now, post-now, blocks-Counts,
}

module _ {S : Type 0} (api : Services S) where
  -- The pipe after a character is stored in its ring.
  abbrev stored : ℕ → Pipe → Pipe
  stored c b = record b {
    buffer = set b.buffer b.write_index c;
    write_index = (b.write_index + 1) % pipe_buffer_size;
  }

  write_loop-now :
      (p : Pipes S) (id i c : ℕ) (cs : List ℕ) (st₁ st₂ : Semaphores S)
      → blocks (pipe_at p i).write_lock p.sems ≡ false
      → sem_wait api (to_u32 (pipe_at p i).write_lock) p.sems ≡ some (pos 0, st₁)
      → sem_post api (to_u32 (pipe_at p i).read_lock) st₁ ≡ some (pos 0, st₂)
      → write_loop api id i (c ∷ cs) p
        ≡ write_loop api id i cs (record (put_pipe p i (stored c (pipe_at p i))) { sems = st₂ })
  unfolding write_loop
  write_loop-now p id i c cs st₁ st₂ awake waited posted = rw (waited, awake) (rw posted)

  write_loop-cons :
      (p : Pipes S) (id i c : ℕ) (cs q : List ℕ)
      → length q < 1024
      → Holds p i q
      → (p' : Pipes S) × (write_loop api id i (c ∷ cs) p ≡ write_loop api id i cs p')
        × Holds p' i (q ++ (c ∷ []))
  write_loop-cons p id i c cs q room (h, v) =
      let b : Pipe = pipe_at p i in
      let r : ℕ = to_u32 b.read_lock in
      let w : ℕ = to_u32 b.write_lock in
      let n : ℕ = length q in
      let places : 1024 - n ≡ suc (1024 - n - 1) = omega arith in
      let free : Counts p.sems.semaphores w (suc (1024 - n - 1)) =
        subst (Counts p.sems.semaphores w) places v.free in
      let (ss₁, waited, c₁) = wait-now api p.sems w (1024 - n - 1) v.table free in
      let st₁ : Semaphores S = record { semaphores = ss₁; sys = p.sems.sys } in
      let filled₁ = Counts-other p.sems.semaphores ss₁ w r n _ c₁ v.apart v.filled in
      let (ss₂, posted, c₂) = post-now api st₁ r n c₁.table room filled₁ in
      let st₂ : Semaphores S = record { semaphores = ss₂; sys = p.sems.sys } in
      let longer : length (q ++ (c ∷ [])) ≡ n + 1 = length-append q (c ∷ []) in
      let free₂ : Counts ss₂ w (1024 - n - 1) =
        Counts-other ss₁ ss₂ r w (1024 - n - 1) _ c₂ (λ e. v.apart (sym e))
          (Counts-same p.sems.semaphores ss₁ w (1024 - n - 1) c₁) in
      (
        record (put_pipe p i (stored c b)) { sems = st₂ },
        write_loop-now p id i c cs st₁ st₂ (blocks-Counts api p.sems b.write_lock _ free) waited
            posted,
        Holds-put api p i (stored c b) st₂ (q ++ (c ∷ [])) h (record {
          buffer = length-set b.buffer b.write_index c ∙ v.buffer;
          read = v.read;
          write = omega (arith, v.write, v.read, longer);
          bytes =
              ap (window 1024 (stored c b).buffer b.read_index) (longer ∙ add-one n)
              ∙ window-set 1024 b.buffer b.read_index n b.write_index c v.buffer v.read room v.write
              ∙ ap (λ l. l ++ (c ∷ [])) v.bytes;
          fits = omega (arith, longer);
          table = c₂.table;
          filled = subst (Counts ss₂ r) (sym longer) (Counts-same ss₁ ss₂ r (n + 1) c₂);
          free = subst (Counts ss₂ w) (omega (arith, longer)) free₂;
          apart = v.apart;
        }),
      )

  write_loop-Holds :
      (p : Pipes S) (id i : ℕ) (cs q : List ℕ)
      → length q + length cs ≤ 1024
      → Holds p i q
      → (p' : Pipes S) × (write_loop api id i cs p ≡ some (returns (pos id) p'))
        × Holds p' i (q ++ cs)
  write_loop-Holds p id i [] q room v = (p, unfold write_loop in refl, rw (append-nil q) v)
  write_loop-Holds p id i (c ∷ cs) q room v =
      let (p₁, step, v₁) = write_loop-cons p id i c cs q (omega arith) v in
      let (p₂, rest, v₂) =
        write_loop-Holds p₁ id i cs (q ++ (c ∷ [])) (omega (arith, length-append q (c ∷ []))) v₁ in
      (p₂, step ∙ rest, rw (append_assoc q (c ∷ []) cs) at v₂)

  -- `pipeWrite` to a pipe of a string for which there is room, while nobody waits, returns at once with
  -- the id of the pipe, and the pipe then holds the string behind what it held.
  pub pipe_write-append :
      (p : Pipes S) (id i : ℕ) (str q : List ℕ)
      → get_index p id ≡ some i
      → Holds p i q
      → length q + length str ≤ 1024
      → (p' : Pipes S) × (pipe_write api id str p ≡ some (returns (pos id) p'))
        × Holds p' i (q ++ str)
  unfolding pipe_write
  pipe_write-append p id i str q g v room =
      rw (g, pipe_write) (write_loop-Holds p id i str q room v)
