-- ===== src/Pipe/Open.antt =====
-- `pipeOpen` of Kernel/pipes/pipes.c: which counter it raises.
use dog_os.Prelude.{
  ℕ, ◌<◌, ◌≡◌, ◌≢◌, sym, true, false, none, some, arith, ltb, length, get_or-set_self,
  get_or-set_ne,
}
use dog_os.Prelude.Int.{pos, is_minus_one, add_one}
use dog_os.Services.{Services}
use dog_os.Pipe.{
  Pipe, Pipes, max_pipes, no_pipe, pipe_at, put_pipe, get_index, attach, create_pipe, pipe_open,
}

module _ {S : Type 0} (api : Services S) (p : Pipes S) (id : ℕ) where
  -- Opening a pipe that exists raises its own counter.
  pub pipe_open-known :
      (i : ℕ)
      → get_index p id ≡ some i
      → i < max_pipes
      → i < length p.pipes
      → (p' : Pipes S) × (pipe_open api id p ≡ some (pos id, p'))
        × ((pipe_at p' i).total_processes ≡ add_one (pipe_at p i).total_processes)
        × ((j : ℕ) → j ≢ i → pipe_at p' j ≡ pipe_at p j)
  unfolding pipe_open attach
  pipe_open-known i g h k =
      let b : Pipe = record (pipe_at p i) {
        total_processes = add_one (pipe_at p i).total_processes;
      } in
      let inside : ltb i max_pipes ≡ true = ground arith in
      (
        put_pipe p i b,
        rw (g, pipe_open) (rw inside),
        rw (get_or-set_self p.pipes i b no_pipe k),
        λ j ne. get_or-set_ne p.pipes i j b no_pipe (λ e. ne (sym e)),
      )

  module _ (new : get_index p id ≡ none)
      (made : is_minus_one (create_pipe api id p).0 ≡ false) where
    -- For a new pipe the id is used as the index: one below 8 raises the counter of the slot with that number,
    -- whichever slot was taken.
    pub pipe_open-other_slot :
        id < max_pipes
        → (i : ℕ) → i ≢ id
        → (p' : Pipes S) × (pipe_open api id p ≡ some (pos id, p'))
          × ((pipe_at p' i).total_processes ≡ (pipe_at (create_pipe api id p).1 i).total_processes)
    unfolding pipe_open attach
    pipe_open-other_slot h i ne =
        let p₁ : Pipes S = (create_pipe api id p).1 in
        let b : Pipe = record (pipe_at p₁ id) {
          total_processes = add_one (pipe_at p₁ id).total_processes;
        } in
        let inside : ltb id max_pipes ≡ true = ground arith in
        (
          put_pipe p₁ id b,
          rw (new, pipe_open) (rw made (rw inside)),
          rw (get_or-set_ne p₁.pipes id i b no_pipe (λ e. ne (sym e))),
        )
