-- ===== src/Shell/Lines.antt =====
-- `findPipe` and `initializePipe` of programs/shell.c on a line with a pipe.
use dog_os.Prelude.{
  ℕ, zero, suc, ◌+◌, ◌<◌, ◌≡◌, ◌∙◌, refl, ap, true, false, some, List, [], ◌∷◌, ◌++◌, ◌==◌, arith,
  length, length-append, take, drop, get_or,
}
use dog_os.Prelude.Int.{ℤ, pos, is_minus_one}
use dog_os.Libc.Strings.{strcmp}
use dog_os.Shell.{
  is_zero, find_pipe, get_command_idx, run_pipe_cmd, handle_pipe, initialize_pipe, new_process,
  pipe_open, pipe_write_eof, pipe_close, new_line,
}

-- None of the arguments is a pipe.
abbrev pub NoPipe : List (List ℕ) → Type 0
NoPipe [] = Unit
NoPipe (a ∷ argv) = (is_zero (strcmp a (b'|' ∷ [])) ≡ false) × NoPipe argv

find_pipe-append :
    (i : ℕ) (before after : List (List ℕ))
    → NoPipe before
    → find_pipe i (before ++ ((b'|' ∷ []) ∷ after)) ≡ some (i + length before)
unfolding find_pipe
find_pipe-append i [] after n = unfold strcmp in ap some (omega arith)
find_pipe-append i (a ∷ before) after (other, n) =
    rw (other, find_pipe) (find_pipe-append (i + 1) before after n ∙ ap some (omega arith))

take_before :
    (xs : List (List ℕ)) (y : List ℕ) (ys : List (List ℕ)) → take (length xs) (xs ++ (y ∷ ys)) ≡ xs
take_before [] y ys = refl
take_before (x ∷ xs) y ys = ap (λ l. x ∷ l) (take_before xs y ys)

drop_after :
    (xs : List (List ℕ)) (y : List ℕ) (ys : List (List ℕ)) (n : ℕ)
    → n ≡ length xs + 1
    → drop n (xs ++ (y ∷ ys)) ≡ ys
drop_after xs y ys zero e = absurd (omega arith)
drop_after [] y ys (suc n) e = let last : n ≡ 0 = omega arith in rw last refl
drop_after (x ∷ xs) y ys (suc n) e = drop_after xs y ys n (omega arith)

handle_pipe-started :
    (names before after : List (List ℕ)) (pipe_id r w : ℕ) (pipe : ℤ)
    → is_minus_one pipe ≡ false
    → get_command_idx 0 names (get_or after 0 []) ≡ some r
    → get_command_idx 0 names (get_or before 0 []) ≡ some w
    → handle_pipe names (length before) (before ++ ((b'|' ∷ []) ∷ after)) pipe_id pipe false false
      ≡ (
        pos 1,
        pipe_open pipe_id
            ∷ new_process r after false (some (pipe, pos 1))
            ∷ new_process w before true (some (pos 0, pipe))
            ∷ pipe_write_eof pipe
            ∷ pipe_close pipe
            ∷ new_line
            ∷ [],
      )
unfolding handle_pipe run_pipe_cmd
handle_pipe-started names before after pipe_id r w pipe opened reader writer =
    let front = take_before before (b'|' ∷ []) after in
    let rear = drop_after before (b'|' ∷ []) after (length before + 1) refl in
    rw (opened, handle_pipe)
      (rw (rear, handle_pipe)
        (rw (reader, handle_pipe)
          (rw (front, handle_pipe) (rw (writer, handle_pipe) (rw rear (rw front refl))))))

-- For two known commands, with arguments, on the two sides of the first `|`, when no call fails, the
-- shell opens the pipe, starts the right one in the background reading from it, starts the left one in
-- the foreground writing to it, writes the end of file into it and closes it.
pub initialize_pipe-started :
    (names before after : List (List ℕ)) (pipe_id r w : ℕ) (pipe : ℤ)
    → NoPipe before
    → 0 < length before
    → 0 < length after
    → is_minus_one pipe ≡ false
    → get_command_idx 0 names (get_or after 0 []) ≡ some r
    → get_command_idx 0 names (get_or before 0 []) ≡ some w
    → let argv = before ++ ((b'|' ∷ []) ∷ after) in
      (find_pipe 0 argv ≡ some (length before))
      × (initialize_pipe names (length before) argv pipe_id pipe false false
          ≡ pipe_open pipe_id
            ∷ new_process r after false (some (pipe, pos 1))
            ∷ new_process w before true (some (pos 0, pipe))
            ∷ pipe_write_eof pipe
            ∷ pipe_close pipe
            ∷ new_line
            ∷ [])
unfolding initialize_pipe
initialize_pipe-started names before after pipe_id r w pipe none_before some_before some_after
      opened reader writer =
    let size : length (before ++ ((b'|' ∷ []) ∷ after)) ≡ length before + suc (length after) =
      length-append before ((b'|' ∷ []) ∷ after) in
    let first : (length before == 0) ≡ false = ground arith in
    let last : (length before + 1 == length (before ++ ((b'|' ∷ []) ∷ after))) ≡ false =
      ground (arith, size) in
    let started = handle_pipe-started names before after pipe_id r w pipe opened reader writer in
    (
      find_pipe-append 0 before after none_before ∙ ap some (omega arith),
      rw (first, initialize_pipe) (rw (last, initialize_pipe) (rw started refl)),
    )
