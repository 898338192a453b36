-- ===== src/Shell/Rounds.antt =====
-- The rounds of the shell of programs/shell.c: from the keys that are typed to the process that is started.
use dog_os.Prelude.{
  ℕ, ◌+◌, ◌-◌, ◌<◌, ◌≤◌, ◌≡◌, refl, sym, ap, subst, ◌∙◌, Bool, true, false, Option, none, some,
  List, [], ◌∷◌, ◌++◌, map, leb, ◌==◌, if◌then◌else◌, ◌>>=◌, take, drop, length, arith,
}
use dog_os.Libc.Format.{buff_len}
use dog_os.Libc.Input.{Input, Line, Scanned, str, scan_loop, scan_conversion, put_char, new_line}
use dog_os.Libc.Lines.{edit, edit_char, turned, CanType}
use dog_os.Libc.Scan.{line_of, scanf-line_of}
use dog_os.Shell.{
  Call, get_command_args, find_pipe, get_command_idx, initialize_pipe, message, new_process,
  max_arguments,
}
use dog_os.Shell.Execute.{
  Results, run_command, in_background, execute_line, execute_args, finish_round, input_of,
  shell_round, string_format, buffer_size,
}
use dog_os.Shell.Words.{words, get_command_args-words}
use dog_os.Shell.Lines.{NoPipe}

-- The line stays short enough for the buffer.
length-edit :
    (cs line : List ℕ) → length line < buff_len → CanType cs line → length (edit cs line) < buff_len
length-edit [] line h t = h
length-edit (c ∷ cs) line h (plain, room, back, t) =
    length-edit cs (edit_char c line) (short line (c == 8) h room) t
  where
    short :
        (l : List ℕ) (b : Bool)
        → length l < buff_len
        → length l < buff_len - 1
        → length (if b then drop 1 l else c ∷ l) < buff_len
    short l false h room = omega arith
    short [] true h room = h
    short (d ∷ l) true h room = omega arith

length-turned : (xs ys : List ℕ) → length (turned xs ys) ≡ length xs + length ys
length-turned [] ys = omega arith
length-turned (x ∷ xs) ys = length-turned xs (x ∷ ys) ∙ omega arith

scan_loop-string :
    (text : List ℕ)
    → (vs : List Scanned) × (scan_loop false string_format text 0 ≡ some (vs, length text))
      × (input_of vs ≡ text)
unfolding scan_loop scan_conversion
scan_loop-string [] = ([], refl, refl)
scan_loop-string (c ∷ text) =
    (str (c ∷ text) ∷ [], ap (λ n. some (str (c ∷ text) ∷ [], n)) (omega arith), refl)

line_of-short : (typed : List ℕ) → CanType typed [] → length (line_of typed) < buff_len
line_of-short typed h =
    let whole = length-turned (edit typed []) [] in
    let short = length-edit typed [] (omega arith) h in omega (arith, whole, short)

finish_round-execute_line :
    (names : List (List ℕ)) (r : Results) (l : Line) (line : List ℕ) (calls : List Call)
    → l.result < buff_len
    → input_of l.scanned ≡ line
    → execute_line names line r ≡ some calls
    → finish_round names r l ≡ some (calls, l)
unfolding finish_round
finish_round-execute_line names r l line calls short same done =
    let there : leb buffer_size l.result ≡ false = ground arith in
    rw there (
      ap (λ (o : Option (List Call)). o >>= λ c. some (c, l))
        (ap (λ t. execute_line names t r) same ∙ done))

-- A round of the shell carries out the characters that the backspaces leave of what is typed, whatever was in
-- the buffer before, short of a full buffer.
pub shell_round-line_of :
    (names : List (List ℕ)) (typed rest : List ℕ) (s : Input) (r : Results) (calls : List Call)
    → CanType typed []
    → execute_line names (line_of typed) r ≡ some calls
    → (l : Line) × (shell_round names (typed ++ (b'\n' ∷ rest)) s r ≡ some (calls, l))
      × (l.shown ≡ map put_char typed ++ (new_line ∷ []))
      × (l.rest ≡ rest)
unfolding shell_round
shell_round-line_of names typed rest s r calls h done =
    let (vs, scanned, same) = scan_loop-string (line_of typed) in
    let (l, read, stored, result, shown, left) =
      scanf-line_of string_format typed rest s vs (length (line_of typed)) h scanned in
    let short : l.result < buff_len =
      subst (λ n. n < buff_len) (sym result) (line_of-short typed h) in
    (
      l,
      ap (λ o. o >>= finish_round names r) read
          ∙ finish_round-execute_line names r l (line_of typed) calls short
              (ap input_of stored ∙ same) done,
      shown,
      left,
    )

find_pipe-none : (i : ℕ) (argv : List (List ℕ)) → NoPipe argv → find_pipe i argv ≡ none
unfolding find_pipe
find_pipe-none i [] h = refl
find_pipe-none i (a ∷ argv) (other, h) = rw (other, find_pipe) (find_pipe-none (i + 1) argv h)

execute_args-run_command :
    (names : List (List ℕ)) (r : Results) (w : List ℕ) (ws : List (List ℕ))
    → find_pipe 0 (w ∷ ws) ≡ none
    → execute_args names r (w ∷ ws) ≡ some (run_command names (w ∷ ws))
unfolding execute_args
execute_args-run_command names r w ws no_pipe =
    ap
      (λ (o : Option ℕ). elim o [
        | some i ↦ some (initialize_pipe names i (w ∷ ws) r.pipe_id r.pipe r.fails₁ r.fails₂)
        | none ↦ some (run_command names (w ∷ ws))
      ])
      no_pipe

run_command-new_process :
    (names : List (List ℕ)) (w : List ℕ) (ws : List (List ℕ)) (i : ℕ)
    → in_background (w ∷ ws) ≡ false
    → get_command_idx 0 names w ≡ some i
    → run_command names (w ∷ ws) ≡ new_process i (w ∷ ws) true none ∷ []
unfolding run_command
run_command-new_process names w ws i front known =
    ap
      (λ (b : Bool). elim (get_command_idx 0 names w) [
        | some j ↦
            new_process j (if b then take (length (w ∷ ws) - 1) (w ∷ ws) else (w ∷ ws))
              (if b then false else true) none
            ∷ []
        | none ↦ message ∷ []
      ])
      front
    ∙ ap
        (λ (o : Option ℕ). elim o [
          | some j ↦ new_process j (w ∷ ws) true none ∷ []
          | none ↦ message ∷ []
        ])
        known

execute_line-new_process :
    (names : List (List ℕ)) (line w : List ℕ) (ws : List (List ℕ)) (i : ℕ) (r : Results)
    → words line ≡ w ∷ ws
    → length ws < max_arguments
    → NoPipe (w ∷ ws)
    → in_background (w ∷ ws) ≡ false
    → get_command_idx 0 names w ≡ some i
    → execute_line names line r ≡ some (new_process i (w ∷ ws) true none ∷ [])
unfolding execute_line
execute_line-new_process names line w ws i r split few plain front known =
    let parsed : get_command_args line ≡ some (w ∷ ws) =
      get_command_args-words line
        (subst (λ (l : List (List ℕ)). length l ≤ max_arguments) (sym split) (omega arith))
      ∙ ap some split in
    let no_pipe : find_pipe 0 (w ∷ ws) ≡ none = find_pipe-none 0 (w ∷ ws) plain in
    ap (λ o. o >>= execute_args names r) parsed
    ∙ execute_args-run_command names r w ws no_pipe
    ∙ ap some (run_command-new_process names w ws i front known)

-- When a line is typed and edited whose words are the name of a command of the shell and at most four more,
-- none of them a pipe and the last one not of the background, a round of the shell starts the command in
-- the foreground with these words, whatever was typed before, and leaves what comes behind the line.
pub shell_round-new_process :
    (names : List (List ℕ)) (typed rest w : List ℕ) (ws : List (List ℕ)) (i : ℕ) (s : Input)
    (r : Results)
    → CanType typed []
    → words (line_of typed) ≡ w ∷ ws
    → length ws < max_arguments
    → NoPipe (w ∷ ws)
    → in_background (w ∷ ws) ≡ false
    → get_command_idx 0 names w ≡ some i
    → (l : Line) × (shell_round names (typed ++ (b'\n' ∷ rest)) s r
        ≡ some (new_process i (w ∷ ws) true none ∷ [], l))
      × (l.shown ≡ map put_char typed ++ (new_line ∷ []))
      × (l.rest ≡ rest)
shell_round-new_process names typed rest w ws i s r h split few plain front known =
    shell_round-line_of names typed rest s r (new_process i (w ∷ ws) true none ∷ []) h
      (execute_line-new_process names (line_of typed) w ws i r split few plain front known)
