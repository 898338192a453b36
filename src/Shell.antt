-- ===== src/Shell.antt =====
-- Userland/SampleCodeModule/programs/shell.c: how a line of input becomes system calls. The results of
-- the calls are arguments.
mod Words
mod Lines
pub mod Execute
mod Rounds
mod User
mod Tests
use dog_os.Prelude.{
  ℕ, zero, suc, ◌+◌, ◌-◌, Bool, true, false, not, ◌&&◌, Option, none, some, List, [], ◌∷◌, ◌++◌,
  map, ltb, leb, ◌==◌, if◌then◌else◌, get_or, take, drop, length,
}
use dog_os.Prelude.Int.{ℤ, pos, negsuc, minus_one, is_minus_one}
use dog_os.Libc.Strings.{strcmp}

abbrev pub max_arguments : ℕ
max_arguments = 5

-- A pointer into the input is what stands from there on. The loop of `getCommandArgs` overwrites every
-- space by a 0, so that an argument ends at the next space.
unfoldable pub until_space : List ℕ → List ℕ
until_space [] = []
until_space (c ∷ cs) = if c == b' ' then [] else c ∷ until_space cs

-- Whether an argument starts here.
abbrev pub starts : List ℕ → Bool
starts [] = false
starts (c ∷ cs) = not (c == b' ')

-- The loop of `getCommandArgs`, with `argc` arguments so far: the pointers to the others, or `none` for
-- the -1.
unfoldable pub command_args_from : List ℕ → ℕ → Option (List (List ℕ))
command_args_from [] argc = some []
command_args_from (c ∷ cs) argc = elim ((c == b' ') && starts cs) [
  | false ↦ command_args_from cs argc
  | true ↦ elim (leb max_arguments argc) [
    | true ↦ none
    | false ↦ elim (command_args_from cs (argc + 1)) [ none ↦ none | some rest ↦ some (cs ∷ rest) ]
  ]
]

-- `getCommandArgs`: the arguments.
unfoldable pub get_command_args : List ℕ → Option (List (List ℕ))
unfolding command_args_from until_space
get_command_args input = elim (command_args_from input (if starts input then 1 else 0)) [
  | none ↦ none
  | some rest ↦ some (map until_space (if starts input then input ∷ rest else rest))
]

abbrev pub is_zero : ℤ → Bool
is_zero (pos zero) = true
is_zero _ = false

-- `findPipe`, from an index on: the place of the first argument `|`.
unfoldable pub find_pipe : ℕ → List (List ℕ) → Option ℕ
find_pipe i [] = none
find_pipe i (a ∷ argv) = if is_zero (strcmp a (b'|' ∷ [])) then some i else find_pipe (i + 1) argv

-- `getCommandIdx`, from an index on, over the names of the commands.
unfoldable pub get_command_idx : ℕ → List (List ℕ) → List ℕ → Option ℕ
get_command_idx i [] command = none
get_command_idx i (name ∷ names) command =
    if is_zero (strcmp name command) then some i else get_command_idx (i + 1) names command

-- The system calls of the shell; `new_process` has the index of the command, the arguments, whether
-- it is in the foreground, and the file descriptors, if any.
pub data Call : Type 0 where
  message : Call
  new_process : ℕ → List (List ℕ) → Bool → Option (ℤ × ℤ) → Call
  pipe_open : ℕ → Call
  pipe_write_eof pipe_close : ℤ → Call
  new_line : Call

-- `runPipeCmd`: its call, or `none` for the -1 of an unknown command.
unfoldable pub run_pipe_cmd : List (List ℕ) → List (List ℕ) → ℤ → ℤ → Bool → Option Call
unfolding get_command_idx
run_pipe_cmd names argv fdin fdout foreground = elim (get_command_idx 0 names (get_or argv 0 [])) [
  | none ↦ none
  | some i ↦ some (new_process i argv foreground (some (fdin, fdout)))
]

-- `handlePipe`, given the result of `pipeOpen`, and whether `newProcess` fails for the command behind
-- the pipe and for the one before it: the result, and the calls.
unfoldable pub handle_pipe : List (List ℕ) → ℕ → List (List ℕ) → ℕ → ℤ → Bool → Bool → ℤ × List Call
unfolding run_pipe_cmd
handle_pipe names pipe_index argv pipe_id pipe fails₁ fails₂ = elim (is_minus_one pipe) [
  | true ↦ (negsuc 1, pipe_open pipe_id ∷ message ∷ [])
  | false ↦ elim (run_pipe_cmd names (drop (pipe_index + 1) argv) pipe (pos 1) false) [
    | none ↦ (minus_one, pipe_open pipe_id ∷ pipe_close pipe ∷ [])
    | some reader ↦ elim fails₁ [
      | true ↦ (minus_one, pipe_open pipe_id ∷ reader ∷ pipe_close pipe ∷ [])
      | false ↦ elim (run_pipe_cmd names (take pipe_index argv) (pos 0) pipe true) [
        | none ↦ (minus_one, pipe_open pipe_id ∷ reader ∷ pipe_close pipe ∷ [])
        | some writer ↦ elim fails₂ [
          | true ↦ (minus_one, pipe_open pipe_id ∷ reader ∷ writer ∷ pipe_close pipe ∷ [])
          | false ↦ (
            pos 1,
            pipe_open pipe_id
                ∷ reader
                ∷ writer
                ∷ pipe_write_eof pipe
                ∷ pipe_close pipe
                ∷ new_line
                ∷ [],
          )
        ]
      ]
    ]
  ]
]

-- `initializePipe`
unfoldable pub initialize_pipe : List (List ℕ) → ℕ → List (List ℕ) → ℕ → ℤ → Bool → Bool → List Call
unfolding handle_pipe
initialize_pipe names pipe_index argv pipe_id pipe fails₁ fails₂ =
    let (r, calls) = handle_pipe names pipe_index argv pipe_id pipe fails₁ fails₂ in
    if pipe_index == 0
    then message ∷ []
    else if pipe_index + 1 == length argv
    then message ∷ []
    else if is_minus_one r
    then calls ++ (message ∷ [])
    else calls
