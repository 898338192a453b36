-- ===== src/Shell/Execute.antt =====
-- The body of the loop of `shellExecute` in programs/shell.c: a line is read and carried out. The prompt in
-- front of it is output.
use dog_os.Prelude.{
  ℕ, ◌-◌, Bool, true, false, Option, none, some, List, [], ◌∷◌, leb, ◌==◌, if◌then◌else◌, ◌>>=◌,
  get_or, take, length,
}
use dog_os.Prelude.Int.{ℤ}
use dog_os.Libc.Input.{Input, Line, Scanned, str, scanf}
use dog_os.Shell.{
  Call, get_command_args, find_pipe, get_command_idx, initialize_pipe, message, new_process,
}

abbrev pub buffer_size : ℕ
buffer_size = 1000

-- `%s`
abbrev pub string_format : List ℕ
string_format = b'%' ∷ b's' ∷ []

-- The arguments are a command and what it is given; one that starts with `&`, at the end, is left out and
-- has the command run in the background.
abbrev pub in_background : List (List ℕ) → Bool
in_background argv = get_or (get_or argv (length argv - 1) []) 0 0 == b'&'

unfoldable pub run_command : (names argv : List (List ℕ)) → List Call
unfolding get_command_idx
run_command names argv =
    let given = if in_background argv then take (length argv - 1) argv else argv in
    let foreground = if in_background argv then false else true in
    elim (get_command_idx 0 names (get_or argv 0 [])) [
      | some i ↦ new_process i given foreground none ∷ []
      | none ↦ message ∷ []
    ]

-- The results of the calls that a pipe needs: the next id, the result of `pipeOpen`, and whether `newProcess`
-- fails for the two commands.
pub record Results : Type 0 where
  pub pipe_id : ℕ
  pub pipe : ℤ
  pub fails₁ : Bool
  pub fails₂ : Bool

-- What is done with the arguments of a line. With none, the code reads in front of their array: `none`.
unfoldable pub execute_args :
    (names : List (List ℕ)) → Results → (argv : List (List ℕ)) → Option (List Call)
unfolding find_pipe initialize_pipe run_command
execute_args names r [] = none
execute_args names r (a ∷ argv) = elim (find_pipe 0 (a ∷ argv)) [
  | some i ↦ some (initialize_pipe names i (a ∷ argv) r.pipe_id r.pipe r.fails₁ r.fails₂)
  | none ↦ some (run_command names (a ∷ argv))
]

-- What is done with the string of a line; with too many arguments as with none.
unfoldable pub execute_line :
    (names : List (List ℕ)) → (user_input : List ℕ) → Results → Option (List Call)
unfolding get_command_args execute_args
execute_line names user_input r = get_command_args user_input >>= execute_args names r

-- The string that `scanf` stored; before, there is an empty one.
abbrev pub input_of : List Scanned → List ℕ
input_of (str s ∷ _) = s
input_of _ = []

-- A round once `scanf` has returned.
unfoldable pub finish_round : (names : List (List ℕ)) → Results → Line → Option (List Call × Line)
unfolding execute_line
finish_round names r l =
    if leb buffer_size l.result
    then some (message ∷ [], l)
    else (execute_line names (input_of l.scanned) r >>= λ (calls : List Call). some (calls, l))

-- One round: the calls, and what `scanf` left.
unfoldable pub shell_round :
    (names : List (List ℕ)) → (typed : List ℕ) → Input → Results → Option (List Call × Line)
unfolding scanf finish_round
shell_round names typed s r = scanf string_format typed s >>= finish_round names r
