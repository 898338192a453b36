-- ===== src/Commands.antt =====
-- Userland/SampleCodeModule/programs/commands.c: the commands that filter their input and those that act
-- on processes and colours. What a command does is the list of its outputs and calls in order; a text
-- without arguments is named. `none` is a command that waits for input which does not come.
mod Filters
mod Processes
mod Tests
use dog_os.Prelude.{
  ℕ, ◌+◌, ◌%◌, ◌^◌, Bool, true, false, not, ◌&&◌, ◌||◌, Option, none, some, List, [], ◌∷◌, ◌++◌,
  ltb, leb, ◌==◌, if◌then◌else◌, get_or,
}
use dog_os.Prelude.Int.{ℤ, pos, negsuc, minus_one, is_minus_one, of_u32}
use dog_os.Libc.Numbers.{str_to_int}

pub data Text : Type 0 where
  invalid_argument_amount invalid_colour : Text
  kill_warning priority_warning block_warning unblock_warning : Text

pub data Colour : Type 0 where
  white black red green blue : Colour

pub data Action : Type 0 where
  put_char : ℕ → Action
  print : Text → Action
  print_line_count : ℕ → Action
  set_ftc set_bgc : Colour → Action
  kill_process block_process unblock_process : ℤ → Action
  set_priority : ℤ → ℤ → Action

-- What was done, and the input that is left.
abbrev pub Run : Type 0
Run = Option (List Action × List ℕ)

-- `EOF` of libc.h is a character that can be typed.
abbrev pub eof : ℕ
eof = 96

-- `isVowel` of libc.c
abbrev pub is_vowel : ℕ → Bool
is_vowel c =
    if leb b'A' c && leb c b'Z'
    then (c == b'A') || ((c == b'E') || ((c == b'I') || ((c == b'O') || (c == b'U'))))
    else ((c == b'a') || ((c == b'e') || ((c == b'i') || ((c == b'o') || (c == b'u')))))

-- `checkArgcWrapper`: its result, and what it prints.
abbrev pub check_argc_wrapper : ℕ → ℕ → ℤ × List Action
check_argc_wrapper argc arguments_permitted =
    if argc == arguments_permitted
    then (pos 0, [])
    else (minus_one, print invalid_argument_amount ∷ [])

-- The first lines of a command: the rest is run when the number of arguments is right.
abbrev pub with_arguments : ℕ → ℕ → List ℕ → Run → Run
with_arguments argc arguments_permitted input run =
    let (result, printed) = check_argc_wrapper argc arguments_permitted in
    if is_minus_one result then some (printed, input) else run

-- The actions before those of a run.
abbrev pub after : List Action → Run → Run
after first none = none
after first (some (actions, input)) = some (first ++ actions, input)

-- The loop of `filter`.
unfoldable pub filter_loop : List ℕ → Run
filter_loop [] = none
filter_loop (c ∷ input) =
    let rest = filter_loop input in
    if c == eof
    then some ([], input)
    else (if is_vowel c then rest else after (put_char c ∷ []) rest)

-- `filter`
unfoldable pub filter : ℕ → List ℕ → Run
unfolding filter_loop
filter argc input = with_arguments argc 1 input (filter_loop input)

-- The loop of `cat`.
unfoldable pub cat_loop : List ℕ → Run
cat_loop [] = none
cat_loop (c ∷ input) =
    let rest = cat_loop input in if c == eof then some ([], input) else after (put_char c ∷ []) rest

-- `cat`
unfoldable pub cat : ℕ → List ℕ → Run
unfolding cat_loop
cat argc input = with_arguments argc 1 input (cat_loop input)

-- The loop of `wc`, from a count of lines on, with the line printed at its end.
unfoldable pub wc_loop : ℕ → List ℕ → Run
wc_loop line_count [] = none
wc_loop line_count (c ∷ input) =
    let next = wc_loop (line_count + 1) input in
    let rest = wc_loop line_count input in
    if c == eof
    then some (print_line_count line_count ∷ [], input)
    else after (put_char c ∷ []) (if c == b'\n' then next else rest)

-- `wc`
unfoldable pub wc : ℕ → List ℕ → Run
unfolding wc_loop
wc argc input = with_arguments argc 1 input (wc_loop 1 input)

-- The value of an argument: `strToInt(argv[i], 0)`.
abbrev pub int_argument : List (List ℕ) → ℕ → ℤ
int_argument argv i = of_u32 (str_to_int (get_or argv i [])).0

-- A process of the system is touched after a warning, when the answer is a y.
abbrev pub confirmed : Bool → Text → Action → List ℕ → Run
confirmed of_system warning call input = elim of_system [
  | false ↦ some (call ∷ [], input)
  | true ↦ elim input [
    | [] ↦ none
    | user_input ∷ rest ↦
        if user_input == b'y'
        then some (print warning ∷ call ∷ [], rest)
        else some (print warning ∷ [], rest)
  ]
]

abbrev pub is_two : ℤ → Bool
is_two (pos n) = n == 2
is_two (negsuc n) = false

abbrev pub below_two : ℤ → Bool
below_two (pos n) = ltb n 2
below_two (negsuc n) = true

-- `killProcessWrapper`
unfoldable pub kill_process_wrapper : ℕ → List (List ℕ) → List ℕ → Run
kill_process_wrapper argc argv input =
    let pid = int_argument argv 1 in
    with_arguments argc 2 input (confirmed (is_two pid) kill_warning (kill_process pid) input)

-- `setPriorityWrapper`
unfoldable pub set_priority_wrapper : ℕ → List (List ℕ) → List ℕ → Run
set_priority_wrapper argc argv input =
    let pid = int_argument argv 1 in
    let priority = int_argument argv 2 in
    with_arguments argc 3 input
      (confirmed (is_two pid) priority_warning (set_priority pid priority) input)

-- `blockProcessWrapper`
unfoldable pub block_process_wrapper : ℕ → List (List ℕ) → List ℕ → Run
block_process_wrapper argc argv input =
    let pid = int_argument argv 1 in
    with_arguments argc 2 input (confirmed (is_two pid) block_warning (block_process pid) input)

-- `unblockProcessWrapper`
unfoldable pub unblock_process_wrapper : ℕ → List (List ℕ) → List ℕ → Run
unblock_process_wrapper argc argv input =
    let pid = int_argument argv 1 in
    with_arguments argc 2 input
      (confirmed (below_two pid) unblock_warning (unblock_process pid) input)

-- The `switch` on the code of a colour.
abbrev pub colour_of : ℤ → Option Colour
colour_of (pos n) =
    if n == 1
    then some white
    else if n == 2
    then some black
    else if n == 3
    then some red
    else if n == 4
    then some green
    else if n == 5
    then some blue
    else none
colour_of (negsuc n) = none

-- `changeFtColour`
unfoldable pub change_ft_colour : ℕ → List (List ℕ) → List ℕ → Run
change_ft_colour argc argv input =
    with_arguments argc 2 input (elim (colour_of (int_argument argv 1)) [
      | none ↦ some (print invalid_colour ∷ [], input)
      | some colour ↦ some (set_ftc colour ∷ [], input)
    ])

-- `changeBgColour`
unfoldable pub change_bg_colour : ℕ → List (List ℕ) → List ℕ → Run
change_bg_colour argc argv input =
    with_arguments argc 2 input (elim (colour_of (int_argument argv 1)) [
      | none ↦ some (print invalid_colour ∷ [], input)
      | some colour ↦ some (set_bgc colour ∷ [], input)
    ])
