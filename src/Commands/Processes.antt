-- ===== src/Commands/Processes.antt =====
-- The commands of programs/commands.c on the process that the system needs.
use dog_os.Prelude.{ℕ, ◌≡◌, ◌≢◌, refl, ap, Bool, true, false, some, List, [], ◌∷◌, ◌==◌, arith}
use mathlib.Core.Bool.{false≢true}
use dog_os.Prelude.Int.{pos}
use dog_os.Commands.{
  Text, Action, print, kill_process, block_process, set_priority, kill_warning, priority_warning,
  block_warning, confirmed, is_two, int_argument, kill_process_wrapper, set_priority_wrapper,
  block_process_wrapper,
}

confirmed-refused :
    (of_system : Bool) (warning : Text) (call : Action) (c : ℕ) (input : List ℕ)
    → of_system ≡ true
    → c ≢ b'y'
    → confirmed of_system warning call (c ∷ input) ≡ some (print warning ∷ [], input)
confirmed-refused false warning call c input e ne = absurd (false≢true e)
confirmed-refused true warning call c input e ne =
    let other : (c == b'y') ≡ false = ground (arith, ne) in rw other refl

-- On process 2, with an answer other than y, the commands that kill, block and change the priority warn,
-- read the answer, and call nothing.
pub wrappers-refused :
    (argv : List (List ℕ)) (c : ℕ) (input : List ℕ)
    → int_argument argv 1 ≡ pos 2
    → c ≢ b'y'
    → (kill_process_wrapper 2 argv (c ∷ input) ≡ some (print kill_warning ∷ [], input))
      × (block_process_wrapper 2 argv (c ∷ input) ≡ some (print block_warning ∷ [], input))
      × (set_priority_wrapper 3 argv (c ∷ input) ≡ some (print priority_warning ∷ [], input))
unfolding kill_process_wrapper set_priority_wrapper block_process_wrapper
wrappers-refused argv c input two ne =
    let system : is_two (int_argument argv 1) ≡ true = ap is_two two in
    (
      confirmed-refused (is_two (int_argument argv 1)) kill_warning
          (kill_process (int_argument argv 1)) c input system ne,
      confirmed-refused (is_two (int_argument argv 1)) block_warning
          (block_process (int_argument argv 1)) c input system ne,
      confirmed-refused (is_two (int_argument argv 1)) priority_warning
          (set_priority (int_argument argv 1) (int_argument argv 2)) c input system ne,
    )
