-- ===== src/Shell/User.antt =====
-- The name of the user in programs/shell.c.
use dog_os.Prelude.{
  ℕ, ◌+◌, ◌-◌, ◌≤◌, not, List, [], ◌∷◌, ltb, ◌==◌, if◌then◌else◌, length, arith, Bool-cases, inl,
  inr, get_or,
}
use dog_os.Prelude.Int.{pos}
use dog_os.Libc.Input.{Input, set_first_change}

abbrev pub user_size : ℕ
user_size = 25

-- What is written: a text in the colours of the program, the name with the number of characters for which
-- `sendUserData` asks, and messages of an error.
pub data Written : Type 0 where
  text : List ℕ → Written
  user_data : (user_name : List ℕ) (len : ℕ) → Written
  wrong_arguments too_long : Written

-- `printUser`
unfoldable pub print_user : (user_name : List ℕ) → List Written
print_user user_name =
    text (b'$' ∷ b' ' ∷ [])
    ∷ user_data user_name (length user_name + 4 + 1)
    ∷ text (b' ' ∷ b'>' ∷ b' ' ∷ [])
    ∷ []

-- What `initializeShell` calls the user: `DefaultUser`.
abbrev pub default_user : List ℕ
default_user = b'D' ∷ b'e' ∷ b'f' ∷ b'a' ∷ b'u' ∷ b'l' ∷ b't' ∷ b'U' ∷ b's' ∷ b'e' ∷ b'r' ∷ []

-- `changeUser`: what is written, the name, and the variables of readText, which then shows it.
unfoldable pub change_user :
    (argv : List (List ℕ)) → (user_name : List ℕ) → Input → List Written × List ℕ × Input
unfolding set_first_change
change_user argv user_name r =
    let name = get_or argv 1 [] in
    if not (length argv == 2)
    then (wrong_arguments ∷ [], user_name, r)
    else if ltb (user_size - 1) (length name)
    then (too_long ∷ [], user_name, r)
    else ([], name, set_first_change (pos 1) r)

-- The name fits into its array, with the final 0 behind it, whatever it is changed to.
pub change_user-fits :
    (argv : List (List ℕ)) (user_name : List ℕ) (r : Input)
    → length user_name + 1 ≤ user_size
    → length (change_user argv user_name r).1 + 1 ≤ user_size
unfolding change_user
change_user-fits argv user_name r h = elim (Bool-cases (length argv == 2)) [
  | inr e ↦ rw e h
  | inl e ↦ rw e (elim (Bool-cases (ltb (user_size - 1) (length (get_or argv 1 [])))) [
    | inl long ↦ rw long h
    | inr short ↦ rw short (ground (arith, short))
  ])
]
