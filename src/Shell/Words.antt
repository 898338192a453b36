-- ===== src/Shell/Words.antt =====
-- `getCommandArgs` of programs/shell.c against the words of a line.
use dog_os.Prelude.{
  ℕ, suc, ◌+◌, ◌<◌, ◌≤◌, ◌≡◌, ◌∙◌, refl, sym, ap, true, false, ◌&&◌, none, some, List, [], ◌∷◌, map,
  leb, ◌==◌, arith, if◌then◌else◌, length, Bool-cases, inl, inr,
}
use mathlib.Core.Path.{ap₂}
use dog_os.Shell.{max_arguments, until_space, starts, command_args_from, get_command_args}

abbrev pub join : ℕ → List (List ℕ) → List (List ℕ)
join c [] = (c ∷ []) ∷ []
join c (w ∷ ws) = (c ∷ w) ∷ ws

-- The words of a line: what stands between its spaces.
abbrev pub words : List ℕ → List (List ℕ)
words [] = []
words (c ∷ cs) =
    if c == b' ' then words cs else if starts cs then join c (words cs) else (c ∷ []) ∷ words cs

-- The words that start behind the first character.
abbrev behind : List ℕ → List (List ℕ)
behind [] = []
behind (c ∷ cs) = if (c == b' ') && starts cs then until_space cs ∷ behind cs else behind cs

until_space-nil : (s : List ℕ) → starts s ≡ false → until_space s ≡ []
unfolding until_space
until_space-nil [] h = refl
until_space-nil (c ∷ cs) h = ground (arith, h)

words-behind : (s : List ℕ) → words s ≡ (if starts s then until_space s ∷ behind s else behind s)
unfolding until_space
words-behind [] = refl
words-behind (c ∷ cs) = elim (Bool-cases (c == b' ')) [
  | inl e ↦ rw e (words-behind cs)
  | inr e ↦ rw e (elim (Bool-cases (starts cs)) [
    | inl f ↦ rw f (
        ap (join c)
          (words-behind cs ∙ ap (λ b. if b then until_space cs ∷ behind cs else behind cs) f))
    | inr f ↦ rw f (
        ap₂ (λ u ws. (c ∷ u) ∷ ws) (sym (until_space-nil cs f))
          (words-behind cs ∙ ap (λ b. if b then until_space cs ∷ behind cs else behind cs) f))
  ])
]

words-started : (s : List ℕ) → starts s ≡ true → words s ≡ until_space s ∷ behind s
words-started s e = words-behind s ∙ ap (λ b. if b then until_space s ∷ behind s else behind s) e

words-spaced : (s : List ℕ) → starts s ≡ false → words s ≡ behind s
words-spaced s e = words-behind s ∙ ap (λ b. if b then until_space s ∷ behind s else behind s) e

-- The pointers that the loop finds, where there is room for all.
command_args_from-behind :
    (s : List ℕ) (argc : ℕ)
    → argc + length (behind s) ≤ max_arguments
    → (rest : List (List ℕ)) × (command_args_from s argc ≡ some rest)
      × (map until_space rest ≡ behind s)
unfolding command_args_from
command_args_from-behind [] argc h = ([], refl, refl)
command_args_from-behind (c ∷ cs) argc h = elim (Bool-cases ((c == b' ') && starts cs)) [
  | inl e ↦
      let size : argc + suc (length (behind cs)) ≤ max_arguments = rw e at h in
      let room : leb max_arguments argc ≡ false = ground arith in
      let (rest, found, same) = command_args_from-behind cs (argc + 1) (omega arith) in
      rw (e, command_args_from)
        (rw (room, command_args_from) (cs ∷ rest, rw found refl, ap (λ l. until_space cs ∷ l) same))
  | inr e ↦ rw (e, command_args_from) (command_args_from-behind cs argc (rw e at h))
]

command_args_from-none :
    (s : List ℕ) (argc : ℕ)
    → argc ≤ max_arguments
    → max_arguments < argc + length (behind s)
    → command_args_from s argc ≡ none
unfolding command_args_from
command_args_from-none [] argc k h = absurd (omega arith)
command_args_from-none (c ∷ cs) argc k h = elim (Bool-cases ((c == b' ') && starts cs)) [
  | inl e ↦
      let size : max_arguments < argc + suc (length (behind cs)) = rw e at h in
      elim (Bool-cases (leb max_arguments argc)) [
        | inl full ↦ rw (e, command_args_from) (rw (full, command_args_from) refl)
        | inr room ↦
            let more = command_args_from-none cs (argc + 1) (ground (arith, room)) (omega arith) in
            rw (e, command_args_from) (rw (room, command_args_from) (rw more refl))
      ]
  | inr e ↦ rw (e, command_args_from) (command_args_from-none cs argc k (rw e at h))
]

-- `getCommandArgs` finds the words of a line, when there are 5 at most.
pub get_command_args-words :
    (s : List ℕ) → length (words s) ≤ max_arguments → get_command_args s ≡ some (words s)
unfolding get_command_args
get_command_args-words s h = elim (Bool-cases (starts s)) [
  | inl e ↦
      let w : words s ≡ until_space s ∷ behind s = words-started s e in
      let size : length (words s) ≡ suc (length (behind s)) = ap length w in
      let (rest, found, same) = command_args_from-behind s 1 (omega arith) in
      rw (e, get_command_args)
        (rw (found, get_command_args) (rw e (ap some (ap (λ l. until_space s ∷ l) same ∙ sym w))))
  | inr e ↦
      let w : words s ≡ behind s = words-spaced s e in
      let size : length (words s) ≡ length (behind s) = ap length w in
      let (rest, found, same) = command_args_from-behind s 0 (omega arith) in
      rw (e, get_command_args) (rw (found, get_command_args) (rw e (ap some (same ∙ sym w))))
]

-- With more words it fails.
pub get_command_args-none :
    (s : List ℕ) → max_arguments < length (words s) → get_command_args s ≡ none
unfolding get_command_args
get_command_args-none s h = elim (Bool-cases (starts s)) [
  | inl e ↦
      let size : length (words s) ≡ suc (length (behind s)) = ap length (words-started s e) in
      let failed = command_args_from-none s 1 (omega arith) (omega arith) in
      rw (e, get_command_args) (rw (failed, get_command_args) refl)
  | inr e ↦
      let size : length (words s) ≡ length (behind s) = ap length (words-spaced s e) in
      let failed = command_args_from-none s 0 (omega arith) (omega arith) in
      rw (e, get_command_args) (rw (failed, get_command_args) refl)
]
