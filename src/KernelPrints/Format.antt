-- ===== src/KernelPrints/Format.antt =====
-- `printf` of libraries/prints.c: the characters that it puts out, and the length that it returns. Its
-- intToStr has the text of that of libc.c.
use dog_os.Prelude.{
  ℕ, ◌+◌, Bool, true, false, Option, none, some, List, [], ◌∷◌, ◌++◌, ◌==◌, if◌then◌else◌, ◌>>=◌,
  length, take, ◌%◌,
}
use dog_os.Libc.Numbers.{int_to_str}
use dog_os.Libc.Format.{Arg, int, str, to_char}

-- `printString`: the length is cut to the 8 bits that sysWrite takes it in.
abbrev pub print_string : List ℕ → List ℕ
print_string s = take (length s % 256) s

-- What is behind the `%`: the characters that are put out, what is added to the length, and the
-- arguments that are left; `none` is an argument that is not there, or not of the type that is read.
unfoldable pub scan_conversion : ℕ → List Arg → Option (List ℕ × ℕ × List Arg)
scan_conversion c args =
    if c == b'%'
    then some (b'%' ∷ [], 1, args)
    else if c == b'c'
    then elim args [ int v ∷ rest ↦ some (to_char v ∷ [], 1, rest) | _ ↦ none ]
    else if c == b's'
    then elim args [ str s ∷ rest ↦ some (print_string s, length s, rest) | _ ↦ none ]
    else if c == b'd'
    then elim args [
      | int v ∷ rest ↦ some (print_string (int_to_str v [] 10), length (int_to_str v [] 10), rest)
      | _ ↦ none
    ]
    else if c == b'x'
    then elim args [
      | int v ∷ rest ↦
          let s = int_to_str v [] 16 in some (b'0' ∷ b'x' ∷ print_string s, length s, rest)
      | _ ↦ none
    ]
    else some ([], 0, args)

-- The loop of `scan` from a place of the format on, and whether the place is behind a `%`. A format that
-- ends in one has the loop run on behind its end: that is `none`.
unfoldable pub scan : Bool → List ℕ → List Arg → Option (List ℕ × ℕ)
unfolding scan_conversion
scan false [] args = some ([], 0)
scan true [] args = none
scan false (c ∷ cs) args = elim (c == b'%') [
  | true ↦ scan true cs args
  | false ↦ scan false cs args >>= λ (r : List ℕ × ℕ). some (c ∷ r.0, r.1 + 1)
]
scan true (c ∷ cs) args = scan_conversion c args >>= λ (t : List ℕ × ℕ × List Arg).
    scan false cs t.2 >>= λ (r : List ℕ × ℕ). some (t.0 ++ r.0, r.1 + t.1)

-- `printf`
unfoldable pub printf : List ℕ → List Arg → Option (List ℕ × ℕ)
unfolding scan
printf format args = scan false format args
