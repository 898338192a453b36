-- ===== src/Libc/Format.antt =====
-- `printf` of libraries/libc.c: what it gives to the system call that writes.
use dog_os.Prelude.{
  ℕ, ◌+◌, ◌-◌, ◌%◌, Bool, true, false, Option, none, some, List, [], ◌∷◌, ◌++◌, ltb, leb, ◌==◌,
  if◌then◌else◌, ◌>>=◌, length,
}
use dog_os.Prelude.Int.{ℤ}
use dog_os.Libc.Numbers.{int_to_str}

abbrev pub buff_len : ℕ
buff_len = 1000

-- A variable argument: an `int` or a string.
pub data Arg : Type 0 where
  int : ℤ → Arg
  str : List ℕ → Arg

-- The bits of an `int` that is cut to a `char`.
abbrev pub to_char : ℤ → ℕ
to_char (ℤ.pos n) = n % 256
to_char (ℤ.negsuc n) = 255 - n % 256

abbrev pub string : List ℕ → List Arg → List ℕ × ℕ × List Arg
string s rest = (s, length s + 1, rest)

-- What is behind the `%`: the characters that are put out, how many places of the buffer are written
-- (a string comes with a 0 behind it), and the arguments that are left; `none` is an argument that is
-- not there, or not of the type that is read.
unfoldable pub conversion : ℕ → List Arg → Option (List ℕ × ℕ × List Arg)
conversion c args =
    if c == b'c'
    then elim args [ int v ∷ rest ↦ some (to_char v ∷ [], 1, rest) | _ ↦ none ]
    else if c == b'd'
    then elim args [ int v ∷ rest ↦ some (string (int_to_str v [] 10) rest) | _ ↦ none ]
    else if c == b'x'
    then elim args [ int v ∷ rest ↦ some (string (int_to_str v [] 16) rest) | _ ↦ none ]
    else if c == b's'
    then elim args [ str s ∷ rest ↦ some (string s rest) | _ ↦ none ]
    else if c == b'%'
    then some (string (b'%' ∷ []) args)
    else some ([], 0, args)

-- The loop of `printf` from a place of the format on, where `n` characters are in the buffer, and
-- whether the place is behind a `%`. A format that ends in one has the loop run on behind its end:
-- that is `none`, and so is a write outside the buffer.
unfoldable pub render : Bool → List ℕ → List Arg → ℕ → Option (List ℕ)
unfolding conversion
render false [] args n = some []
render true [] args n = none
render false (c ∷ cs) args n = elim (c == b'%') [
  | true ↦ render true cs args n
  | false ↦ elim (ltb n buff_len) [
    | true ↦ render false cs args (n + 1) >>= λ rest. some (c ∷ rest)
    | false ↦ none
  ]
]
render true (c ∷ cs) args n = conversion c args >>= λ (r : List ℕ × ℕ × List Arg).
    elim (leb (n + r.1) buff_len) [
      | true ↦ render false cs r.2 (n + length r.0) >>= λ rest. some (r.0 ++ rest)
      | false ↦ none
    ]

-- `printf`: the characters that are written, or `none` where the buffer is too short or an argument
-- is wrong.
unfoldable pub printf : List ℕ → List Arg → Option (List ℕ)
unfolding render
printf format args = render false format args 0
