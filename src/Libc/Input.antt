-- ===== src/Libc/Input.antt =====
-- `readText` and `scanf` of libraries/libc.c: the line that is typed, in the buffer. What `getChar` returns,
-- call by call, is a list of bytes, 255 being the -1 of no character.
use dog_os.Prelude.{
  ℕ, zero, suc, ◌+◌, ◌-◌, Bool, true, false, Option, none, some, List, [], ◌∷◌, ◌++◌, ltb, ◌==◌,
  if◌then◌else◌, ◌>>=◌, put, drop, length,
}
use dog_os.Prelude.Int.{ℤ, pos, negsuc, sub_one}
use dog_os.Libc.Numbers.{str_to_int}
use dog_os.Libc.Format.{buff_len}

-- The static variables.
pub record Input : Type 0 where
  pub buff_size : ℤ
  pub buffer : ℕ → ℕ
  pub first_change : Bool
  pub changed_user_name : Bool

-- What appears: a character, the name of the user, and the end of a line.
pub data Shown : Type 0 where
  put_char : ℕ → Shown
  print_user new_line : Shown

-- `setFirstChange` of a number
unfoldable pub set_first_change : ℤ → Input → Input
set_first_change (pos zero) r = record r { changed_user_name = false }
set_first_change (pos (suc zero)) r = record r { changed_user_name = true }
set_first_change _ r = r

-- What becomes of a step: it is done, or waits for a character that does not come, or writes a value outside
-- the buffer, at an index.
pub data Outcome (A : Type 0) : Type 0 where
  done : A → Outcome A
  waits : Outcome A
  outside : (index : ℤ) (value : ℕ) → Outcome A

abbrev pub and_then : {A B : Type 0} → Outcome A → (A → Outcome B) → Outcome B
and_then (done a) f = f a
and_then waits f = waits
and_then (outside i v) f = outside i v

abbrev pub result_of : {A : Type 0} → Outcome A → Option A
result_of (done a) = some a
result_of _ = none

-- A character goes into the buffer, if there is room.
unfoldable pub store_char : ℕ → Input → Outcome Input
store_char c r = elim r.buff_size [
  | negsuc n ↦ outside (negsuc n) c
  | pos n ↦
      if ltb n (buff_len - 1)
      then done (record r { buff_size = pos (n + 1); buffer = put r.buffer n c })
      else done r
]

-- What a tab does, by which the kernel tells of a change of the screen.
unfoldable pub tab : Input → Input × List Shown
tab r =
    let s = record r { buff_size = pos 0 } in
    if r.first_change
    then (record s { first_change = false }, print_user ∷ [])
    else if r.changed_user_name
    then (record s { changed_user_name = false }, new_line ∷ print_user ∷ [])
    else (s, [])

-- The body of the loop of `readText`, for a character.
unfoldable pub type_char : ℕ → Input → Outcome (Input × List Shown)
unfolding store_char tab
type_char c r = and_then (store_char c r) (λ s.
    if c == b'\t'
    then done (tab s)
    else done (
      if c == 8 then record s { buff_size = sub_one (sub_one s.buff_size) } else s,
      put_char c ∷ [],
    ))

-- The loop of `readText`: what appears, and the characters that are left.
unfoldable pub read_loop : List ℕ → Input → Outcome (Input × List Shown × List ℕ)
unfolding type_char
read_loop [] r = waits
read_loop (c ∷ cs) r = elim (c == b'\n') [
  | true ↦ done (r, [], cs)
  | false ↦ elim (c == 255) [
    | true ↦ read_loop cs r
    | false ↦ and_then (type_char c r) (λ (t : Input × List Shown).
        and_then (read_loop cs t.0)
          (λ (u : Input × List Shown × List ℕ). done (u.0, t.1 ++ u.1, u.2)))
  ]
]

-- The end of `readText`: the 0 behind the line.
unfoldable pub end_line : Input → Outcome Input
end_line r = elim r.buff_size [
  | negsuc n ↦ outside (negsuc n) 0
  | pos n ↦ done (record r { buff_size = pos (n + 2); buffer = put r.buffer n 0 })
]

-- `readText`
unfoldable pub read_text : List ℕ → Input → Outcome (Input × List Shown × List ℕ)
unfolding read_loop end_line
read_text cs r = and_then (read_loop cs r) (λ (u : Input × List Shown × List ℕ).
    and_then (end_line u.0) (λ s. done (s, u.1 ++ (new_line ∷ []), u.2)))

-- The string that starts at a place of the buffer, on fuel.
unfoldable pub string_at : ℕ → (ℕ → ℕ) → ℕ → List ℕ
string_at zero buffer j = []
string_at (suc fuel) buffer j =
    let rest = string_at fuel buffer (j + 1) in if buffer j == 0 then [] else buffer j ∷ rest

-- What `scanf` stores: a character, the bits of an `int`, a string.
pub data Scanned : Type 0 where
  char : ℕ → Scanned
  int : ℕ → Scanned
  str : List ℕ → Scanned

-- What is behind the `%`, where the text goes on with a character: what is stored, what is left of the text,
-- and how far it was read.
unfoldable pub scan_conversion : ℕ → (text : List ℕ) → Option Scanned × List ℕ × ℕ
scan_conversion c [] = (none, [], 0)
scan_conversion c (b ∷ text) =
    let (value, size) = str_to_int (b ∷ text) in
    if c == b'c'
    then (some (char b), text, 1)
    else if c == b'd'
    then (some (int value), drop size (b ∷ text), size)
    else if c == b's'
    then (some (str (b ∷ text)), [], length (b ∷ text))
    else (none, b ∷ text, 0)

abbrev stored : Option Scanned → List Scanned → List Scanned
stored none rest = rest
stored (some v) rest = v ∷ rest

-- The loop of `scanf` from a place of the format and of the text on, and whether the place is behind a
-- `%`: what is stored, and the result. A format that ends in a `%` is read behind its end: `none`.
unfoldable pub scan_loop : Bool → List ℕ → (text : List ℕ) (j : ℕ) → Option (List Scanned × ℕ)
unfolding scan_conversion
scan_loop false [] text j = some ([], j)
scan_loop true [] text j = none
scan_loop false (c ∷ cs) [] j = some ([], j)
scan_loop false (c ∷ cs) (b ∷ text) j = elim (c == b'%') [
  | true ↦ scan_loop true cs (b ∷ text) j
  | false ↦ scan_loop false cs text (j + 1)
]
scan_loop true (c ∷ cs) text j =
    let (v, rest, size) = scan_conversion c text in
    scan_loop false cs rest (j + size) >>= λ (u : List Scanned × ℕ). some (stored v u.0, u.1)

-- What `scanf` returns, what it stores, the static variables, what appears, and the characters that are left.
pub record Line : Type 0 where
  pub result : ℕ
  pub scanned : List Scanned
  pub input : Input
  pub shown : List Shown
  pub rest : List ℕ

-- `scanf` once a line is in the buffer, with its 0: no string there is longer than the buffer.
unfoldable pub scan_line : (format : List ℕ) → Input × List Shown × List ℕ → Option Line
unfolding string_at scan_loop
scan_line format (s, shown, rest) =
    scan_loop false format (string_at buff_len s.buffer 0) 0 >>= λ (w : List Scanned × ℕ).
    some (record { result = w.1; scanned = w.0; input = s; shown = shown; rest = rest })

-- `scanf`; `none` is a line that does not end, a write outside the buffer, or a format that is wrong.
unfoldable pub scanf : (format typed : List ℕ) → Input → Option Line
unfolding read_text scan_line
scanf format typed r =
    result_of (read_text typed (record r { buff_size = pos 0 })) >>= scan_line format
