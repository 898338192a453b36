-- ===== src/Libc/Render.antt =====
-- `printf` of libraries/libc.c against the concatenation of what is to be printed.
use dog_os.Prelude.{ℕ, ◌^◌, ◌<◌, ◌≢◌, List, [], ◌∷◌, ◌++◌}
use dog_os.Prelude.Int.{ℤ}
use dog_os.Libc.Numbers.{abs}
use dog_os.Libc.Numerals.{decimal, hexadecimal}
use dog_os.Libc.Format.{Arg, int, str, to_char}

-- What is to be printed: a character of the format, a percent sign, a number in base 10 or 16, a
-- string, or a character that is an argument.
pub data Piece : Type 0 where
  plain : ℕ → Piece
  percent : Piece
  number : ℤ → Piece
  hex : ℤ → Piece
  text : List ℕ → Piece
  letter : ℤ → Piece

abbrev pub format_of : Piece → List ℕ
format_of (plain c) = c ∷ []
format_of percent = b'%' ∷ b'%' ∷ []
format_of (number v) = b'%' ∷ b'd' ∷ []
format_of (hex v) = b'%' ∷ b'x' ∷ []
format_of (text s) = b'%' ∷ b's' ∷ []
format_of (letter v) = b'%' ∷ b'c' ∷ []

abbrev pub args_of : Piece → List Arg
args_of (plain c) = []
args_of percent = []
args_of (number v) = int v ∷ []
args_of (hex v) = int v ∷ []
args_of (text s) = str s ∷ []
args_of (letter v) = int v ∷ []

abbrev pub text_of : Piece → List ℕ
text_of (plain c) = c ∷ []
text_of percent = b'%' ∷ []
text_of (number v) = decimal v
text_of (hex v) = hexadecimal v
text_of (text s) = s
text_of (letter v) = to_char v ∷ []

abbrev pub each : {A : Type 0} → (Piece → List A) → List Piece → List A
each f [] = []
each f (p ∷ ps) = f p ++ each f ps

-- No plain character is a percent sign, and no number the least `int`.
abbrev pub ArePieces : List Piece → Type 0
ArePieces [] = Unit
ArePieces (plain c ∷ ps) = (c ≢ b'%') × ArePieces ps
ArePieces (number v ∷ ps) = (abs v < 2 ^ 31) × ArePieces ps
ArePieces (hex v ∷ ps) = (abs v < 2 ^ 31) × ArePieces ps
ArePieces (_ ∷ ps) = ArePieces ps
