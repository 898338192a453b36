-- ===== src/Libc/Numbers.antt =====
-- Conversions of libraries/libc.c between numbers and strings. An `int` is given by its 32 bits where
-- the code computes with it.
use dog_os.Prelude.{
  ℕ, zero, suc, ◌+◌, ◌-◌, ◌*◌, ◌/◌, ◌%◌, ◌^◌, Bool, true, false, ◌&&◌, ◌||◌, Option, none, some,
  List, [], ◌∷◌, ◌++◌, ltb, leb, ◌==◌, if◌then◌else◌, get_or, set, length,
}
use dog_os.Prelude.Int.{ℤ, pos, negsuc}

abbrev pub abs : ℤ → ℕ
abs (pos n) = n
abs (negsuc n) = n + 1

abbrev pub is_negative : ℤ → Bool
is_negative (pos n) = false
is_negative (negsuc n) = true

abbrev pub digit : ℕ → ℕ
digit r = if leb 10 r then 65 + (r - 10) else 48 + r

-- The loop of `intToStr`: the digits in the order in which they are stored, the last one first.
unfoldable pub digits : ℕ → ℕ → ℕ → List ℕ
digits base zero n = []
digits base (suc fuel) n =
    let rest = digits base fuel (n / base) in if n == 0 then [] else digit (n % base) ∷ rest

-- The absolute value of the least `int` is not an `int`: `abs` returns the argument.
abbrev pub is_least : ℤ → Bool
is_least (pos n) = false
is_least (negsuc n) = n == 2 ^ 31 - 1

-- The same loop on -n: the quotients and remainders are negative, and none of these is 10 or more.
unfoldable pub minus_digits : ℕ → ℕ → ℕ → List ℕ
minus_digits base zero n = []
minus_digits base (suc fuel) n =
    let rest = minus_digits base fuel (n / base) in if n == 0 then [] else (48 - n % base) ∷ rest

-- Two characters that change places: `swap`.
abbrev pub swap : List ℕ → ℕ → ℕ → List ℕ
swap s i j = set (set s i (get_or s j 0)) j (get_or s i 0)

-- `reverse` on the places from `i` to `j`; each round of its loop brings them closer by two.
unfoldable pub reverse : ℕ → List ℕ → ℕ → ℕ → List ℕ
reverse zero s i j = s
reverse (suc fuel) s i j =
    let rest = reverse fuel (swap s i j) (i + 1) (j - 1) in if ltb i j then rest else s

abbrev pub or_zero : List ℕ → List ℕ
or_zero [] = b'0' ∷ []
or_zero (c ∷ cs) = c ∷ cs

-- `intToStr`: the string that then stands in the buffer. 32 rounds are enough for an `int`.
unfoldable pub int_to_str : ℤ → List ℕ → ℕ → List ℕ
unfolding digits minus_digits reverse
int_to_str value buffer base =
    let stored =
      if is_least value then minus_digits base 32 (abs value) else digits base 32 (abs value) in
    let plain = or_zero stored in
    let signed = if is_negative value && (base == 10) then plain ++ (b'-' ∷ []) else plain in
    if ltb base 2 || ltb 32 base
    then buffer
    else reverse (length signed) signed 0 (length signed - 1)

abbrev pub is_digit : ℕ → Bool
is_digit c = leb b'0' c && leb c b'9'

abbrev pub is_hex_digit : ℕ → Bool
is_hex_digit c = is_digit c || ((leb b'A' c && leb c b'F') || (leb b'a' c && leb c b'f'))

-- The loop of `strToInt`: whether it comes to the end of the string, the bits of `res`, and `*size`.
unfoldable pub read_digits : List ℕ → ℕ → ℕ → Bool × ℕ × ℕ
read_digits [] res size = (true, res, size)
read_digits (c ∷ cs) res size =
    let rest = read_digits cs ((res * 10 + (c - b'0')) % 2 ^ 32) (size + 1) in
    if is_digit c then rest else (false, res, size)

-- `strToInt`: the bits of the result, and `*size`.
unfoldable pub str_to_int : List ℕ → ℕ × ℕ
unfolding read_digits
str_to_int [] = (0, 0)
str_to_int (c ∷ cs) =
    let (ended, res, size) = read_digits cs 0 1 in
    let (_, res', size') = read_digits (c ∷ cs) 0 0 in
    if c == b'-' then (if ended then (2 ^ 32 - res) % 2 ^ 32 else res, size) else (res', size')

abbrev pub hex_value : ℕ → ℕ
hex_value c =
    if is_digit c
    then c - b'0'
    else if leb b'A' c && leb c b'F'
    then c - b'A' + 10
    else c - b'a' + 10

-- `strToHex` from a value on: the bits of the result, or `none` for the -1.
unfoldable pub str_to_hex : List ℕ → ℕ → Option ℕ
str_to_hex [] val = some val
str_to_hex (c ∷ cs) val =
    let rest = str_to_hex cs ((val * 16 + hex_value c) % 2 ^ 32) in
    if is_hex_digit c then rest else none
