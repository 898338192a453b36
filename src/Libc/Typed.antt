-- ===== src/Libc/Typed.antt =====
-- Numbers that are typed: `scanf` of libraries/libc.c reads what `intToStr` writes.
use dog_os.Prelude.{
  ℕ, zero, suc, ◌+◌, ◌/◌, ◌^◌, ◌<◌, ◌≤◌, ◌≡◌, refl, sym, ap, subst, ◌∙◌, false, some, List, [], ◌∷◌,
  ◌++◌, map, ◌==◌, length, append-nil, arith, Bool-cases, inl, inr,
}
use dog_os.Prelude.Int.{ℤ, pos, negsuc, to_u32}
use dog_os.Libc.Numbers.{abs, digits, int_to_str, str_to_int}
use dog_os.Libc.Reverse.{reversed, length-reversed}
use dog_os.Libc.RoundTrip.{digits-pos, int_to_str-pos, int_to_str-negsuc, str_to_int-int_to_str}
use dog_os.Libc.Format.{buff_len}
use dog_os.Libc.Input.{Input, Line, int, scan_loop, scan_conversion, scanf, put_char, new_line}
use dog_os.Libc.Lines.{edit, turned, CanType}
use dog_os.Libc.Scan.{line_of, scanf-line_of}

-- Digits and minus signs.
abbrev Numeral : List ℕ → Type 0
Numeral [] = Unit
Numeral (c ∷ cs) = (44 < c) × (c < 58) × Numeral cs

Numeral-append : (xs ys : List ℕ) → Numeral xs → Numeral ys → Numeral (xs ++ ys)
Numeral-append [] ys h k = k
Numeral-append (x ∷ xs) ys (low, high, h) k = (low, high, Numeral-append xs ys h k)

Numeral-reversed : (xs : List ℕ) → Numeral xs → Numeral (reversed xs)
Numeral-reversed [] h = tt
Numeral-reversed (x ∷ xs) (low, high, h) =
    Numeral-append (reversed xs) (x ∷ []) (Numeral-reversed xs h) (low, high, tt)

Numeral-digits : (fuel n : ℕ) → Numeral (digits 10 fuel n) × (length (digits 10 fuel n) ≤ fuel)
unfolding digits
Numeral-digits zero n = (tt, omega arith)
Numeral-digits (suc fuel) n = elim (Bool-cases (n == 0)) [
  | inl e ↦ rw e (tt, omega arith)
  | inr e ↦
      let (rest, short) = Numeral-digits fuel (n / 10) in
      rw e ((ground arith, ground arith, rest), omega (arith, short))
]

-- Such characters are typed as they are.
Numeral-CanType :
    (cs line : List ℕ) → Numeral cs → length line + length cs < buff_len → CanType cs line
Numeral-CanType [] line h short = tt
Numeral-CanType (c ∷ cs) line (low, high, h) short =
    let other : (c == 8) ≡ false = ground arith in
    (
      (omega arith, omega arith, omega arith, omega arith),
      omega (arith, short),
      (λ e. absurd (omega (arith, e))),
      rw other (Numeral-CanType cs (c ∷ line) h (omega (arith, short))),
    )

edit-turned : (cs line : List ℕ) → Numeral cs → edit cs line ≡ turned cs line
edit-turned [] line h = refl
edit-turned (c ∷ cs) line (low, high, h) =
    let other : (c == 8) ≡ false = ground arith in rw other (edit-turned cs (c ∷ line) h)

turned-turned : (xs ys zs : List ℕ) → turned (turned xs ys) zs ≡ turned ys (xs ++ zs)
turned-turned [] ys zs = refl
turned-turned (x ∷ xs) ys zs = turned-turned xs (x ∷ ys) zs

line_of-Numeral : (cs : List ℕ) → Numeral cs → line_of cs ≡ cs
line_of-Numeral cs h =
    ap (λ l. turned l []) (edit-turned cs [] h) ∙ turned-turned cs [] [] ∙ append-nil cs

-- What is known of a string that is written for a number.
record IsNumber (text : List ℕ) : Type 0 where
  numeral : Numeral text
  short : length text < buff_len
  first : 0 < length text

digits-IsNumber : (n : ℕ) → 0 < n → IsNumber (reversed (digits 10 32 n))
digits-IsNumber n some_digit =
    let (h, few) = Numeral-digits 32 n in
    let (c, cs, e) = digits-pos n some_digit in
    let size = length-reversed (digits 10 32 n) in
    let whole = ap length e in
    record {
      numeral = Numeral-reversed (digits 10 32 n) h;
      short = omega (arith, size, few);
      first = omega (arith, size, whole);
    }

int_to_str-IsNumber : (v : ℤ) → abs v < 2 ^ 31 → IsNumber (int_to_str v [] 10)
int_to_str-IsNumber (pos zero) h = record {
  numeral = unfold int_to_str in (omega arith, omega arith, tt);
  short = unfold int_to_str in omega arith;
  first = unfold int_to_str in omega arith;
}
int_to_str-IsNumber (pos (suc n)) h =
    subst IsNumber (sym (int_to_str-pos (suc n) [] (omega arith)))
      (digits-IsNumber (suc n) (omega arith))
int_to_str-IsNumber (negsuc n) h =
    let d = digits-IsNumber (n + 1) (omega arith) in
    let few = Numeral-digits 32 (n + 1) in
    let size = length-reversed (digits 10 32 (n + 1)) in
    subst IsNumber (sym (int_to_str-negsuc n [] h)) (record {
      numeral = (omega arith, omega arith, d.numeral);
      short = omega (arith, few.1, size);
      first = omega arith;
    })

-- `%d`
abbrev pub number_format : List ℕ
number_format = b'%' ∷ b'd' ∷ []

scan_loop-number :
    (text : List ℕ) (value size : ℕ)
    → 0 < length text
    → str_to_int text ≡ (value, size)
    → scan_loop false number_format text 0 ≡ some (int value ∷ [], size)
unfolding scan_loop scan_conversion
scan_loop-number [] value size some_text h = absurd (omega arith)
scan_loop-number (c ∷ text) value size some_text h =
    ap (λ (r : ℕ × ℕ). some (int r.0 ∷ [], 0 + r.1)) h
    ∙ ap (λ n. some (int value ∷ [], n)) (omega arith)

-- `scanf` of `%d`, on the string of an `int`, less the least one, that `intToStr` writes, when it is typed
-- with the end of a line behind it, stores that number and returns the length of the string.
pub scanf-int_to_str :
    (v : ℤ) (rest : List ℕ) (r : Input)
    → abs v < 2 ^ 31
    → (l : Line) × (scanf number_format (int_to_str v [] 10 ++ (b'\n' ∷ rest)) r ≡ some l)
      × (l.scanned ≡ int (to_u32 v) ∷ [])
      × (l.result ≡ length (int_to_str v [] 10))
      × (l.shown ≡ map put_char (int_to_str v [] 10) ++ (new_line ∷ []))
      × (l.rest ≡ rest)
scanf-int_to_str v rest r small =
    let text : List ℕ = int_to_str v [] 10 in
    let is = int_to_str-IsNumber v small in
    scanf-line_of number_format text rest r (int (to_u32 v) ∷ []) (length text)
      (Numeral-CanType text [] is.numeral (omega (arith, is.short)))
      (ap (λ t. scan_loop false number_format t 0) (line_of-Numeral text is.numeral)
        ∙ scan_loop-number text (to_u32 v) (length text) is.first
            (str_to_int-int_to_str v [] small))
