-- ===== src/Libc/RoundTrip.antt =====
-- `strToInt` of libraries/libc.c reads what `intToStr` writes.
use dog_os.Prelude.{
  ℕ, zero, suc, ◌+◌, ◌-◌, ◌*◌, ◌/◌, ◌%◌, ◌^◌, ◌<◌, ◌≡◌, ◌∙◌, refl, sym, ap, Bool, true, false, List,
  [], ◌∷◌, ◌++◌, arith, leb, ◌==◌, length, Bool-cases, inl, inr,
}
use mathlib.Core.Path.{ap₂}
use mathlib.Core.Bool.{false≢true}
use native.Mathlib.Nat.{pow-zero, pow-suc}
use dog_os.Prelude.Int.{ℤ, pos, negsuc, to_u32}
use dog_os.Libc.Numbers.{abs, digit, digits, int_to_str, is_digit, read_digits, str_to_int, reverse}
use dog_os.Libc.Reverse.{reversed, reversed-snoc, reverse-reversed, length-reversed}

-- Reading on after digits.
read_digits-append :
    (xs ys : List ℕ) (res size res' size' : ℕ)
    → read_digits xs res size ≡ (true, res', size')
    → read_digits (xs ++ ys) res size ≡ read_digits ys res' size'
unfolding read_digits
read_digits-append [] ys res size res' size' h = ap (λ (r : Bool × ℕ × ℕ). read_digits ys r.1 r.2) h
read_digits-append (c ∷ xs) ys res size res' size' h = elim (Bool-cases (is_digit c)) [
  | inl e ↦ rw e (
      read_digits-append xs ys ((res * 10 + (c - b'0')) % 2 ^ 32) (size + 1) res' size' (rw e at h))
  | inr e ↦ absurd (false≢true (ap (λ (r : Bool × ℕ × ℕ). r.0) (rw e at h)))
]

no_digits : (n size : ℕ) → n ≡ 0 → ◌≡◌ {A = Bool × ℕ × ℕ} (true, 0, size) (true, n, size + 0)
no_digits n size e = ap₂ (λ a b. (true, a, b)) (sym e) (omega arith)

one_digit :
    (n size : ℕ)
    → n < 2 ^ 31
    → read_digits (digit (n % 10) ∷ []) (n / 10) size ≡ (true, n, size + 1)
unfolding read_digits
one_digit n size h =
    let small : leb 10 (n % 10) ≡ false = ground arith in
    let is : is_digit (48 + n % 10) ≡ true = ground arith in
    rw small (rw is (ap (λ a. (true, a, size + 1)) (omega arith)))

-- The digits of a number, the first one first, are read as that number.
read_digits-digits :
    (fuel n size : ℕ)
    → n < 2 ^ fuel
    → n < 2 ^ 31
    → read_digits (reversed (digits 10 fuel n)) 0 size ≡ (true, n, size + length (digits 10 fuel n))
unfolding digits
read_digits-digits zero n size h b =
    unfold read_digits in no_digits n size (omega (arith, pow-zero 2))
read_digits-digits (suc fuel) n size h b = elim (Bool-cases (n == 0)) [
  | inl e ↦ rw e (unfold read_digits in no_digits n size (ground (arith, e)))
  | inr e ↦
      let half : n / 10 < 2 ^ fuel = omega (arith, pow-suc 2 fuel) in
      let ds : List ℕ = digits 10 fuel (n / 10) in
      let rest = read_digits-digits fuel (n / 10) size half (omega arith) in
      rw e (
        read_digits-append (reversed ds) (digit (n % 10) ∷ []) 0 size (n / 10) (size + length ds)
          rest
        ∙ one_digit n (size + length ds) b
        ∙ ap (λ a. (true, n, a)) (omega arith))
]

pub digits-pos : (n : ℕ) → 0 < n → (c : ℕ) × (cs : List ℕ) × (digits 10 32 n ≡ c ∷ cs)
unfolding digits
digits-pos n h =
    let more : (n == 0) ≡ false = ground arith in
    (digit (n % 10), digits 10 31 (n / 10), rw more refl)

-- The string of a number that is not negative: its digits, the first one first.
pub int_to_str-pos :
    (n : ℕ) (buffer : List ℕ) → 0 < n → int_to_str (pos n) buffer 10 ≡ reversed (digits 10 32 n)
unfolding int_to_str
int_to_str-pos n buffer h =
    let (c, cs, e) = digits-pos n h in rw e (reverse-reversed (c ∷ cs) (omega arith))

pub int_to_str-negsuc :
    (n : ℕ) (buffer : List ℕ)
    → n + 1 < 2 ^ 31
    → int_to_str (negsuc n) buffer 10 ≡ b'-' ∷ reversed (digits 10 32 (n + 1))
unfolding int_to_str
int_to_str-negsuc n buffer h =
    let above : (n == 2 ^ 31 - 1) ≡ false = ground arith in
    let (c, cs, e) = digits-pos (n + 1) (omega arith) in
    rw (above, e)
      (reverse-reversed (c ∷ (cs ++ (b'-' ∷ []))) (omega arith) ∙ reversed-snoc (c ∷ cs) b'-')

-- A string of digits alone has no sign in front.
str_to_int-digits :
    (s : List ℕ) (n size : ℕ)
    → 0 < length s
    → read_digits s 0 0 ≡ (true, n, size)
    → str_to_int s ≡ (n, size)
unfolding str_to_int read_digits
str_to_int-digits [] n size p h = absurd (omega arith)
str_to_int-digits (c ∷ cs) n size p h = elim (Bool-cases (c == b'-')) [
  | inl e ↦
      let minus : is_digit c ≡ false = ground (arith, e) in
      absurd (false≢true (ap (λ (r : Bool × ℕ × ℕ). r.0) (rw minus at h)))
  | inr e ↦ rw e (ap (λ (r : Bool × ℕ × ℕ). (r.1, r.2)) h)
]

-- `strToInt` on the string of an `int`, less the least one, that `intToStr` writes in base 10 returns
-- it, and its length in `*size`.
pub str_to_int-int_to_str :
    (v : ℤ) (buffer : List ℕ)
    → abs v < 2 ^ 31
    → str_to_int (int_to_str v buffer 10) ≡ (to_u32 v, length (int_to_str v buffer 10))
str_to_int-int_to_str (pos zero) buffer h =
    unfold int_to_str digits str_to_int read_digits reverse in refl
str_to_int-int_to_str (pos (suc n)) buffer h =
    let ds : List ℕ = digits 10 32 (suc n) in
    let (c, cs, e) = digits-pos (suc n) (omega arith) in
    let size : length (reversed ds) ≡ length ds = length-reversed ds in
    let some_digits : 0 < length (reversed ds) = rw size (rw e (omega arith)) in
    let read = read_digits-digits 32 (suc n) 0 (omega arith) h in
    rw (int_to_str-pos (suc n) buffer (omega arith)) (
      str_to_int-digits (reversed ds) (suc n) (0 + length ds) some_digits read
      ∙ ap (λ a. (suc n, a)) (omega (arith, size)))
str_to_int-int_to_str (negsuc n) buffer h =
    let ds : List ℕ = digits 10 32 (n + 1) in
    let size : length (reversed ds) ≡ length ds = length-reversed ds in
    let read = read_digits-digits 32 (n + 1) 1 (omega arith) h in
    rw (int_to_str-negsuc n buffer h)
      (unfold str_to_int in rw read (ap₂ (λ a b. (a, b)) (omega arith) (omega (arith, size))))
