-- ===== src/Libc/Numerals.antt =====
-- `intToStr` of libraries/libc.c against the numeral of a number, which has its first digit first.
use dog_os.Prelude.{
  ℕ, zero, suc, ◌+◌, ◌-◌, ◌/◌, ◌%◌, ◌^◌, ◌<◌, ◌≤◌, ◌≡◌, ◌∙◌, refl, sym, ap, true, false, ltb,
  if◌then◌else◌, ◌==◌, List, [], ◌∷◌, ◌++◌, arith, Bool-cases, inl, inr,
}
use mathlib.Core.Path.{ap₂}
use native.Mathlib.Nat.{pow-zero, pow-suc}
use dog_os.Prelude.Int.{ℤ, pos, negsuc}
use dog_os.Libc.Numbers.{abs, digit, digits, int_to_str, reverse}
use dog_os.Libc.Reverse.{reversed, reverse-reversed}
use dog_os.Libc.RoundTrip.{int_to_str-pos, int_to_str-negsuc}

-- The numeral of a number: one digit, or those of the quotient with the one of the remainder behind.
abbrev pub numeral_char : ℕ → ℕ
numeral_char d = if ltb d 10 then b'0' + d else b'A' + (d - 10)

unfoldable pub numeral : (base fuel n : ℕ) → List ℕ
numeral base zero n = []
numeral base (suc fuel) n =
    let front = numeral base fuel (n / base) in
    if ltb n base then numeral_char n ∷ [] else front ++ (numeral_char (n % base) ∷ [])

-- What the numerals need to know of a base.
abbrev IsBase : ℕ → Type 0
IsBase base =
    (n : ℕ)
    → (n < base → (n / base ≡ 0) × (n % base ≡ n)) × (base ≤ n → 0 < n / base) × (n / base ≤ n / 2)

ten-IsBase : IsBase 10
ten-IsBase n = (λ h. (omega arith, omega arith), λ h. omega arith, omega arith)

sixteen-IsBase : IsBase 16
sixteen-IsBase n = (λ h. (omega arith, omega arith), λ h. omega arith, omega arith)

digits-zero : (base fuel n : ℕ) → n ≡ 0 → digits base fuel n ≡ []
unfolding digits
digits-zero base zero n h = refl
digits-zero base (suc fuel) n h = let e : (n == 0) ≡ true = ground arith in rw e refl

digit-numeral_char : (d : ℕ) → digit d ≡ numeral_char d
digit-numeral_char d = ground arith

-- The digits in the order in which they are stored, turned round.
reversed-digits :
    (base fuel n : ℕ)
    → IsBase base
    → 0 < n
    → n < 2 ^ fuel
    → reversed (digits base fuel n) ≡ numeral base fuel n
unfolding digits numeral
reversed-digits base zero n is more small = absurd (omega (arith, pow-zero 2))
reversed-digits base (suc fuel) n is more small =
    let (low, high, half) = is n in
    let on : (n == 0) ≡ false = ground arith in
    let at_last = digit-numeral_char (n % base) in
    elim (Bool-cases (ltb n base)) [
      | inl e ↦
          let (quotient, remainder) = low (ground (arith, e)) in
          rw (on, e)
            (ap (λ ds. reversed ds ++ (digit (n % base) ∷ []))
                (digits-zero base fuel (n / base) quotient)
              ∙ ap (λ d. d ∷ []) (at_last ∙ ap numeral_char remainder))
      | inr e ↦
          let rest =
            reversed-digits base fuel (n / base) is (high (ground (arith, e)))
              (omega (arith, half, pow-suc 2 fuel)) in
          rw (on, e) (ap₂ (λ l d. l ++ (d ∷ [])) rest at_last)
    ]

-- An `int` in base 10, with a sign in front, and in base 16, without one.
abbrev pub decimal : ℤ → List ℕ
decimal (pos n) = numeral 10 32 n
decimal (negsuc n) = b'-' ∷ numeral 10 32 (n + 1)

abbrev pub hexadecimal : ℤ → List ℕ
hexadecimal v = numeral 16 32 (abs v)

pub int_to_str-decimal : (v : ℤ) → abs v < 2 ^ 31 → int_to_str v [] 10 ≡ decimal v
int_to_str-decimal (pos zero) h = unfold int_to_str digits reverse numeral in refl
int_to_str-decimal (pos (suc n)) h =
    int_to_str-pos (suc n) [] (omega arith)
    ∙ reversed-digits 10 32 (suc n) ten-IsBase (omega arith) (omega arith)
int_to_str-decimal (negsuc n) h =
    int_to_str-negsuc n [] h
    ∙ ap (λ l. b'-' ∷ l) (reversed-digits 10 32 (n + 1) ten-IsBase (omega arith) (omega arith))

digits-sixteen : (n : ℕ) → 0 < n → (c : ℕ) × (cs : List ℕ) × (digits 16 32 n ≡ c ∷ cs)
unfolding digits
digits-sixteen n h =
    let more : (n == 0) ≡ false = ground arith in
    (digit (n % 16), digits 16 31 (n / 16), rw more refl)

pub int_to_str-hexadecimal : (v : ℤ) → abs v < 2 ^ 31 → int_to_str v [] 16 ≡ hexadecimal v
int_to_str-hexadecimal (pos zero) h = unfold int_to_str digits reverse numeral in refl
int_to_str-hexadecimal (pos (suc n)) h =
    let (c, cs, e) = digits-sixteen (suc n) (omega arith) in
    unfold int_to_str in
    (rw e (reverse-reversed (c ∷ cs) (omega arith))
      ∙ ap reversed (sym e)
      ∙ reversed-digits 16 32 (suc n) sixteen-IsBase (omega arith) (omega arith))
int_to_str-hexadecimal (negsuc n) h =
    let (c, cs, e) = digits-sixteen (n + 1) (omega arith) in
    let above : (n == 2 ^ 31 - 1) ≡ false = ground arith in
    unfold int_to_str in
    (rw (above, e) (reverse-reversed (c ∷ cs) (omega arith))
      ∙ ap reversed (sym e)
      ∙ reversed-digits 16 32 (n + 1) sixteen-IsBase (omega arith) (omega arith))
