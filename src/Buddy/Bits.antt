-- ===== src/Buddy/Bits.antt =====
-- Laws of the operations on bits that buddy.c uses: each takes the lowest digit off.
use Prim.Native.Nat.{digits, differ, bit_and-bitwise, bit_xor-bitwise}
use dog_os.Prelude.{
  ℕ, zero, suc, ◌+◌, ◌-◌, ◌*◌, ◌/◌, ◌%◌, ◌^◌, ◌≤◌, ◌<◌, ◌≡◌, refl, ap, min, bit_and, bit_xor, arith,
}
use native.Mathlib.Nat.{two-pow-succ, one-le-pow}

-- With any number of rounds that is enough, the digits are the same.
digits_fuel :
    (z : ℕ → ℕ) (f : ℕ → ℕ → ℕ) (n m a b : ℕ) → a ≤ n → a ≤ m → digits z f n a b ≡ digits z f m a b
digits_fuel z f zero zero zero b p q = refl
digits_fuel z f zero (suc m) zero b p q = refl
digits_fuel z f zero m (suc a) b p q = absurd (omega arith)
digits_fuel z f (suc n) zero zero b p q = refl
digits_fuel z f (suc n) zero (suc a) b p q = absurd (omega arith)
digits_fuel z f (suc n) (suc m) zero b p q = refl
digits_fuel z f (suc n) (suc m) (suc a) b p q =
    omega (arith, digits_fuel z f n m (suc a / 2) (b / 2) (omega arith) (omega arith))

pub bit_and_step : (a b : ℕ) → bit_and a b ≡ bit_and (a / 2) (b / 2) * 2 + min (a % 2) (b % 2)
bit_and_step zero b = omega (arith, bit_and-bitwise 0 b, bit_and-bitwise 0 (b / 2))
bit_and_step (suc a) b = omega (
  arith,
  bit_and-bitwise (suc a) b,
  bit_and-bitwise (suc a / 2) (b / 2),
  digits_fuel (λ c. zero) min a (suc a / 2) (suc a / 2) (b / 2) (omega arith) (omega arith),
)

pub bit_xor_step : (a b : ℕ) → bit_xor a b ≡ bit_xor (a / 2) (b / 2) * 2 + differ (a % 2) (b % 2)
bit_xor_step zero b = omega (arith, bit_xor-bitwise 0 b, bit_xor-bitwise 0 (b / 2))
bit_xor_step (suc a) b = omega (
  arith,
  bit_xor-bitwise (suc a) b,
  bit_xor-bitwise (suc a / 2) (b / 2),
  digits_fuel (λ c. c) differ a (suc a / 2) (suc a / 2) (b / 2) (omega arith) (omega arith),
)

bit_and_self_fuel : (n a : ℕ) → a ≤ n → bit_and a a ≡ a
bit_and_self_fuel n zero h = refl
bit_and_self_fuel zero (suc a) h = absurd (omega arith)
bit_and_self_fuel (suc n) (suc a) h =
    omega (arith, bit_and_step (suc a) (suc a), bit_and_self_fuel n (suc a / 2) (omega arith))

pub bit_and_self : (a : ℕ) → bit_and a a ≡ a
bit_and_self a = bit_and_self_fuel a a (omega arith)

bit_and_zero_fuel : (n a : ℕ) → a ≤ n → bit_and a 0 ≡ 0
bit_and_zero_fuel n zero h = refl
bit_and_zero_fuel zero (suc a) h = absurd (omega arith)
bit_and_zero_fuel (suc n) (suc a) h =
    omega (arith, bit_and_step (suc a) 0, bit_and_zero_fuel n (suc a / 2) (omega arith))

bit_xor_zero_fuel : (n a : ℕ) → a ≤ n → bit_xor a 0 ≡ a
bit_xor_zero_fuel n zero h = refl
bit_xor_zero_fuel zero (suc a) h = absurd (omega arith)
bit_xor_zero_fuel (suc n) (suc a) h = omega (
  arith,
  bit_xor_step (suc a) 0,
  bit_xor_zero_fuel n (suc a / 2) (omega arith),
  digit (suc a % 2),
)
  where
    digit : (d : ℕ) → differ d 0 ≡ d
    digit zero = refl
    digit (suc d) = refl

pub bit_xor_zero : (a : ℕ) → bit_xor a 0 ≡ a
bit_xor_zero a = bit_xor_zero_fuel a a (omega arith)

-- A mask of `w` ones keeps a number of `w` bits.
pub bit_and_ones : (w a : ℕ) → a < 2 ^ w → bit_and a (2 ^ w - 1) ≡ a
bit_and_ones zero a h = let none_left : a ≡ 0 = omega arith in rw none_left refl
bit_and_ones (suc w) a h =
    let half : (2 ^ suc w - 1) / 2 ≡ 2 ^ w - 1 = omega (arith, two-pow-succ w) in
    let odd : (2 ^ suc w - 1) % 2 ≡ 1 =
      omega (arith, two-pow-succ w, one-le-pow w 2 (omega arith)) in
    omega (
      arith,
      bit_and_step a (2 ^ suc w - 1),
      ap (bit_and (a / 2)) half,
      odd,
      bit_and_ones w (a / 2) (omega (arith, two-pow-succ w)),
    )
