-- ===== src/Buddy/Pairs.antt =====
-- The pairs of blocks that buddy.c splits and merges.
use Prim.Native.Nat.{differ}
use dog_os.Prelude.{
  ℕ, zero, suc, ◌+◌, ◌-◌, ◌*◌, ◌/◌, ◌%◌, ◌^◌, ◌≤◌, ◌<◌, ◌≡◌, ◌⊎◌, inl, inr, ◌∙◌, ap, arith, bit_and,
  bit_xor, ltb, if◌then◌else◌,
}
use native.Mathlib.Nat.{two-pow-succ, one-le-pow, pow-suc, pow-le-pow_right}
use dog_os.Buddy.{Buddy, int_bit, get_node_buddy, get_node_address}
use dog_os.Buddy.Bits.{bit_and_step, bit_xor_step, bit_and_ones, bit_xor_zero}

-- The offset of the first or of the second of two blocks of 2 ^ k bytes: the first of the `m`-th pair.
abbrev pub first_of : (m k : ℕ) → ℕ
first_of m k = m * 2 ^ suc k

abbrev pub second_of : (m k : ℕ) → ℕ
second_of m k = m * 2 ^ suc k + 2 ^ k

first_of-suc : (m k : ℕ) → first_of m (suc k) ≡ first_of m k * 2
first_of-suc m k = ap (λ p. m * p) (pow-suc 2 (suc k)) ∙ mul_last m (2 ^ suc k)
  where
    mul_last : (a b : ℕ) → a * (b * 2) ≡ a * b * 2
    mul_last a b = grind arith

bit_xor_first : (m k : ℕ) → bit_xor (first_of m k) (2 ^ k) ≡ second_of m k
bit_xor_first m zero =
    let even : (m * 2) / 2 ≡ m = omega arith in
    let digit : (m * 2) % 2 ≡ 0 = omega arith in
    omega (
      arith,
      bit_xor_step (m * 2) 1,
      ap (λ a. bit_xor a 0) even,
      bit_xor_zero m,
      ap (λ d. differ d 1) digit,
    )
bit_xor_first m (suc k) =
    let twice = first_of-suc m k in
    let half : first_of m (suc k) / 2 ≡ first_of m k = omega arith in
    let even : first_of m (suc k) % 2 ≡ 0 = omega arith in
    let half' : 2 ^ suc k / 2 ≡ 2 ^ k = omega (arith, two-pow-succ k) in
    let even' : 2 ^ suc k % 2 ≡ 0 = omega (arith, two-pow-succ k) in
    omega (
      arith,
      bit_xor_step (first_of m (suc k)) (2 ^ suc k),
      two-pow-succ k,
      ap (λ a. bit_xor a (2 ^ suc k / 2)) half,
      ap (bit_xor (first_of m k)) half',
      ap (λ d. differ d (2 ^ suc k % 2)) even,
      even',
      bit_xor_first m k,
    )

second_of-suc : (m k : ℕ) → second_of m (suc k) ≡ second_of m k * 2
second_of-suc m k = omega (arith, first_of-suc m k, two-pow-succ k)

bit_xor_second : (m k : ℕ) → bit_xor (second_of m k) (2 ^ k) ≡ first_of m k
bit_xor_second m zero =
    let half : (m * 2 + 1) / 2 ≡ m = omega arith in
    let digit : (m * 2 + 1) % 2 ≡ 1 = omega arith in
    omega (
      arith,
      bit_xor_step (m * 2 + 1) 1,
      ap (λ a. bit_xor a 0) half,
      bit_xor_zero m,
      ap (λ d. differ d 1) digit,
    )
bit_xor_second m (suc k) =
    let twice = second_of-suc m k in
    let half : second_of m (suc k) / 2 ≡ second_of m k = omega arith in
    let even : second_of m (suc k) % 2 ≡ 0 = omega arith in
    let half' : 2 ^ suc k / 2 ≡ 2 ^ k = omega (arith, two-pow-succ k) in
    let even' : 2 ^ suc k % 2 ≡ 0 = omega (arith, two-pow-succ k) in
    omega (
      arith,
      bit_xor_step (second_of m (suc k)) (2 ^ suc k),
      first_of-suc m k,
      ap (λ a. bit_xor a (2 ^ suc k / 2)) half,
      ap (bit_xor (second_of m k)) half',
      ap (λ d. differ d (2 ^ suc k % 2)) even,
      even',
      bit_xor_second m k,
    )

-- One of the two blocks of the `m`-th pair of 2 ^ k bytes.
abbrev pub InPair : (m k a : ℕ) → Type 0
InPair m k a = (a ≡ first_of m k) ⊎ (a ≡ second_of m k)

InPair-half : (m k a : ℕ) → InPair m (suc k) a → InPair m k (a / 2) × (a % 2 ≡ 0)
InPair-half m k a (inl e) = let twice = first_of-suc m k in (inl (omega arith), omega arith)
InPair-half m k a (inr e) = let twice = second_of-suc m k in (inr (omega arith), omega arith)

InPair-zero : (m a : ℕ) → InPair m zero a → a / 2 ≡ m
InPair-zero m a (inl e) = omega arith
InPair-zero m a (inr e) = omega arith

bit_and_mask :
    (w k m a : ℕ) → k < w → a < 2 ^ w → InPair m k a → bit_and a (2 ^ w - 1 - 2 ^ k) ≡ first_of m k
bit_and_mask zero k m a small bits pair = absurd (omega arith)
bit_and_mask (suc w) zero m a small bits pair =
    let half : (2 ^ suc w - 1 - 1) / 2 ≡ 2 ^ w - 1 = omega (arith, two-pow-succ w) in
    let even : (2 ^ suc w - 1 - 1) % 2 ≡ 0 = omega (arith, two-pow-succ w) in
    let there = InPair-zero m a pair in
    omega (
      arith,
      bit_and_step a (2 ^ suc w - 1 - 1),
      even,
      ap (bit_and (a / 2)) half,
      bit_and_ones w (a / 2) (omega (arith, two-pow-succ w)),
    )
bit_and_mask (suc w) (suc k) m a small bits pair =
    let (pair', even) = InPair-half m k a pair in
    let low = pow-le-pow_right {n = 2} (omega arith) {i = suc k} {j = w} (omega arith) in
    let some_bits = one-le-pow k 2 (omega arith) in
    let half : (2 ^ suc w - 1 - 2 ^ suc k) / 2 ≡ 2 ^ w - 1 - 2 ^ k =
      omega (arith, two-pow-succ w, two-pow-succ k, low, some_bits) in
    omega (
      arith,
      bit_and_step a (2 ^ suc w - 1 - 2 ^ suc k),
      even,
      ap (bit_and (a / 2)) half,
      first_of-suc m k,
      bit_and_mask w k m (a / 2) (omega arith) (omega (arith, two-pow-succ w)) pair',
    )

-- `1 << n` is a power of two as long as it does not reach the sign of an `int`.
int_bit-pow : (k : ℕ) → k < 31 → int_bit k ≡ 2 ^ k
unfolding int_bit
int_bit-pow k low =
    let count : k % 32 ≡ k = omega arith in
    ap (λ n. if ltb n 31 then 2 ^ n else 2 ^ 64 - 2 ^ 31) count ∙ ground arith

-- Below bucket 27 and the end of the addresses, the blocks of a pair are the halves of a block of twice the
-- size: each is the buddy of the other, and both have the address of the first, where that block starts.
pub get_node_buddy-pair :
    (m : ℕ) (h : Buddy) (node : ℕ)
    → h.base_ptr ≤ node
    → node + 2 ^ (4 + h.bucket node) < 2 ^ 64
    → 4 + h.bucket node < 31
    → InPair m (4 + h.bucket node) (node - h.base_ptr)
    → ((node ≡ h.base_ptr + first_of m (4 + h.bucket node))
        × (get_node_buddy node h ≡ node + 2 ^ (4 + h.bucket node))
        × (get_node_address node h ≡ node))
      ⊎ ((node ≡ h.base_ptr + second_of m (4 + h.bucket node))
          × (get_node_buddy node h + 2 ^ (4 + h.bucket node) ≡ node)
          × (get_node_address node h ≡ get_node_buddy node h))
unfolding get_node_buddy get_node_address int_bit
get_node_buddy-pair m h node above bits level pair =
    let k : ℕ = 4 + h.bucket node in
    let bit : int_bit k ≡ 2 ^ k = int_bit-pow k level in
    let mask =
      ap (λ b. bit_and (node - h.base_ptr) (2 ^ 64 - 1 - b)) bit
      ∙ bit_and_mask 64 k m (node - h.base_ptr) (omega arith) (omega arith) pair in
    let flip = ap (bit_xor (node - h.base_ptr)) bit in
    elim pair [
      | inl e ↦
          let buddy = flip ∙ ap (λ a. bit_xor a (2 ^ k)) e ∙ bit_xor_first m k in
          inl (omega arith, omega arith, omega arith)
      | inr e ↦
          let buddy = flip ∙ ap (λ a. bit_xor a (2 ^ k)) e ∙ bit_xor_second m k in
          inr (omega arith, omega arith, omega arith)
    ]
