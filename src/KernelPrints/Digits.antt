-- ===== src/KernelPrints/Digits.antt =====
-- How many characters `uintToBase` of libraries/prints.c writes in base 10.
use dog_os.Prelude.{
  ℕ, zero, suc, ◌+◌, ◌-◌, ◌/◌, ◌^◌, ◌≤◌, ◌<◌, ◌≡◌, ◌∙◌, refl, ap, true, false, List, arith, ◌==◌,
  ltb, length, set, get_or, length-set, if-both,
}
use native.Mathlib.Nat.{pow-succ', one-le-pow}
use dog_os.KernelPrints.{base_loop, turn_round, uint_to_base}

length-base_loop :
    (fuel k value : ℕ)
    → k < fuel
    → 10 ^ k ≤ value
    → value < 10 ^ suc k
    → length (base_loop fuel 10 value) ≡ suc k
unfolding base_loop
length-base_loop zero k value few low high = absurd (omega arith)
length-base_loop (suc fuel) zero value few low high =
    let last : (value / 10 == 0) ≡ true = ground arith in rw last refl
length-base_loop (suc fuel) (suc k) value few low high =
    let more : (value / 10 == 0) ≡ false =
      ground (arith, pow-succ' 10 k, one-le-pow k 10 (omega arith)) in
    rw more (
      ap suc (
        length-base_loop fuel k (value / 10) (omega arith) (omega (arith, pow-succ' 10 k))
          (omega (arith, pow-succ' 10 (suc k)))))

length-turn_round :
    (fuel : ℕ) (s : List ℕ) (p1 p2 : ℕ) → length (turn_round fuel s p1 p2) ≡ length s
unfolding turn_round
length-turn_round zero s p1 p2 = refl
length-turn_round (suc fuel) s p1 p2 =
    let swapped : List ℕ = set (set s p1 (get_or s p2 0)) p2 (get_or s p1 0) in
    let rest = length-turn_round fuel swapped (p1 + 1) (p2 - 1) in
    if-both (λ t. length t ≡ length s) (ltb p1 p2) (turn_round fuel swapped (p1 + 1) (p2 - 1)) s
      (rest
        ∙ length-set (set s p1 (get_or s p2 0)) p2 (get_or s p1 0)
        ∙ length-set s p1 (get_or s p2 0))
      refl

-- A number from 10 ^ k on and below 10 ^ (k + 1) has k + 1 characters in base 10: those from 10 ^ 9 on leave no
-- room for the final 0 in a buffer of 10.
pub length-uint_to_base :
    (k value : ℕ)
    → k < 64
    → 10 ^ k ≤ value
    → value < 10 ^ suc k
    → length (uint_to_base value 10) ≡ suc k
unfolding uint_to_base
length-uint_to_base k value few low high =
    let s : List ℕ = base_loop 64 10 value in
    length-turn_round (length s) s 0 (length s - 1) ∙ length-base_loop 64 k value few low high
