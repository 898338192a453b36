-- ===== src/KernelPrints/Numbers.antt =====
-- The numbers of libraries/prints.c.
use dog_os.Prelude.{
  ℕ, zero, suc, ◌+◌, ◌/◌, ◌^◌, ◌≤◌, ◌<◌, ◌≡◌, ◌∙◌, refl, ap, true, false, arith, ◌==◌,
  if◌then◌else◌,
}
use native.Mathlib.Decide.{dec_lt}
use native.Mathlib.Nat.{two-pow-succ}
use dog_os.Prelude.Int.{pos, minus_one}
use dog_os.KernelPrints.{log2_loop, log2}

-- The exponent of the largest power of 2 that is not above a number.
abbrev pub Log : (n r : ℕ) → Type 0
Log n r = (2 ^ r ≤ n) × (n < 2 ^ (suc r))

Log-half : (n r : ℕ) → Log (n / 2) r → Log n (suc r)
Log-half n r (low, high) =
    (omega (arith, two-pow-succ r), omega (arith, two-pow-succ r, two-pow-succ (suc r)))

-- What the loop of `log2` adds to the result it has, when that is not negative.
log2_loop-Log :
    (fuel n j : ℕ)
    → 0 < n
    → n < 2 ^ fuel
    → (r : ℕ) × (log2_loop (suc fuel) n (pos j) ≡ pos (j + suc r)) × Log n r
unfolding log2_loop
log2_loop-Log zero n j some_bits small = absurd (omega arith)
log2_loop-Log (suc fuel) n j some_bits small =
    let more : (n == 0) ≡ false = ground arith in
    elim (dec_lt 0 (n / 2)) [
      | yes up ↦
          let (r, e, l) =
            log2_loop-Log fuel (n / 2) (j + 1) up (omega (arith, two-pow-succ fuel)) in
          (suc r, rw more (e ∙ ap pos (omega arith)), Log-half n r l)
      | no down ↦
          let last : (n / 2 == 0) ≡ true = ground arith in
          (zero, rw more (rw last (ap pos (omega arith))), (omega arith, omega arith))
    ]

log2_loop_start :
    (fuel n : ℕ)
    → 0 < n
    → n < 2 ^ fuel
    → (r : ℕ) × (log2_loop (suc fuel) n minus_one ≡ pos r) × Log n r
unfolding log2_loop
log2_loop_start zero n some_bits small = absurd (omega arith)
log2_loop_start (suc fuel) n some_bits small =
    let more : (n == 0) ≡ false = ground arith in
    elim (dec_lt 0 (n / 2)) [
      | yes up ↦
          let (r, e, l) = log2_loop-Log fuel (n / 2) 0 up (omega (arith, two-pow-succ fuel)) in
          (suc r, rw more (e ∙ ap pos (omega arith)), Log-half n r l)
      | no down ↦
          let last : (n / 2 == 0) ≡ true = ground arith in
          (zero, rw more (rw last refl), (omega arith, omega arith))
    ]

-- `log2` of a number above 0 is the exponent of the largest power of 2 that is not above it.
pub log2-Log : (n : ℕ) → 0 < n → n < 2 ^ 32 → (r : ℕ) × (log2 n ≡ pos r) × Log n r
unfolding log2
log2-Log n some_bits small =
    let more : (n == 0) ≡ false = ground arith in
    let (r, e, l) = log2_loop_start 32 n some_bits small in
    (r, ap (λ b. if b then minus_one else log2_loop 33 n minus_one) more ∙ e, l)
