-- ===== src/Buddy/Levels.antt =====
-- The bucket that buddy.c chooses for a number of bytes.
use dog_os.Prelude.{
  ℕ, zero, suc, ◌+◌, ◌-◌, ◌/◌, ◌%◌, ◌^◌, ◌≤◌, ◌<◌, ◌≡◌, ◌⊎◌, inl, inr, ◌∙◌, refl, ap, true, false,
  arith, ◌==◌, ltb, min, bit_and, Bool-cases,
}
use native.Mathlib.Decide.{dec_lt}
use native.Mathlib.Nat.{two-pow-succ, pow-le-pow_right, one-le-pow}
use dog_os.Prelude.Int.{to_u64}
use dog_os.KernelPrints.{log2}
use dog_os.KernelPrints.Numbers.{Log, log2-Log}
use dog_os.Buddy.{get_minimum_suitable_bucket}
use dog_os.Buddy.Bits.{bit_and_step, bit_and_self}

-- The test for a power of 2.
power_test :
    (r n : ℕ)
    → Log n r
    → ((n ≡ 2 ^ r) × (bit_and n (n - 1) ≡ 0)) ⊎ ((2 ^ r < n) × (0 < bit_and n (n - 1)))
power_test zero n (low, high) = let one : n ≡ 1 = omega arith in inl (one, rw one refl)
power_test (suc r) n (low, high) = elim (dec_lt 0 (n % 2)) [
  | yes odd ↦
      let half : (n - 1) / 2 ≡ n / 2 = omega arith in
      let digit : min (n % 2) ((n - 1) % 2) ≡ 0 = omega arith in
      inr (
        omega (arith, two-pow-succ r),
        omega (
          arith,
          two-pow-succ r,
          bit_and_step n (n - 1),
          digit,
          bit_and_self (n / 2),
          ap (bit_and (n / 2)) half,
        ),
      )
  | no even ↦
      let half : (n - 1) / 2 ≡ n / 2 - 1 = omega (arith, two-pow-succ r) in
      let digit : min (n % 2) ((n - 1) % 2) ≡ 0 = omega arith in
      let step = bit_and_step n (n - 1) in
      let rest = ap (bit_and (n / 2)) half in
      elim (power_test r (n / 2)
        (omega (arith, two-pow-succ r), omega (arith, two-pow-succ r, two-pow-succ (suc r)))) [
          | inl (e, z) ↦ inl (omega (arith, two-pow-succ r), omega arith)
          | inr (l, z) ↦ inr (omega (arith, two-pow-succ r), omega arith)
        ]
]

-- The bucket for a request, by the power of 2 that is not above it.
bucket-cases :
    (request r : ℕ)
    → 0 < request
    → to_u64 (log2 (request % 2 ^ 32)) ≡ r
    → Log request r
    → ((r < 4) × (get_minimum_suitable_bucket request ≡ 0))
      ⊎ (((4 ≤ r) × (request ≡ 2 ^ r) × (get_minimum_suitable_bucket request ≡ r - 4))
          ⊎ ((4 ≤ r) × (2 ^ r < request) × (get_minimum_suitable_bucket request ≡ r - 4 + 1)))
unfolding get_minimum_suitable_bucket
bucket-cases request r some_bytes level l =
    let some_request : (request == 0) ≡ false = ground arith in
    elim (Bool-cases (ltb r 4)) [
      | inl t ↦ inl (
        ground (arith, t),
        rw (level, get_minimum_suitable_bucket) (rw (t, get_minimum_suitable_bucket) refl),
      )
      | inr t ↦ inr (elim (power_test r request l) [
        | inl (e, z) ↦
            let power : (bit_and request (request - 1) == 0) ≡ true = ground (arith, z) in
            inl (
              ground (arith, t),
              e,
              rw (level, get_minimum_suitable_bucket)
                  (rw (t, get_minimum_suitable_bucket)
                    (rw (some_request, get_minimum_suitable_bucket)
                      (rw (power, get_minimum_suitable_bucket) refl))),
            )
        | inr (above, z) ↦
            let no_power : (bit_and request (request - 1) == 0) ≡ false = ground (arith, z) in
            inr (
              ground (arith, t),
              above,
              rw (level, get_minimum_suitable_bucket)
                  (rw (t, get_minimum_suitable_bucket)
                    (rw (some_request, get_minimum_suitable_bucket)
                      (rw (no_power, get_minimum_suitable_bucket) refl))),
            )
      ])
    ]

power : (a b : ℕ) → a ≡ b → 2 ^ a ≡ 2 ^ b
power a b e = ap (λ k. 2 ^ k) e

-- A request of at most 2^31 bytes gets the bucket of the smallest
-- blocks, of 16 bytes or a larger power of 2, that hold it.
pub get_minimum_suitable_bucket-least :
    (request : ℕ)
    → 0 < request
    → request ≤ 2 ^ 31
    → (request ≤ 2 ^ (4 + get_minimum_suitable_bucket request))
      × ((get_minimum_suitable_bucket request ≡ 0)
          ⊎ (2 ^ (3 + get_minimum_suitable_bucket request) < request))
get_minimum_suitable_bucket-least request some_bytes small =
    let (r, e, l) = log2-Log request some_bytes (omega arith) in
    let low : request % 2 ^ 32 ≡ request = omega arith in
    let level : to_u64 (log2 (request % 2 ^ 32)) ≡ r =
      ap (λ n. to_u64 (log2 n)) low ∙ ap to_u64 e in
    elim (bucket-cases request r some_bytes level l) [
      | inl (few, b) ↦ (
        rw b (
            omega
              (arith, pow-le-pow_right {n = 2} (omega arith) {i = suc r} {j = 4} (omega arith))),
        inl b,
      )
      | inr (inl (many, e, b)) ↦ (
        rw b (omega (arith, power (4 + (r - 4)) r (omega arith))),
        inr (
            rw b (
              omega (
                arith,
                power (suc (3 + (r - 4))) r (omega arith),
                two-pow-succ (3 + (r - 4)),
                one-le-pow (3 + (r - 4)) 2 (omega arith),
              ))),
      )
      | inr (inr (many, above, b)) ↦ (
        rw b (omega (arith, power (4 + (r - 4 + 1)) (suc r) (omega arith))),
        inr (rw b (omega (arith, power (3 + (r - 4 + 1)) r (omega arith)))),
      )
    ]
