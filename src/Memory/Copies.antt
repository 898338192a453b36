-- ===== src/Memory/Copies.antt =====
-- memcpy of Kernel/lib.c against the copy that it means.
use dog_os.Prelude.{
  ℕ, zero, suc, ◌+◌, ◌-◌, ◌*◌, ◌/◌, ◌%◌, ◌^◌, ◌≤◌, ◌<◌, ◌≡◌, ◌⊎◌, inl, inr, ◌∙◌, refl, sym, ap,
  subst, true, false, ◌&&◌, arith, leb, ltb, ◌==◌, put, put_self, put_ne, Bool-cases, if◌then◌else◌,
}
use native.Mathlib.Decide.{dec_lt}
use dog_os.Memory.{memcpy, copy_words, copy_bytes, read32, write32, memset, memset_loop}

-- The memory once `n` bytes from `s` on stand from `d` on as well.
abbrev pub copied : (d s n : ℕ) → (ℕ → ℕ) → ℕ → ℕ
copied d s n m a = if leb d a && ltb a (d + n) then m (s + (a - d)) else m a

-- The two arrays have no byte in common.
abbrev pub Apart : (d s n : ℕ) → Type 0
Apart d s n = (d + n ≤ s) ⊎ (s + n ≤ d)

copied_inside : (d s n a : ℕ) (m : ℕ → ℕ) → d ≤ a → a < d + n → copied d s n m a ≡ m (s + (a - d))
copied_inside d s n a m low high =
    let inside : (leb d a && ltb a (d + n)) ≡ true = ground arith in rw inside refl

copied_outside : (d s n a : ℕ) (m : ℕ → ℕ) → (a < d) ⊎ (d + n ≤ a) → copied d s n m a ≡ m a
copied_outside d s n a m out =
    let outside : (leb d a && ltb a (d + n)) ≡ false = ground arith in rw outside refl

-- A copy of `k` bytes and one of the `n` behind them.
copied-copied :
    (d s k n : ℕ) (m m' : ℕ → ℕ)
    → Apart d s (k + n)
    → ((b : ℕ) → m' b ≡ copied d s k m b)
    → (a : ℕ) → copied (d + k) (s + k) n m' a ≡ copied d s (k + n) m a
copied-copied d s k n m m' apart first a = elim (dec_lt a d) [
  | yes before ↦
      copied_outside (d + k) (s + k) n a m' (inl (omega arith))
      ∙ first a
      ∙ copied_outside d s k a m (inl before)
      ∙ sym (copied_outside d s (k + n) a m (inl before))
  | no up ↦ elim (dec_lt a (d + k)) [
    | yes here ↦
        copied_outside (d + k) (s + k) n a m' (inl (omega arith))
        ∙ first a
        ∙ copied_inside d s k a m (omega arith) (omega arith)
        ∙ sym (copied_inside d s (k + n) a m (omega arith) (omega arith))
    | no on ↦ elim (dec_lt a (d + k + n)) [
      | yes there ↦
          let from : ℕ = s + k + (a - (d + k)) in
          let away : (from < d) ⊎ (d + k ≤ from) = elim apart [
            | inl e ↦ inr (omega arith)
            | inr e ↦ inl (omega arith)
          ] in
          copied_inside (d + k) (s + k) n a m' (omega arith) (omega arith)
          ∙ first from
          ∙ copied_outside d s k from m away
          ∙ ap m (omega arith)
          ∙ sym (copied_inside d s (k + n) a m (omega arith) (omega arith))
      | no behind ↦
          copied_outside (d + k) (s + k) n a m' (inr (omega arith))
          ∙ first a
          ∙ copied_outside d s k a m (inr (omega arith))
          ∙ sym (copied_outside d s (k + n) a m (inr (omega arith)))
    ]
  ]
]

Apart-behind : (d s k n : ℕ) → Apart d s (k + n) → Apart (d + k) (s + k) n
Apart-behind d s k n (inl e) = inl (omega arith)
Apart-behind d s k n (inr e) = inr (omega arith)

put-copied : (d s : ℕ) (m : ℕ → ℕ) (b : ℕ) → put m d (m s) b ≡ copied d s 1 m b
put-copied d s m b = elim (dec_lt b d) [
  | yes before ↦ put_ne m d (m s) b (omega arith) ∙ sym (copied_outside d s 1 b m (inl before))
  | no up ↦ elim (dec_lt d b) [
    | yes behind ↦
        put_ne m d (m s) b (omega arith) ∙ sym (copied_outside d s 1 b m (inr (omega arith)))
    | no same ↦
        let here : b ≡ d = omega arith in
        ap (put m d (m s)) here
        ∙ put_self m d (m s)
        ∙ ap m (omega arith)
        ∙ sym (copied_inside d s 1 b m (omega arith) (omega arith))
  ]
]

copied-length : (d s n t a : ℕ) (m : ℕ → ℕ) → n ≡ t → copied d s n m a ≡ copied d s t m a
copied-length d s n t a m e = ap (λ k. copied d s k m a) e

copy_bytes-copied :
    (n d s : ℕ) (m : ℕ → ℕ) → Apart d s n → (a : ℕ) → copy_bytes n d s m a ≡ copied d s n m a
unfolding copy_bytes
copy_bytes-copied zero d s m apart a = sym (copied_outside d s 0 a m (ground arith))
copy_bytes-copied (suc n) d s m apart a =
    let apart' : Apart d s (1 + n) = subst (Apart d s) (omega arith) apart in
    copy_bytes-copied n (d + 1) (s + 1) (put m d (m s)) (Apart-behind d s 1 n apart') a
    ∙ copied-copied d s 1 n m (put m d (m s)) apart' (put-copied d s m) a
    ∙ copied-length d s (1 + n) (suc n) a m (omega arith)

-- What stands in the bytes of a word.
write32-at :
    (m : ℕ → ℕ) (d v i : ℕ)
    → ((i ≡ 0) → write32 m d v (d + i) ≡ v % 256)
      × ((i ≡ 1) → write32 m d v (d + i) ≡ v / 256 % 256)
      × ((i ≡ 2) → write32 m d v (d + i) ≡ v / 2 ^ 16 % 256)
      × ((i ≡ 3) → write32 m d v (d + i) ≡ v / 2 ^ 24 % 256)
write32-at m d v i =
    ((λ e. ground arith), (λ e. ground arith), (λ e. ground arith), (λ e. ground arith))

-- A word that is read and written is four bytes copied.
write32-copied :
    (d s : ℕ) (m : ℕ → ℕ)
    → ((b : ℕ) → m b < 256)
    → (a : ℕ) → write32 m d (read32 m s) a ≡ copied d s 4 m a
write32-copied d s m bytes a = elim (dec_lt a d) [
  | yes before ↦ ground arith ∙ sym (copied_outside d s 4 a m (inl before))
  | no up ↦ elim (dec_lt a (d + 4)) [
    | no behind ↦ ground arith ∙ sym (copied_outside d s 4 a m (inr (omega arith)))
    | yes here ↦
        let b₀ = bytes s in
        let b₁ = bytes (s + 1) in
        let b₂ = bytes (s + 2) in
        let b₃ = bytes (s + 3) in
        let digit₀ : read32 m s % 256 ≡ m s = omega arith in
        let digit₁ : read32 m s / 256 % 256 ≡ m (s + 1) = omega arith in
        let digit₂ : read32 m s / 2 ^ 16 % 256 ≡ m (s + 2) = omega arith in
        let digit₃ : read32 m s / 2 ^ 24 % 256 ≡ m (s + 3) = omega arith in
        let from : d + (a - d) ≡ a = omega arith in
        let (w₀, w₁, w₂, w₃) = write32-at m d (read32 m s) (a - d) in
        let there = ap (write32 m d (read32 m s)) (sym from) in
        there
        ∙ four (a - d) (omega arith) (λ e. w₀ e ∙ digit₀ ∙ ap m {x = s} (omega arith))
            (λ e. w₁ e ∙ digit₁ ∙ ap m {x = s + 1} (omega arith))
            (λ e. w₂ e ∙ digit₂ ∙ ap m {x = s + 2} (omega arith))
            (λ e. w₃ e ∙ digit₃ ∙ ap m {x = s + 3} (omega arith))
        ∙ sym (copied_inside d s 4 a m (omega arith) here)
  ]
]
  where
    four : {P : Type 0} (i : ℕ) → i < 4 → (i ≡ 0 → P) → (i ≡ 1 → P) → (i ≡ 2 → P) → (i ≡ 3 → P) → P
    four zero h p q r t = p refl
    four (suc zero) h p q r t = q refl
    four (suc (suc zero)) h p q r t = r refl
    four (suc (suc (suc zero))) h p q r t = t refl
    four (suc (suc (suc (suc i)))) h p q r t = absurd (omega arith)

write32-bytes : (m : ℕ → ℕ) (d v : ℕ) → ((b : ℕ) → m b < 256) → (a : ℕ) → write32 m d v a < 256
write32-bytes m d v bytes a = let own = bytes a in ground arith

copy_words-copied :
    (n d s : ℕ) (m : ℕ → ℕ)
    → ((b : ℕ) → m b < 256)
    → Apart d s (4 * n)
    → (a : ℕ) → copy_words n d s m a ≡ copied d s (4 * n) m a
unfolding copy_words
copy_words-copied zero d s m bytes apart a = sym (copied_outside d s (4 * 0) a m (ground arith))
copy_words-copied (suc n) d s m bytes apart a =
    let apart' : Apart d s (4 + 4 * n) = subst (Apart d s) (omega arith) apart in
    let m' : ℕ → ℕ = write32 m d (read32 m s) in
    copy_words-copied n (d + 4) (s + 4) m' (write32-bytes m d (read32 m s) bytes)
      (Apart-behind d s 4 (4 * n) apart') a
    ∙ copied-copied d s 4 (4 * n) m m' apart' (write32-copied d s m bytes) a
    ∙ copied-length d s (4 + 4 * n) (4 * suc n) a m (omega arith)

-- On two arrays of bytes without a byte in common, `memcpy` copies the source to the destination, whether it
-- goes by words or by bytes, and leaves the rest of the memory as it was.
pub memcpy-copied :
    (destination source length : ℕ) (m : ℕ → ℕ)
    → ((b : ℕ) → m b < 256)
    → Apart destination source length
    → (a : ℕ) → memcpy destination source length m a ≡ copied destination source length m a
unfolding memcpy
memcpy-copied d s n m bytes apart a =
    elim (Bool-cases ((d % 4 == 0) && ((s % 4 == 0) && (n % 4 == 0)))) [
      | inl e ↦
          let whole : 4 * (n / 4) ≡ n = ground (arith, e) in
          rw (e, memcpy)
            (copy_words-copied (n / 4) d s m bytes (subst (Apart d s) (sym whole) apart) a
              ∙ copied-length d s (4 * (n / 4)) n a m whole)
      | inr e ↦ rw (e, memcpy) (copy_bytes-copied n d s m apart a)
    ]

memset_loop-filled :
    (n dst chr : ℕ) (m : ℕ → ℕ) (a : ℕ)
    → memset_loop n dst chr m a ≡ (if leb dst a && ltb a (dst + n) then chr else m a)
unfolding memset_loop
memset_loop-filled zero dst chr m a = ground arith
memset_loop-filled (suc n) dst chr m a =
    memset_loop-filled n dst chr (put m (dst + n) chr) a ∙ ground arith

-- `memset` fills the array with the low byte of its argument and leaves the rest of the memory as it was.
pub memset-filled :
    (destination c length : ℕ) (m : ℕ → ℕ) (a : ℕ)
    → memset destination c length m a
      ≡ (if leb destination a && ltb a (destination + length) then c % 256 else m a)
unfolding memset
memset-filled destination c length m a = memset_loop-filled length destination (c % 256) m a
