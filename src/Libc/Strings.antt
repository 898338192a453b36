-- ===== src/Libc/Strings.antt =====
-- `strcmp` of libraries/libc.c and the order that it decides.
use dog_os.Prelude.{
  ℕ, zero, suc, ◌+◌, ◌%◌, ◌<◌, ◌≡◌, ◌≢◌, ◌↔◌, refl, subst, false, List, [], ◌∷◌, arith, ltb,
  if◌then◌else◌, Bool-cases, inl, inr,
}
use mathlib.Core.Path.{ap₂}
use dog_os.Prelude.Int.{ℤ, pos, negsuc, minus_one}

-- The place of a `char` in the order of the signed values: -128 comes first.
abbrev pub rank : ℕ → ℕ
rank c = (c + 128) % 256

unfoldable pub strcmp : List ℕ → List ℕ → ℤ
strcmp [] [] = pos 0
strcmp (a ∷ s) [] = pos 1
strcmp [] (b ∷ t) = minus_one
strcmp (a ∷ s) (b ∷ t) =
    let rest = strcmp s t in
    if ltb (rank a) (rank b) then minus_one else if ltb (rank b) (rank a) then pos 1 else rest

abbrev pub opposite : ℤ → ℤ
opposite (pos zero) = pos 0
opposite (pos (suc n)) = negsuc n
opposite (negsuc n) = pos (suc n)

-- Exchanging the strings turns the result around.
pub strcmp-opposite : (s t : List ℕ) → strcmp t s ≡ opposite (strcmp s t)
unfolding strcmp
strcmp-opposite [] [] = refl
strcmp-opposite (a ∷ s) [] = refl
strcmp-opposite [] (b ∷ t) = refl
strcmp-opposite (a ∷ s) (b ∷ t) = ground (arith, strcmp-opposite s t)

-- All characters are bytes.
abbrev pub AllBytes : List ℕ → Type 0
AllBytes [] = Unit
AllBytes (c ∷ s) = (c < 256) × AllBytes s

strcmp_self : (s : List ℕ) → strcmp s s ≡ pos 0
unfolding strcmp
strcmp_self [] = refl
strcmp_self (a ∷ s) = ground (arith, strcmp_self s)

same_rank :
    (a b : ℕ)
    → a < 256
    → b < 256
    → ltb (rank a) (rank b) ≡ false
    → ltb (rank b) (rank a) ≡ false
    → a ≡ b
same_rank a b ha hb h k = ground arith

equal_of_zero : (s t : List ℕ) → AllBytes s → AllBytes t → strcmp s t ≡ pos 0 → s ≡ t
unfolding strcmp
equal_of_zero [] [] bs bt h = refl
equal_of_zero (a ∷ s) [] bs bt h = absurd (ground (arith, h))
equal_of_zero [] (b ∷ t) bs bt h = absurd (ground (arith, h))
equal_of_zero (a ∷ s) (b ∷ t) (ha, bs) (hb, bt) h = elim (Bool-cases (ltb (rank a) (rank b))) [
  | inl e ↦ absurd (ground (arith, rw e at h))
  | inr e ↦ elim (Bool-cases (ltb (rank b) (rank a))) [
    | inl f ↦ absurd (ground (arith, rw f at (rw e at h)))
    | inr f ↦ ap₂ ◌∷◌ (same_rank a b ha hb e f) (equal_of_zero s t bs bt (rw f at (rw e at h)))
  ]
]

-- The result on strings of bytes is 0 for equal ones alone.
pub strcmp_zero : (s t : List ℕ) → AllBytes s → AllBytes t → (strcmp s t ≡ pos 0) ↔ (s ≡ t)
strcmp_zero s t bs bt =
    (equal_of_zero s t bs bt, λ e. subst (λ u. strcmp s u ≡ pos 0) e (strcmp_self s))

-- A string that is not after another, which is not after a third, is not after the third.
pub strcmp_trans : (s t u : List ℕ) → strcmp s t ≢ pos 1 → strcmp t u ≢ pos 1 → strcmp s u ≢ pos 1
unfolding strcmp
strcmp_trans [] t [] h k = ground arith
strcmp_trans [] t (c ∷ u) h k = ground arith
strcmp_trans (a ∷ s) [] u h k = absurd (h refl)
strcmp_trans (a ∷ s) (b ∷ t) [] h k = absurd (k refl)
strcmp_trans (a ∷ s) (b ∷ t) (c ∷ u) h k = ground (arith, strcmp_trans s t u)
