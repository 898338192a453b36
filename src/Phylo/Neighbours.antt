-- ===== src/Phylo/Neighbours.antt =====
-- The neighbours of programs/phylo.c around the table.
use dog_os.Prelude.{ℕ, ◌+◌, ◌-◌, ◌%◌, ◌<◌, ◌≤◌, ◌≡◌, ◌≢◌, ◌⊎◌, inl, inr, ◌∙◌, arith}
use native.Mathlib.Nat.{mod-eq_of_lt, mod-eq-sub-mod}
use native.Mathlib.Decide.{dec_lt}

-- The place behind `i`, around a table of `n`.
abbrev pub next : ℕ → ℕ → ℕ
next n i = (i + 1) % n

abbrev pub previous : ℕ → ℕ → ℕ
previous n i = (i + n - 1) % n

round : (n m : ℕ) → n ≤ m → m < n + n → m % n ≡ m - n
round n m h k = mod-eq-sub-mod {n = m} {m = n} h ∙ mod-eq_of_lt {n = m - n} {m = n} (omega arith)

pub next-cases :
    (n i : ℕ) → i < n → ((next n i ≡ i + 1) × (i + 1 < n)) ⊎ ((next n i ≡ 0) × (i + 1 ≡ n))
next-cases n i h = elim (dec_lt (i + 1) n) [
  | yes p ↦ inl (mod-eq_of_lt p, p)
  | no p ↦ inr (round n (i + 1) (omega arith) (omega arith) ∙ omega arith, omega arith)
]

pub previous-cases :
    (n i : ℕ) → i < n → ((previous n i + 1 ≡ i) × (0 < i)) ⊎ ((previous n i + 1 ≡ n) × (i ≡ 0))
previous-cases n i h = elim (dec_lt 0 i) [
  | yes p ↦ inl (omega (arith, round n (i + n - 1) (omega arith) (omega arith)), p)
  | no p ↦ inr (omega (arith, mod-eq_of_lt {n = i + n - 1} {m = n} (omega arith)), omega arith)
]

pub next-lt : (n i : ℕ) → i < n → next n i < n
next-lt n i h = elim (next-cases n i h) [
  | inl (e, p) ↦ omega (arith, e, p)
  | inr (e, p) ↦ omega (arith, e, p)
]

pub previous-lt : (n i : ℕ) → i < n → previous n i < n
previous-lt n i h = elim (previous-cases n i h) [
  | inl (e, p) ↦ omega (arith, e, p)
  | inr (e, p) ↦ omega (arith, e, p)
]

pub next-ne : (n i : ℕ) → i < n → 1 < n → next n i ≢ i
next-ne n i h k = elim (next-cases n i h) [
  | inl (e, p) ↦ omega (arith, e, p)
  | inr (e, p) ↦ omega (arith, e, p)
]

-- Going on and back.
pub previous-next : (n i : ℕ) → i < n → previous n (next n i) ≡ i
previous-next n i h = elim (next-cases n i h) [
  | inl (e, p) ↦ elim (previous-cases n (next n i) (next-lt n i h)) [
    | inl (f, q) ↦ omega (arith, e, p, f, q)
    | inr (f, q) ↦ omega (arith, e, p, f, q)
  ]
  | inr (e, p) ↦ elim (previous-cases n (next n i) (next-lt n i h)) [
    | inl (f, q) ↦ omega (arith, e, p, f, q)
    | inr (f, q) ↦ omega (arith, e, p, f, q)
  ]
]
