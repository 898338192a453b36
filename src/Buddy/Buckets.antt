-- ===== src/Buddy/Buckets.antt =====
-- The search of buddy.c for a bucket with a free block.
use dog_os.Prelude.{
  ℕ, zero, suc, ◌+◌, ◌-◌, ◌≤◌, ◌<◌, ◌≡◌, inl, inr, refl, sym, ap, subst, true, false, arith, ltb,
  Bool-cases, if◌then◌else◌,
}
use native.Mathlib.Decide.{dec_lt}
use dog_os.Prelude.Int.{pos}
use dog_os.BuddyList.{list_is_empty}
use dog_os.Buddy.{Buddy, head, available_from, get_available_bucket}

-- The buckets from `i` on and before `j` are empty.
abbrev pub Empty : Buddy → ℕ → ℕ → Type 0
Empty h i j = (b : ℕ) → i ≤ b → b < j → list_is_empty (head h b) h.links ≡ true

-- The first bucket from `i` on that is not empty, or the end of the `n` buckets.
abbrev pub First : (n i j : ℕ) → Buddy → Type 0
First n i j h =
    (i ≤ j) × (j ≤ i + n) × Empty h i j × (j < i + n → list_is_empty (head h j) h.links ≡ false)

First-next :
    (n i j : ℕ) (h : Buddy)
    → list_is_empty (head h i) h.links ≡ true
    → First n (i + 1) j h
    → First (suc n) i j h
First-next n i j h e (low, high, empty, found) = (
  omega arith,
  omega arith,
  (λ b p q. elim (dec_lt i b) [
    | yes l ↦ empty b (omega arith) q
    | no m ↦
        let same : b ≡ i = omega arith in
        subst (λ c. list_is_empty (head h c) h.links ≡ true) (sym same) e
  ]),
  (λ l. found (omega arith)),
)

available_from-First : (n i : ℕ) (h : Buddy) → First n i (available_from n i h) h
unfolding available_from
available_from-First zero i h =
    (omega arith, omega arith, (λ b p q. absurd (omega arith)), (λ l. absurd (omega arith)))
available_from-First (suc n) i h = elim (Bool-cases (list_is_empty (head h i) h.links)) [
  | inl e ↦
      let next : available_from (suc n) i h ≡ available_from n (i + 1) h =
        ap (λ t. if t then available_from n (i + 1) h else i) e in
      subst (λ j. First (suc n) i j h) (sym next)
        (First-next n i (available_from n (i + 1) h) h e (available_from-First n (i + 1) h))
  | inr e ↦
      let here : available_from (suc n) i h ≡ i =
        ap (λ t. if t then available_from n (i + 1) h else i) e in
      subst (λ j. First (suc n) i j h) (sym here)
        (omega arith, omega arith, (λ b p q. absurd (omega arith)), (λ l. e))
]

-- With a bucket that is at most the number of buckets, `getAvailableBucket` returns the first one from there
-- on that is not empty, or the number of buckets when all of them are empty: it never returns -1.
pub get_available_bucket-First :
    (i : ℕ) (h : Buddy)
    → i ≤ h.buckets_amount
    → (j : ℕ) × (get_available_bucket i h ≡ pos j) × First (h.buckets_amount - i) i j h
unfolding get_available_bucket
get_available_bucket-First i h low =
    let first = available_from-First (h.buckets_amount - i) i h in
    let high : ltb h.buckets_amount (available_from (h.buckets_amount - i) i h) ≡ false =
      ground (arith, first.1) in
    (available_from (h.buckets_amount - i) i h, rw high refl, first)
