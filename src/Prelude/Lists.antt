-- ===== src/Prelude/Lists.antt =====
-- C arrays and linked lists as lists that are measured and indexed by native numbers.
use Prim.Native.Nat.{ℕ, zero, suc, ◌+◌, ◌<◌, ◌≤◌, min}
use mathlib.Core.Path.{◌≡◌, refl, sym, ap, ◌∙◌}
use mathlib.Core.Logic.{◌≢◌, ◌⊎◌, inl, inr}
use mathlib.Core.List.{List, [], ◌∷◌, ◌++◌, map}
use mathlib.Core.Option.{Option, none, some}
use native.Mathlib.Omega.{arith}

module _ {ℓ} {A : Type ℓ} where
  abbrev pub length : List A → ℕ
  length [] = 0
  length (x ∷ xs) = suc (length xs)

  abbrev pub get_elem? : List A → ℕ → Option A
  get_elem? [] i = none
  get_elem? (x ∷ xs) zero = some x
  get_elem? (x ∷ xs) (suc i) = get_elem? xs i

  abbrev pub get_or : List A → ℕ → A → A
  get_or [] i d = d
  get_or (x ∷ xs) zero d = x
  get_or (x ∷ xs) (suc i) d = get_or xs i d

  -- A write out of bounds changes nothing; the models test the index first.
  abbrev pub set : List A → ℕ → A → List A
  set [] i v = []
  set (x ∷ xs) zero v = v ∷ xs
  set (x ∷ xs) (suc i) v = x ∷ set xs i v

  abbrev pub take : ℕ → List A → List A
  take zero xs = []
  take (suc n) [] = []
  take (suc n) (x ∷ xs) = x ∷ take n xs

  abbrev pub drop : ℕ → List A → List A
  drop zero xs = xs
  drop (suc n) [] = []
  drop (suc n) (x ∷ xs) = drop n xs

  abbrev pub replicate : ℕ → A → List A
  replicate zero a = []
  replicate (suc n) a = a ∷ replicate n a

module _ {ℓ} {A : Type ℓ} where
  pub length-append : (xs ys : List A) → length (xs ++ ys) ≡ length xs + length ys
  length-append [] ys = omega arith
  length-append (x ∷ xs) ys = omega (arith, length-append xs ys)

  pub length-set : (xs : List A) (i : ℕ) (v : A) → length (set xs i v) ≡ length xs
  length-set [] i v = refl
  length-set (x ∷ xs) zero v = refl
  length-set (x ∷ xs) (suc i) v = ap suc (length-set xs i v)

  pub length-replicate : (n : ℕ) (a : A) → length (replicate n a) ≡ n
  length-replicate zero a = refl
  length-replicate (suc n) a = ap suc (length-replicate n a)

  pub length-take : (n : ℕ) (xs : List A) → length (take n xs) ≡ min n (length xs)
  length-take zero xs = omega arith
  length-take (suc n) [] = omega arith
  length-take (suc n) (x ∷ xs) = omega (arith, length-take n xs)

  pub take_all : (n : ℕ) (xs : List A) → length xs ≤ n → take n xs ≡ xs
  take_all zero [] h = refl
  take_all zero (x ∷ xs) h = absurd (omega arith)
  take_all (suc n) [] h = refl
  take_all (suc n) (x ∷ xs) h = ap (λ l. x ∷ l) (take_all n xs (omega arith))

  pub get_or-set_self :
      (xs : List A) (i : ℕ) (v d : A) → i < length xs → get_or (set xs i v) i d ≡ v
  get_or-set_self [] i v d h = absurd (omega arith)
  get_or-set_self (x ∷ xs) zero v d h = refl
  get_or-set_self (x ∷ xs) (suc i) v d h = get_or-set_self xs i v d (omega arith)

  pub get_or-set_ne :
      (xs : List A) (i j : ℕ) (v d : A) → i ≢ j → get_or (set xs i v) j d ≡ get_or xs j d
  get_or-set_ne [] i j v d h = refl
  get_or-set_ne (x ∷ xs) zero zero v d h = absurd (h refl)
  get_or-set_ne (x ∷ xs) zero (suc j) v d h = refl
  get_or-set_ne (x ∷ xs) (suc i) zero v d h = refl
  get_or-set_ne (x ∷ xs) (suc i) (suc j) v d h = get_or-set_ne xs i j v d (λ e. h (ap suc e))

  -- Writing at the end of a prefix extends the prefix by what is written.
  pub take-set :
      (n : ℕ) (xs : List A) (v : A)
      → n < length xs
      → take (suc n) (set xs n v) ≡ take n xs ++ (v ∷ [])
  take-set zero [] v h = absurd (omega arith)
  take-set zero (x ∷ xs) v h = refl
  take-set (suc n) [] v h = absurd (omega arith)
  take-set (suc n) (x ∷ xs) v h = ap (λ t. x ∷ t) (take-set n xs v (omega arith))

pub length-map {ℓ κ} :
    {A : Type ℓ} {B : Type κ} (f : A → B) (xs : List A) → length (map f xs) ≡ length xs
length-map f [] = refl
length-map f (x ∷ xs) = ap suc (length-map f xs)

infix 50 ◌∉◌
-- A number that is none of a list's.
abbrev pub ◌∉◌ : ℕ → List ℕ → Type 0
x ∉ [] = Unit
x ∉ (y ∷ ys) = (x ≢ y) × (x ∉ ys)

-- A number that is one of a list's.
infix 50 ◌∈◌
abbrev pub ◌∈◌ : ℕ → List ℕ → Type 0
x ∈ [] = ⊥
x ∈ (y ∷ ys) = (x ≡ y) ⊎ (x ∈ ys)

pub ne_of_mem : (x y : ℕ) (ys : List ℕ) → x ∈ ys → y ∉ ys → x ≢ y
ne_of_mem x y [] h k = elim h [ ]
ne_of_mem x y (z ∷ ys) (inl e) k = λ d. k.0 (sym d ∙ e)
ne_of_mem x y (z ∷ ys) (inr h) k = ne_of_mem x y ys h k.1

-- The numbers of a list are distinct.
abbrev pub Distinct : List ℕ → Type 0
Distinct [] = Unit
Distinct (x ∷ xs) = (x ∉ xs) × Distinct xs

pub not-mem-append : (x : ℕ) (xs ys : List ℕ) → x ∉ xs → x ∉ ys → x ∉ (xs ++ ys)
not-mem-append x [] ys h k = k
not-mem-append x (y ∷ xs) ys h k = (h.0, not-mem-append x xs ys h.1 k)

pub not-mem_left : (x : ℕ) (xs ys : List ℕ) → x ∉ (xs ++ ys) → x ∉ xs
not-mem_left x [] ys h = tt
not-mem_left x (y ∷ xs) ys h = (h.0, not-mem_left x xs ys h.1)

pub not-mem_right : (x : ℕ) (xs ys : List ℕ) → x ∉ (xs ++ ys) → x ∉ ys
not-mem_right x [] ys h = h
not-mem_right x (y ∷ xs) ys h = not-mem_right x xs ys h.1

pub Distinct-rotate : (x : ℕ) (xs : List ℕ) → x ∉ xs → Distinct xs → Distinct (xs ++ (x ∷ []))
Distinct-rotate x [] h d = (tt, tt)
Distinct-rotate x (y ∷ xs) h d =
    (not-mem-append y xs (x ∷ []) d.0 ((λ e. h.0 (sym e)), tt), Distinct-rotate x xs h.1 d.1)
