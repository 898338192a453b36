-- ===== src/Modules/Bytes.antt =====
-- Files in memory: which bytes stand where, and what copying one of them keeps.
use dog_os.Prelude.{
  ℕ, suc, ◌+◌, ◌-◌, ◌^◌, ◌<◌, ◌≤◌, ◌≡◌, refl, ap, ◌∙◌, ◌⊎◌, true, false, List, [], ◌∷◌, ◌++◌, ltb,
  leb, ◌&&◌, length, arith,
}
use dog_os.Memory.{read32, memcpy}
use dog_os.Memory.Copies.{Apart, memcpy-copied}
use dog_os.Modules.Packer.{bytes32}

-- The bytes stand in memory from an address on.
abbrev pub Holds : (ℕ → ℕ) → ℕ → List ℕ → Type 0
Holds m a [] = Unit
Holds m a (b ∷ bs) = (m a ≡ b) × Holds m (a + 1) bs

-- `n` bytes from `a` on, and `k` bytes from `b` on, have none in common.
abbrev pub Disjoint : (a n b k : ℕ) → Type 0
Disjoint a n b k = (a + n ≤ b) ⊎ (b + k ≤ a)

abbrev pub AreBytes : (ℕ → ℕ) → Type 0
AreBytes m = (a : ℕ) → m a < 256

Holds-at : (m : ℕ → ℕ) (a b : ℕ) (bs : List ℕ) → a ≡ b → Holds m a bs → Holds m b bs
Holds-at m a b bs e h = rw (← e) h

-- What stands in one memory stands in another one that has the same bytes, there or somewhere else.
pub Holds-moved :
    (m n : ℕ → ℕ) (a b : ℕ) (bs : List ℕ)
    → ((i : ℕ) → i < length bs → n (b + i) ≡ m (a + i))
    → Holds m a bs
    → Holds n b bs
Holds-moved m n a b [] same h = tt
Holds-moved m n a b (x ∷ bs) same h = (
  ap n (omega arith) ∙ same 0 (omega arith) ∙ ap m (omega arith) ∙ h.0,
  Holds-moved m n (a + 1) (b + 1) bs
      (λ i small. ap n (omega arith) ∙ same (suc i) (omega arith) ∙ ap m (omega arith)) h.1,
)

pub Holds-append :
    (m : ℕ → ℕ) (a : ℕ) (xs ys : List ℕ)
    → Holds m a (xs ++ ys)
    → Holds m a xs × Holds m (a + length xs) ys
Holds-append m a [] ys h = (tt, Holds-at m a (a + 0) ys (omega arith) h)
Holds-append m a (x ∷ xs) ys h =
    let (front, back) = Holds-append m (a + 1) xs ys h.1 in
    ((h.0, front), Holds-at m (a + 1 + length xs) (a + suc (length xs)) ys (omega arith) back)

-- A number that was written lowest byte first is read.
pub read32-bytes32 : (m : ℕ → ℕ) (a v : ℕ) → v < 2 ^ 32 → Holds m a (bytes32 v) → read32 m a ≡ v
read32-bytes32 m a v small h =
    let b₀ = h.0 in
    let b₁ = h.1.0 in
    let b₂ = ap m {x = a + 2} (omega arith) ∙ h.1.1.0 in
    let b₃ = ap m {x = a + 3} (omega arith) ∙ h.1.1.1.0 in omega (arith, b₀, b₁, b₂, b₃)

-- A copy of a file that stands apart from it.
module _ (target source : ℕ) (m : ℕ → ℕ) (bytes : AreBytes m) where
  pub memcpy-outside :
      (n : ℕ)
      → Apart target source n
      → (a : ℕ) → (a < target) ⊎ (target + n ≤ a)
      → memcpy target source n m a ≡ m a
  memcpy-outside n apart a out =
      let outside : (leb target a && ltb a (target + n)) ≡ false = ground arith in
      memcpy-copied target source n m bytes apart a ∙ rw outside refl

  pub memcpy-inside :
      (n : ℕ)
      → Apart target source n
      → (i : ℕ) → i < n
      → memcpy target source n m (target + i) ≡ m (source + i)
  memcpy-inside n apart i small =
      let inside : (leb target (target + i) && ltb (target + i) (target + n)) ≡ true =
        ground arith in
      memcpy-copied target source n m bytes apart (target + i) ∙ rw inside (ap m (omega arith))

  pub memcpy-Holds :
      (bs : List ℕ)
      → Apart target source (length bs)
      → Holds m source bs
      → Holds (memcpy target source (length bs) m) target bs
  memcpy-Holds bs apart h =
      Holds-moved m (memcpy target source (length bs) m) source target bs
        (memcpy-inside (length bs) apart) h

  pub memcpy-AreBytes : (n : ℕ) → Apart target source n → AreBytes (memcpy target source n m)
  memcpy-AreBytes n apart a =
      let there = bytes (source + (a - target)) in
      let here = bytes a in rw (memcpy-copied target source n m bytes apart a) (ground arith)
