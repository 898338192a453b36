-- ===== src/MemoryManager/Circle.antt =====
-- The circular list of free blocks of memoryManagement/memoryManager.c.
use dog_os.Prelude.{
  ℕ, ◌+◌, ◌≤◌, ◌<◌, ◌≡◌, ◌≢◌, ◌⊎◌, inl, inr, List, [], ◌∷◌, ◌++◌, arith, ◌∈◌, Distinct,
  Distinct-rotate,
}
use dog_os.MemoryManager.{Heap}

-- The links lead from `a` along the list to `z`.
abbrev pub Linked : (ℕ → ℕ) → ℕ → List ℕ → ℕ → Type 0
Linked p a [] z = p a ≡ z
Linked p a (b ∷ bs) z = (p a ≡ b) × Linked p b bs z

-- The units of the blocks of a list.
abbrev pub units : (ℕ → ℕ) → List ℕ → ℕ
units size [] = 0
units size (a ∷ as') = size a + units size as'

-- Two blocks have no unit in common.
abbrev pub Disjoint : (a m b n : ℕ) → Type 0
Disjoint a m b n = (a + m ≤ b) ⊎ (b + n ≤ a)

-- The free blocks, in the order of the links from `a` on: all different, apart from one another, inside
-- the heap, none empty.
pub record Free (h : Heap) (a : ℕ) (bs : List ℕ) : Type 0 where
  pub linked : Linked h.ptr a bs a
  pub distinct : Distinct (a ∷ bs)
  pub apart : (b c : ℕ) → b ∈ (a ∷ bs) → c ∈ (a ∷ bs) → b ≢ c → Disjoint b (h.size b) c (h.size c)
  pub inside : (b : ℕ) → b ∈ (a ∷ bs) → (0 < h.size b) × (b + h.size b ≤ h.total_units)

pub Linked-append :
    (p : ℕ → ℕ) (a b z : ℕ) (xs ys : List ℕ)
    → Linked p a xs b
    → Linked p b ys z
    → Linked p a (xs ++ (b ∷ ys)) z
Linked-append p a b z [] ys l r = (l, r)
Linked-append p a b z (x ∷ xs) ys (e, l) r = (e, Linked-append p x b z xs ys l r)

pub units-append :
    (size : ℕ → ℕ) (xs ys : List ℕ) → units size (xs ++ ys) ≡ units size xs + units size ys
units-append size [] ys = omega arith
units-append size (x ∷ xs) ys = omega (arith, units-append size xs ys)

pub mem-rotate : (a b : ℕ) (bs : List ℕ) → b ∈ (bs ++ (a ∷ [])) → b ∈ (a ∷ bs)
mem-rotate a b [] h = h
mem-rotate a b (c ∷ bs) (inl e) = inr (inl e)
mem-rotate a b (c ∷ bs) (inr h) = elim (mem-rotate a b bs h) [ inl e ↦ inl e | inr k ↦ inr (inr k) ]

-- The same circle, from the next block on.
pub rotate : (h : Heap) (a b : ℕ) (bs : List ℕ) → Free h a (b ∷ bs) → Free h b (bs ++ (a ∷ []))
rotate h a b bs f =
    let back : (c : ℕ) → c ∈ (b ∷ (bs ++ (a ∷ []))) → c ∈ (a ∷ b ∷ bs) =
      λ c k. mem-rotate a c (b ∷ bs) k in
    record {
      linked = Linked-append h.ptr b a b bs [] f.linked.1 f.linked.0;
      distinct = Distinct-rotate a (b ∷ bs) f.distinct.0 f.distinct.1;
      apart = λ c d hc hd ne. f.apart c d (back c hc) (back d hd) ne;
      inside = λ c hc. f.inside c (back c hc);
    }
