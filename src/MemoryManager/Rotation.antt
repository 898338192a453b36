-- ===== src/MemoryManager/Rotation.antt =====
-- The circle of free blocks of memoryManagement/memoryManager.c, read from any of its blocks on.
use dog_os.Prelude.{
  ℕ, ◌≡◌, inl, inr, refl, sym, subst, List, [], ◌∷◌, ◌++◌, arith, append_assoc, append-nil, length,
  length-append, ◌∈◌,
}
use dog_os.MemoryManager.{Heap}
use dog_os.MemoryManager.Circle.{Linked, units, units-append, Free, rotate, mem-rotate}

-- The circle of `a` and `bs` from its block `c` on.
pub record From (h : Heap) (c a : ℕ) (bs cs : List ℕ) : Type 0 where
  pub free : Free h c cs
  pub back : (x : ℕ) → x ∈ (c ∷ cs) → x ∈ (a ∷ bs)
  pub same_units : units h.size (c ∷ cs) ≡ units h.size (a ∷ bs)
  pub same_length : length cs ≡ length bs

rotate_along :
    (h : Heap) (c a : ℕ) (xs ys : List ℕ)
    → Free h a (xs ++ ys)
    → c ∈ (a ∷ xs)
    → (cs : List ℕ) × From h c a (xs ++ ys) cs
rotate_along h c a xs ys f (inl e) =
    (xs ++ ys, rw e (record { free = f; back = λ x k. k; same_units = refl; same_length = refl }))
rotate_along h c a [] ys f (inr k) = elim k [ ]
rotate_along h c a (x ∷ xs) ys f (inr k) =
    let turned : Free h x (xs ++ (ys ++ (a ∷ []))) =
      subst (λ zs. Free h x zs) (append_assoc xs ys (a ∷ [])) (rotate h a x (xs ++ ys) f) in
    let (cs, r) = rotate_along h c x xs (ys ++ (a ∷ [])) turned k in
    (
      cs,
      record {
        free = r.free;
        back = λ y m.
            mem-rotate a y (x ∷ (xs ++ ys))
              (subst (λ zs. y ∈ (x ∷ zs)) (sym (append_assoc xs ys (a ∷ []))) (r.back y m));
        same_units = omega (
          arith,
          r.same_units,
          units-append h.size xs (ys ++ (a ∷ [])),
          units-append h.size ys (a ∷ []),
          units-append h.size xs ys,
        );
        same_length = omega (
          arith,
          r.same_length,
          length-append xs (ys ++ (a ∷ [])),
          length-append ys (a ∷ []),
          length-append xs ys,
        );
      },
    )

-- A circle may be read from any of its blocks on.
pub rotate_to :
    (h : Heap) (c a : ℕ) (bs : List ℕ)
    → Free h a bs
    → c ∈ (a ∷ bs)
    → (cs : List ℕ) × From h c a bs cs
rotate_to h c a bs f k =
    subst (λ zs. (cs : List ℕ) × From h c a zs cs) (append-nil bs)
      (rotate_along h c a bs [] (subst (λ zs. Free h a zs) (sym (append-nil bs)) f) k)

first-mem : (p : ℕ → ℕ) (c : ℕ) (ds : List ℕ) → Linked p c ds c → p c ∈ (c ∷ ds)
first-mem p c [] l = inl l
first-mem p c (d ∷ ds) l = inr (inl l.0)

-- The links stay in the circle.
pub next-mem : (h : Heap) (c a : ℕ) (bs : List ℕ) → Free h a bs → c ∈ (a ∷ bs) → h.ptr c ∈ (a ∷ bs)
next-mem h c a bs f k =
    let (ds, r) = rotate_to h c a bs f k in r.back (h.ptr c) (first-mem h.ptr c ds r.free.linked)
