-- ===== src/MemoryManager/Walk.antt =====
-- The loop of `free` of memoryManagement/memoryManager.c finds a place in every circle.
use dog_os.Prelude.{
  ℕ, zero, suc, ◌≤◌, ◌<◌, ◌≡◌, ◌≢◌, ◌⊎◌, inl, inr, ◌∙◌, refl, subst, false, ◌&&◌, ◌||◌, some, List,
  [], ◌∷◌, arith, ltb, leb, ◌==◌, length, Bool-cases, ◌∈◌, ◌∉◌,
}
use native.Mathlib.Decide.{dec_lt}
use dog_os.MemoryManager.{Heap, Place, between, outside, already, find_place}
use dog_os.MemoryManager.Circle.{Linked, Free}

-- A place beside a free block: between it and the next one, or behind the last and in front of the
-- first.
abbrev pub Fits : Heap → ℕ → List ℕ → Place → Type 0
Fits h x bs (between c) = (c ∈ bs) × (c < x) × (x < h.ptr c)
Fits h x bs (outside c) = c ∈ bs
Fits h x bs already = ⊥

-- The loop goes on from `c`: on the way up past the place, or on the way down over it.
abbrev Passes : (x c d : ℕ) → Type 0
Passes x c d = ((c < d) × ((x < c) ⊎ (d < x))) ⊎ ((d ≤ c) × (d < x) × (x < c))

passes :
    (x c d : ℕ)
    → x ≢ c
    → x ≢ d
    → (ltb c x && ltb x d) ≡ false
    → (leb d c && (ltb c x || ltb x d)) ≡ false
    → Passes x c d
passes x c d ne ne' e f = elim (dec_lt c d) [
  | yes up ↦ elim (dec_lt x c) [
    | yes l ↦ inl (up, inl l)
    | no r ↦ inl (up, inr (ground (arith, e)))
  ]
  | no down ↦ inr (omega arith, ground (arith, f), ground (arith, f))
]

-- One round of the loop, at a block `c` in front of `d`.
find_place-step :
    (fuel x c : ℕ) (h : Heap)
    → x ≢ c
    → x ≢ h.ptr c
    → ((p : Place) × (find_place (suc fuel) x c h ≡ some p) × Fits h x (c ∷ []) p)
      ⊎ (Passes x c (h.ptr c) × (find_place (suc fuel) x c h ≡ find_place fuel x (h.ptr c) h))
unfolding find_place
find_place-step fuel x c h ne ne' = elim (Bool-cases (ltb c x && ltb x (h.ptr c))) [
  | inl e ↦
      inl (between c, rw (e, find_place) refl, (inl refl, ground (arith, e), ground (arith, e)))
  | inr e ↦
      let free_one : ((x == c) || (x == h.ptr c)) ≡ false = ground (arith, ne, ne') in
      elim (Bool-cases (leb (h.ptr c) c && (ltb c x || ltb x (h.ptr c)))) [
        | inl f ↦ inl (
          outside c,
          rw (e, find_place) (rw (free_one, find_place) (rw (f, find_place) refl)),
          inl refl,
        )
        | inr f ↦ inr (
          passes x c (h.ptr c) ne ne' e f,
          rw (e, find_place) (rw (free_one, find_place) (rw (f, find_place) refl)),
        )
      ]
]

-- What holds of the ends of a way on which the loop goes on.
abbrev Ahead : (x a z : ℕ) → Type 0
Ahead x a z = ((x < a) × (x < z) × (a < z)) ⊎ (((x < a) × (z < x)) ⊎ ((a < x) × (z < x) × (a < z)))

Passes-Ahead : (x a z : ℕ) → Passes x a z → Ahead x a z
Passes-Ahead x a z (inl (up, inl l)) = inl (l, omega arith, up)
Passes-Ahead x a z (inl (up, inr r)) = inr (inr (omega arith, r, up))
Passes-Ahead x a z (inr (down, l, r)) = inr (inl (r, l))

Ahead-Passes : (x a b z : ℕ) → Passes x a b → Ahead x b z → Ahead x a z
Ahead-Passes x a b z (inl (up, inl l)) (inl (p, q, r)) = inl (l, q, omega arith)
Ahead-Passes x a b z (inl (up, inl l)) (inr (inl (p, q))) = inr (inl (l, q))
Ahead-Passes x a b z (inl (up, inl l)) (inr (inr (p, q, r))) = absurd (omega arith)
Ahead-Passes x a b z (inl (up, inr l)) (inl (p, q, r)) = absurd (omega arith)
Ahead-Passes x a b z (inl (up, inr l)) (inr (inl (p, q))) = absurd (omega arith)
Ahead-Passes x a b z (inl (up, inr l)) (inr (inr (p, q, r))) =
    inr (inr (omega arith, q, omega arith))
Ahead-Passes x a b z (inr (down, l, k)) (inl (p, q, r)) = absurd (omega arith)
Ahead-Passes x a b z (inr (down, l, k)) (inr (inl (p, q))) = absurd (omega arith)
Ahead-Passes x a b z (inr (down, l, k)) (inr (inr (p, q, r))) = inr (inl (k, q))

Fits-mem :
    (h : Heap) (x a : ℕ) (bs : List ℕ) (p : Place) → Fits h x (a ∷ []) p → Fits h x (a ∷ bs) p
Fits-mem h x a bs (between c) (inl e, l, r) = (inl e, l, r)
Fits-mem h x a bs (between c) (inr k, l, r) = elim k [ ]
Fits-mem h x a bs (outside c) (inl e) = inl e
Fits-mem h x a bs (outside c) (inr k) = elim k [ ]
Fits-mem h x a bs already k = k

Fits-cons : (h : Heap) (x a : ℕ) (bs : List ℕ) (p : Place) → Fits h x bs p → Fits h x (a ∷ bs) p
Fits-cons h x a bs (between c) (k, l, r) = (inr k, l, r)
Fits-cons h x a bs (outside c) k = inr k
Fits-cons h x a bs already k = k

-- Along the links the loop finds a place, or passes on to the end.
find_place-Linked :
    (fuel x a z : ℕ) (bs : List ℕ) (h : Heap)
    → Linked h.ptr a bs z
    → x ∉ (a ∷ bs)
    → x ≢ z
    → length bs < fuel
    → ((p : Place) × (find_place fuel x a h ≡ some p) × Fits h x (a ∷ bs) p) ⊎ Ahead x a z
find_place-Linked zero x a z bs h l out ne enough = absurd (omega arith)
find_place-Linked (suc fuel) x a z [] h l (first, out) ne enough =
    elim (find_place-step fuel x a h first (rw l ne)) [
      | inl found ↦ inl found
      | inr (over, on) ↦ inr (subst (Ahead x a) l (Passes-Ahead x a (h.ptr a) over))
    ]
find_place-Linked (suc fuel) x a z (b ∷ bs) h (e, l) (first, out) ne enough =
    elim (find_place-step fuel x a h first (rw e out.0)) [
      | inl (p, found, fits) ↦ inl (p, found, Fits-mem h x a (b ∷ bs) p fits)
      | inr (over, on) ↦ elim (find_place-Linked fuel x b z bs h l out ne (omega arith)) [
        | inl (p, found, fits) ↦ inl (p, on ∙ rw e found, Fits-cons h x a (b ∷ bs) p fits)
        | inr rest ↦ inr (Ahead-Passes x a b z (subst (Passes x a) e over) rest)
      ]
    ]

-- On a circle of free blocks it finds one in one round at most.
pub find_place-Free :
    (fuel x a : ℕ) (bs : List ℕ) (h : Heap)
    → Free h a bs
    → x ∉ (a ∷ bs)
    → length bs < fuel
    → (p : Place) × (find_place fuel x a h ≡ some p) × Fits h x (a ∷ bs) p
find_place-Free fuel x a bs h f out enough =
    elim (find_place-Linked fuel x a a bs h f.linked out out.0 enough) [
      | inl found ↦ found
      | inr (inl (p, q, r)) ↦ absurd (omega arith)
      | inr (inr (inl (p, q))) ↦ absurd (omega arith)
      | inr (inr (inr (p, q, r))) ↦ absurd (omega arith)
    ]
