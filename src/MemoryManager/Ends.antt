-- ===== src/MemoryManager/Ends.antt =====
-- How the loop of `malloc` of memoryManagement/memoryManager.c may end.
use dog_os.Prelude.{
  ℕ, suc, ◌+◌, ◌-◌, ◌≤◌, ◌<◌, ◌≡◌, inl, inr, ◌∙◌, refl, sym, ap, subst, true, false, Option, none,
  some, List, [], ◌∷◌, arith, leb, ◌==◌, ◌∈◌, put, put_self,
}
use native.Mathlib.Decide.{dec_lt}
use dog_os.MemoryManager.{Heap, fit, scan}
use dog_os.MemoryManager.Circle.{units, Free}
use dog_os.MemoryManager.Fit.{Taken, fit-split}

-- What the loop may end with, when the free blocks had `u` units: a block of `n` units apart from the
-- free ones, which have the others; or no block, with all units left, and none of the free blocks
-- larger than `n`.
abbrev pub Outcome : (n u : ℕ) → Option ℕ × Heap → Type 0
Outcome n u (some c, h) =
    (bs : List ℕ) × Free h h.free_node bs
    × Taken h c n h.free_node bs
    × (units h.size (h.free_node ∷ bs) + n ≡ u)
Outcome n u (none, h) =
    (bs : List ℕ) × Free h h.free_node bs
    × (units h.size (h.free_node ∷ bs) ≡ u)
    × ((b : ℕ) → b ∈ (h.free_node ∷ bs) → h.size b ≤ n)

-- The loop ends so.
abbrev pub Ends : ℕ → (n p c u : ℕ) → Heap → Type 0
Ends fuel n p c u h = (r : Option ℕ × Heap) × (scan fuel n p c h ≡ some r) × Outcome n u r

pub split-Ends :
    (fuel n p c a : ℕ) (bs : List ℕ) (h : Heap)
    → Free h a bs
    → c ∈ (a ∷ bs)
    → p ∈ (a ∷ bs)
    → a ≡ p
    → n < h.size c
    → 0 < n
    → Ends (suc fuel) n p c (units h.size (a ∷ bs)) h
unfolding scan
split-Ends fuel n p c a bs h f m hp same small pos =
    let (h', done, start, f', taken, sum) = fit-split h p a c n bs f m small pos hp in
    let large : leb n (h.size c) ≡ true = ground arith in
    let from : a ≡ h'.free_node = same ∙ sym start in
    (
      (some (c + (h.size c - n)), h'),
      rw (large, scan) (ap some done),
      (
        bs,
        subst (λ x. Free h' x bs) from f',
        subst (λ x. Taken h' (c + (h.size c - n)) n x bs) from taken,
        subst (λ x. units h'.size (x ∷ bs) + n ≡ units h.size (a ∷ bs)) from sum,
      ),
    )

-- A circle of one block, which is never handed out whole.
pub single-Ends :
    (fuel n p : ℕ) (h : Heap)
    → Free h p []
    → h.free_node ≡ p
    → 0 < n
    → Ends (suc fuel) n p p (units h.size (p ∷ [])) h
unfolding scan fit
single-Ends fuel n p h f start pos = elim (dec_lt n (h.size p)) [
  | yes small ↦ split-Ends fuel n p p p [] h f (inl refl) (inl refl) refl small pos
  | no big ↦ elim (dec_lt (h.size p) n) [
    | yes short ↦
        let other : leb n (h.size p) ≡ false = ground arith in
        let last : (p == h.free_node) ≡ true = ground (arith, start) in
        (
          (none, h),
          rw (other, scan) (rw (last, scan) refl),
          (
            [],
            subst (λ x. Free h x []) (sym start) f,
            subst (λ x. units h.size (x ∷ []) ≡ units h.size (p ∷ [])) (sym start) refl,
            λ b hb. elim hb [
              | inl e ↦ let size : h.size b ≡ h.size p = ap h.size (e ∙ start) in omega arith
              | inr k ↦ elim k [ ]
            ],
          ),
        )
    | no same ↦
        let size : h.size p ≡ n = omega arith in
        let large : leb n (h.size p) ≡ true = ground arith in
        let exact : (h.size p == n) ≡ true = ground arith in
        let alone : (p == p) ≡ true = ground arith in
        (
          (none, record h { ptr = put h.ptr p (h.ptr p); free_node = p }),
          rw (large, scan) (rw (exact, fit) (rw (alone, fit) refl)),
          (
            [],
            record {
              linked = put_self h.ptr p (h.ptr p) ∙ f.linked;
              distinct = f.distinct;
              apart = f.apart;
              inside = f.inside;
            },
            refl,
            λ b hb. elim hb [
              | inl e ↦ let size' : h.size b ≡ h.size p = ap h.size e in omega arith
              | inr k ↦ elim k [ ]
            ],
          ),
        )
  ]
]
