-- ===== src/MemoryManager/Frame.antt =====
-- What `malloc` of memoryManagement/memoryManager.c leaves as it was.
use dog_os.Prelude.{
  ℕ, zero, suc, ◌+◌, ◌-◌, ◌≤◌, ◌<◌, ◌≡◌, ◌⊎◌, inl, inr, refl, subst, true, false, Option, none,
  some, List, ◌∷◌, arith, leb, ◌==◌, if◌then◌else◌, Bool-cases, ◌∈◌, put,
}
use mathlib.Core.Option.{some_inj, none-ne-some}
use dog_os.MemoryManager.{Heap, fit, scan}
use dog_os.MemoryManager.Circle.{Free}
use dog_os.MemoryManager.Fit.{split_size, smaller}
use dog_os.MemoryManager.Rotation.{next-mem}

-- The block of `n` units at `d` is part of one of the blocks.
abbrev pub Within : (ℕ → ℕ) → List ℕ → (d n : ℕ) → Type 0
Within size bs d n = (b : ℕ) × (b ∈ bs) × (b ≤ d) × (d + n ≤ b + size b)

-- The links stay among the blocks, none of which grows, and sizes change nowhere but inside them.
pub record Kept (h' h : Heap) (bs : List ℕ) : Type 0 where
  pub first : h'.free_node ∈ bs
  pub next : (b : ℕ) → b ∈ bs → h'.ptr b ∈ bs
  pub smaller : (b : ℕ) → b ∈ bs → h'.size b ≤ h.size b
  pub other : (y : ℕ) → ((b : ℕ) → b ∈ bs → (y < b) ⊎ (b + h.size b ≤ y)) → h'.size y ≡ h.size y
  pub total : h'.total_units ≡ h.total_units
  pub base : h'.base ≡ h.base

-- What was handed out is part of a block.
abbrev pub Handed : (n : ℕ) → Heap → List ℕ → Option ℕ → Type 0
Handed n h bs none = Unit
Handed n h bs (some d) = Within h.size bs d n

abbrev Frame : (n : ℕ) (h : Heap) (bs : List ℕ) → Option ℕ × Heap → Type 0
Frame n h bs (r, h') = Kept h' h bs × Handed n h bs r

pub put_mem : (g : ℕ → ℕ) (p v b : ℕ) (bs : List ℕ) → v ∈ bs → g b ∈ bs → put g p v b ∈ bs
put_mem g p v b bs hv hb = elim (b == p) as (λ t. (if t then v else g b) ∈ bs) [
  | true ↦ hv
  | false ↦ hb
]

module _ (h : Heap) (a : ℕ) (bs : List ℕ) (f : Free h a bs) (n : ℕ) (pos : 0 < n) where
  whole-Kept :
      (p c : ℕ)
      → p ∈ (a ∷ bs)
      → c ∈ (a ∷ bs)
      → Kept (record h { ptr = put h.ptr p (h.ptr c); free_node = p }) h (a ∷ bs)
  whole-Kept p c hp hc = record {
    first = hp;
    next = λ b hb.
        put_mem h.ptr p (h.ptr c) b (a ∷ bs) (next-mem h c a bs f hc) (next-mem h b a bs f hb);
    smaller = λ b hb. omega arith;
    other = λ y out. refl;
    total = refl;
    base = refl;
  }

  split-Kept :
      (p c : ℕ)
      → p ∈ (a ∷ bs)
      → c ∈ (a ∷ bs)
      → n < h.size c
      → Kept (record h { size = split_size h c n; free_node = p }) h (a ∷ bs)
  split-Kept p c hp hc small = record {
    first = hp;
    next = λ b hb. next-mem h b a bs f hb;
    smaller = λ b hb. (smaller h p a c n bs f hc small pos b hb).1;
    other = λ y out. elim (out c hc) [ inl l ↦ ground arith | inr r ↦ ground arith ];
    total = refl;
    base = refl;
  }

  none-Kept : h.free_node ∈ (a ∷ bs) → Kept h h (a ∷ bs)
  none-Kept hf = record {
    first = hf;
    next = λ b hb. next-mem h b a bs f hb;
    smaller = λ b hb. omega arith;
    other = λ y out. refl;
    total = refl;
    base = refl;
  }

  fit-Frame :
      (p c : ℕ) → p ∈ (a ∷ bs) → c ∈ (a ∷ bs) → n ≤ h.size c → Frame n h (a ∷ bs) (fit n p c h)
  unfolding fit
  fit-Frame p c hp hc large = elim (Bool-cases (h.size c == n)) [
    | inl e ↦ elim (Bool-cases (c == p)) [
      | inl d ↦ rw (e, fit) (rw (d, fit) (whole-Kept p c hp hc, tt))
      | inr d ↦ rw (e, fit) (rw (d, fit) (whole-Kept p c hp hc, (c, hc, omega arith, omega arith)))
    ]
    | inr e ↦
        let small : n < h.size c = ground (arith, e) in
        elim (Bool-cases (c + (h.size c - n) == p)) [
          | inl d ↦ rw (e, fit) (rw (d, fit) (split-Kept p c hp hc small, tt))
          | inr d ↦
              rw (e, fit)
                (rw (d, fit) (split-Kept p c hp hc small, (c, hc, omega arith, omega arith)))
        ]
  ]

  pub scan-Frame :
      (fuel p c : ℕ) (r : Option ℕ × Heap)
      → h.free_node ∈ (a ∷ bs)
      → p ∈ (a ∷ bs)
      → c ∈ (a ∷ bs)
      → scan fuel n p c h ≡ some r
      → Frame n h (a ∷ bs) r
  unfolding scan
  scan-Frame zero p c r hf hp hc done = absurd (none-ne-some r done)
  scan-Frame (suc fuel) p c r hf hp hc done = elim (Bool-cases (leb n (h.size c))) [
    | inl e ↦
        subst (Frame n h (a ∷ bs)) (some_inj.0 (rw (e, scan) at done))
          (fit-Frame p c hp hc (ground (arith, e)))
    | inr e ↦ elim (Bool-cases (c == h.free_node)) [
      | inl d ↦
          subst (Frame n h (a ∷ bs)) (some_inj.0 (rw (d, scan) at (rw (e, scan) at done)))
            (none-Kept hf, tt)
      | inr d ↦
          scan-Frame fuel c (h.ptr c) r hf hc (next-mem h c a bs f hc)
            (rw (d, scan) at (rw (e, scan) at done))
    ]
  ]
