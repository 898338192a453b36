-- ===== src/MemoryManager/Insert.antt =====
-- Two steps on the circle of free blocks of memoryManagement/memoryManager.c: a block is linked in, and
-- a block takes up the next one.
use dog_os.Prelude.{
  ℕ, ◌+◌, ◌≤◌, ◌<◌, ◌≡◌, ◌≢◌, ◌⊎◌, inl, inr, ◌∙◌, refl, sym, ap, subst, List, [], ◌∷◌, arith, ◌∈◌,
  ◌∉◌, Distinct, ne_of_mem, put, put_self, put_ne,
}
use dog_os.MemoryManager.{Heap}
use dog_os.MemoryManager.Circle.{Linked, units, Disjoint, Free}
use dog_os.MemoryManager.Fit.{Linked-put, Linked-skip, units-put_ne}

-- A block of the heap that is apart from the free ones.
pub record Apart (h : Heap) (x a : ℕ) (bs : List ℕ) : Type 0 where
  pub some_units : 0 < h.size x
  pub inside : x + h.size x ≤ h.total_units
  pub out : x ∉ (a ∷ bs)
  pub apart : (b : ℕ) → b ∈ (a ∷ bs) → Disjoint x (h.size x) b (h.size b)

abbrev pub enlist : (x a : ℕ) → Heap → Heap
enlist x a h = record h { ptr = put (put h.ptr x (h.ptr a)) a x }

pub Disjoint-sym : (a m b n : ℕ) → Disjoint a m b n → Disjoint b n a m
Disjoint-sym a m b n (inl e) = inr e
Disjoint-sym a m b n (inr e) = inl e

enlist-Linked :
    (f : ℕ → ℕ) (x a : ℕ) (bs : List ℕ)
    → x ∉ (a ∷ bs)
    → Distinct (a ∷ bs)
    → Linked f a bs a
    → Linked (put (put f x (f a)) a x) a (x ∷ bs) a
enlist-Linked f x a [] (ne, out) d l =
    (put_self (put f x (f a)) a x, put_ne (put f x (f a)) a x x ne ∙ put_self f x (f a) ∙ l)
enlist-Linked f x a (b ∷ bs) (ne, out) (a_out, d) (e, l) = (
  put_self (put f x (f a)) a x,
  (
    put_ne (put f x (f a)) a x x ne ∙ put_self f x (f a) ∙ e,
    Linked-put (put f x (f a)) a x b a bs a_out (Linked-put f x (f a) b a bs out l),
  ),
)

new-or-mem : (b x a : ℕ) (bs : List ℕ) → b ∈ (a ∷ x ∷ bs) → (b ≡ x) ⊎ (b ∈ (a ∷ bs))
new-or-mem b x a bs (inl e) = inr (inl e)
new-or-mem b x a bs (inr (inl e)) = inl e
new-or-mem b x a bs (inr (inr k)) = inr (inr k)

Disjoint-at : (s : ℕ → ℕ) (x b c : ℕ) → b ≡ x → Disjoint x (s x) c (s c) → Disjoint b (s b) c (s c)
Disjoint-at s x b c e d = subst (λ y. Disjoint y (s y) c (s c)) (sym e) d

pub enlist-Free :
    (h : Heap) (x a : ℕ) (bs : List ℕ)
    → Free h a bs
    → Apart h x a bs
    → Free (enlist x a h) a (x ∷ bs)
enlist-Free h x a bs f new = record {
  linked = enlist-Linked h.ptr x a bs new.out f.distinct f.linked;
  distinct = (((λ e. new.out.0 (sym e)), f.distinct.0), (new.out.1, f.distinct.1));
  apart = λ b c hb hc ne. elim (new-or-mem b x a bs hb) [
    | inl e ↦ elim (new-or-mem c x a bs hc) [
      | inl d ↦ absurd (ne (e ∙ sym d))
      | inr k ↦ Disjoint-at h.size x b c e (new.apart c k)
    ]
    | inr j ↦ elim (new-or-mem c x a bs hc) [
      | inl d ↦ Disjoint-sym c (h.size c) b (h.size b) (Disjoint-at h.size x c b d (new.apart b j))
      | inr k ↦ f.apart b c j k ne
    ]
  ];
  inside = λ b hb. elim (new-or-mem b x a bs hb) [
    | inl e ↦
        let same : h.size b ≡ h.size x = ap h.size e in
        (omega (arith, new.some_units), omega (arith, new.inside))
    | inr j ↦ f.inside b j
  ];
}

-- The block `a` takes up the next one, `b`.
abbrev pub merged : (a b : ℕ) → Heap → Heap
merged a b h = record h { ptr = put h.ptr a (h.ptr b); size = put h.size a (h.size a + h.size b) }

module _ (h : Heap) (a b : ℕ) (bs : List ℕ) (f : Free h a (b ∷ bs))
    (beside : a + h.size a ≡ b) where
  merged_size : ℕ → ℕ
  merged_size = put h.size a (h.size a + h.size b)

  merged_other : (c : ℕ) → c ∈ bs → merged_size c ≡ h.size c
  unfolding merged_size
  merged_other c k = put_ne h.size a (h.size a + h.size b) c (ne_of_mem c a bs k f.distinct.0.1)

  merged_size_here : merged_size a ≡ h.size a + h.size b
  unfolding merged_size
  merged_size_here = put_self h.size a (h.size a + h.size b)

  merged-Disjoint : (c : ℕ) → c ∈ bs → Disjoint a (merged_size a) c (merged_size c)
  unfolding merged_size
  merged-Disjoint c k =
      let here = put_self h.size a (h.size a + h.size b) in
      let there = merged_other c k in
      let some_units = (f.inside c (inr (inr k))).0 in
      let behind =
        f.apart a c (inl refl) (inr (inr k)) (λ e. ne_of_mem c a bs k f.distinct.0.1 (sym e)) in
      let before =
        f.apart b c (inr (inl refl)) (inr (inr k))
          (λ e. ne_of_mem c b bs k f.distinct.1.0 (sym e)) in
      elim behind [
        | inr e ↦ inr (omega arith)
        | inl e ↦ elim before [ inl d ↦ inl (omega arith) | inr d ↦ absurd (omega arith) ]
      ]

  merged-apart :
      (c d : ℕ) → c ∈ (a ∷ bs) → d ∈ (a ∷ bs) → c ≢ d → Disjoint c (merged_size c) d (merged_size d)
  merged-apart c d (inl e) (inl k) ne = absurd (ne (e ∙ sym k))
  merged-apart c d (inl e) (inr k) ne = Disjoint-at merged_size a c d e (merged-Disjoint d k)
  merged-apart c d (inr j) (inl e) ne =
      Disjoint-sym d (merged_size d) c (merged_size c)
        (Disjoint-at merged_size a d c e (merged-Disjoint c j))
  merged-apart c d (inr j) (inr k) ne =
      rw (merged_other c j) (rw (merged_other d k) (f.apart c d (inr (inr j)) (inr (inr k)) ne))

  merged-inside : (c : ℕ) → c ∈ (a ∷ bs) → (0 < merged_size c) × (c + merged_size c ≤ h.total_units)
  merged-inside c (inl e) =
      let same : merged_size c ≡ merged_size a = ap merged_size e in
      let here : merged_size a ≡ h.size a + h.size b = merged_size_here in
      let first = f.inside a (inl refl) in
      let second = f.inside b (inr (inl refl)) in (omega (arith, first.0), omega (arith, second.1))
  merged-inside c (inr k) = rw (merged_other c k) (f.inside c (inr (inr k)))

  pub merged-Free : Free (merged a b h) a bs
  unfolding merged_size
  merged-Free = record {
    linked = Linked-skip h.ptr a b bs f.distinct.0.1 f.linked.1;
    distinct = (f.distinct.0.1, f.distinct.1.1);
    apart = merged-apart;
    inside = merged-inside;
  }

  pub merged-units : units (merged a b h).size (a ∷ bs) ≡ units h.size (a ∷ b ∷ bs)
  merged-units = omega (
    arith,
    put_self h.size a (h.size a + h.size b),
    units-put_ne h.size a (h.size a + h.size b) bs f.distinct.0.1,
  )
