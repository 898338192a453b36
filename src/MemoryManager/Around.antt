-- ===== src/MemoryManager/Around.antt =====
-- What `free` of memoryManagement/memoryManager.c leaves as it was.
use dog_os.Prelude.{
  ℕ, ◌+◌, ◌<◌, ◌≡◌, ◌≢◌, inl, inr, ◌∙◌, refl, sym, ap, subst, List, ◌∷◌, arith, ◌==◌, Bool-cases,
  ◌∈◌, ◌∉◌, ne_of_mem, put, put_self,
}
use dog_os.MemoryManager.{Heap, insert_block}
use dog_os.MemoryManager.Circle.{Disjoint, Free}
use dog_os.MemoryManager.Insert.{Apart}
use dog_os.MemoryManager.Rotation.{next-mem}
use dog_os.MemoryManager.Frame.{put_mem}

-- The links stay among the blocks and `x`, other sizes are as before, and what is apart from all of
-- them stays so.
pub record Around (h' h : Heap) (x : ℕ) (bs : List ℕ) : Type 0 where
  pub first : h'.free_node ∈ (x ∷ bs)
  pub next : (b : ℕ) → b ∈ (x ∷ bs) → h'.ptr b ∈ (x ∷ bs)
  pub apart :
      (y n : ℕ)
      → 0 < n
      → Disjoint y n x (h.size x)
      → ((b : ℕ) → b ∈ bs → Disjoint y n b (h.size b))
      → (b : ℕ) → b ∈ (x ∷ bs)
      → Disjoint y n b (h'.size b)
  pub other : (y : ℕ) → y ∉ (x ∷ bs) → h'.size y ≡ h.size y
  pub total : h'.total_units ≡ h.total_units
  pub base : h'.base ≡ h.base

module _ (h : Heap) (x a c : ℕ) (bs : List ℕ) (f : Free h c bs) (m : a ∈ (c ∷ bs))
    (new : Apart h x c bs) where
  apart-of :
      (y n : ℕ)
      → Disjoint y n x (h.size x)
      → ((b : ℕ) → b ∈ (c ∷ bs) → Disjoint y n b (h.size b))
      → (b : ℕ) → b ∈ (x ∷ c ∷ bs)
      → Disjoint y n b (h.size b)
  apart-of y n dx ds b (inl e) = subst (λ z. Disjoint y n z (h.size z)) (sym e) dx
  apart-of y n dx ds b (inr k) = ds b k

  next-in : (b : ℕ) → b ∈ (c ∷ bs) → h.ptr b ∈ (x ∷ c ∷ bs)
  next-in b hb = inr (next-mem h b c bs f hb)

  apart-ne : x ≢ a
  apart-ne e = ne_of_mem a x (c ∷ bs) m new.out (sym e)

  around-apart :
      (y n : ℕ)
      → 0 < n
      → Disjoint y n x (h.size x)
      → ((b : ℕ) → b ∈ (c ∷ bs) → Disjoint y n b (h.size b))
      → (b : ℕ) → Disjoint y n b (h.size b)
      → Disjoint y n b ((insert_block x a h).size b)
  unfolding insert_block
  around-apart y n pos dx ds b db =
      let ne : x ≢ a = apart-ne in
      let da = ds a m in
      let dn = ds (h.ptr a) (next-mem h a c bs f m) in
      elim (Bool-cases (x + h.size x == h.ptr a)) [
        | inl e ↦ elim (Bool-cases (a + put h.size x (h.size x + h.size (h.ptr a)) a == x)) [
          | inl d ↦ rw (e, insert_block) (rw (d, insert_block) (ground (arith, ne)))
          | inr d ↦ rw (e, insert_block) (rw (d, insert_block) (ground (arith, ne)))
        ]
        | inr e ↦ elim (Bool-cases (a + h.size a == x)) [
          | inl d ↦ rw (e, insert_block) (rw (d, insert_block) (ground arith))
          | inr d ↦ rw (e, insert_block) (rw (d, insert_block) db)
        ]
      ]

  around-other : (y : ℕ) → y ∉ (x ∷ c ∷ bs) → (insert_block x a h).size y ≡ h.size y
  unfolding insert_block
  around-other y out =
      let nx : y ≢ x = out.0 in
      let na : y ≢ a = λ e. ne_of_mem a y (c ∷ bs) m out.1 (sym e) in
      elim (Bool-cases (x + h.size x == h.ptr a)) [
        | inl e ↦ elim (Bool-cases (a + put h.size x (h.size x + h.size (h.ptr a)) a == x)) [
          | inl d ↦ rw (e, insert_block) (rw (d, insert_block) (ground (arith, nx, na)))
          | inr d ↦ rw (e, insert_block) (rw (d, insert_block) (ground (arith, nx, na)))
        ]
        | inr e ↦ elim (Bool-cases (a + h.size a == x)) [
          | inl d ↦ rw (e, insert_block) (rw (d, insert_block) (ground (arith, nx, na)))
          | inr d ↦ rw (e, insert_block) (rw (d, insert_block) refl)
        ]
      ]

  around-total :
      ((insert_block x a h).total_units ≡ h.total_units) × ((insert_block x a h).base ≡ h.base)
  unfolding insert_block
  around-total = elim (Bool-cases (x + h.size x == h.ptr a)) [
    | inl e ↦ elim (Bool-cases (a + put h.size x (h.size x + h.size (h.ptr a)) a == x)) [
      | inl d ↦ rw (e, insert_block) (rw (d, insert_block) (refl, refl))
      | inr d ↦ rw (e, insert_block) (rw (d, insert_block) (refl, refl))
    ]
    | inr e ↦ elim (Bool-cases (a + h.size a == x)) [
      | inl d ↦ rw (e, insert_block) (rw (d, insert_block) (refl, refl))
      | inr d ↦ rw (e, insert_block) (rw (d, insert_block) (refl, refl))
    ]
  ]

  put_both-mem :
      (v w b : ℕ)
      → v ∈ (x ∷ c ∷ bs)
      → w ∈ (x ∷ c ∷ bs)
      → b ∈ (x ∷ c ∷ bs)
      → put (put h.ptr x v) a w b ∈ (x ∷ c ∷ bs)
  put_both-mem v w b hv hw (inl e) =
      put_mem (put h.ptr x v) a w b (x ∷ c ∷ bs) hw
        (subst (λ z. z ∈ (x ∷ c ∷ bs)) (sym (ap (put h.ptr x v) e ∙ put_self h.ptr x v)) hv)
  put_both-mem v w b hv hw (inr k) =
      put_mem (put h.ptr x v) a w b (x ∷ c ∷ bs) hw
        (put_mem h.ptr x v b (x ∷ c ∷ bs) hv (next-in b k))

  put_x-mem : (v : ℕ) → v ∈ (x ∷ c ∷ bs) → put h.ptr x v x ∈ (x ∷ c ∷ bs)
  put_x-mem v hv = subst (λ z. z ∈ (x ∷ c ∷ bs)) (sym (put_self h.ptr x v)) hv

  -- What the links of `x` and of the block in front become.
  around-ptr :
      (v w : ℕ) × (v ∈ (x ∷ c ∷ bs))
      × (w ∈ (x ∷ c ∷ bs))
      × ((b : ℕ) → (insert_block x a h).ptr b ≡ put (put h.ptr x v) a w b)
  unfolding insert_block
  around-ptr =
      let here = next-in a m in
      let next : ℕ = h.ptr (h.ptr a) in
      let there = next-in (h.ptr a) (next-mem h a c bs f m) in
      elim (Bool-cases (x + h.size x == h.ptr a)) [
        | inl e ↦ elim (Bool-cases (a + put h.size x (h.size x + h.size (h.ptr a)) a == x)) [
          | inl d ↦ (
            next,
            put h.ptr x next x,
            there,
            put_x-mem next there,
            λ b. rw (e, insert_block) (rw (d, insert_block) refl),
          )
          | inr d ↦
              (next, x, there, inl refl, λ b. rw (e, insert_block) (rw (d, insert_block) refl))
        ]
        | inr e ↦ elim (Bool-cases (a + h.size a == x)) [
          | inl d ↦ (
            h.ptr a,
            put h.ptr x (h.ptr a) x,
            here,
            put_x-mem (h.ptr a) here,
            λ b. rw (e, insert_block) (rw (d, insert_block) refl),
          )
          | inr d ↦
              (h.ptr a, x, here, inl refl, λ b. rw (e, insert_block) (rw (d, insert_block) refl))
        ]
      ]

  around-next : (b : ℕ) → b ∈ (x ∷ c ∷ bs) → (insert_block x a h).ptr b ∈ (x ∷ c ∷ bs)
  around-next b hb =
      let (v, w, hv, hw, e) = around-ptr in
      subst (λ z. z ∈ (x ∷ c ∷ bs)) (sym (e b)) (put_both-mem v w b hv hw hb)

  insert_block-first : (insert_block x a h).free_node ∈ (x ∷ c ∷ bs)
  unfolding insert_block
  insert_block-first = inr m

  pub insert_block-Around : Around (insert_block x a h) h x (c ∷ bs)
  insert_block-Around = record {
    first = insert_block-first;
    next = around-next;
    apart = λ y n pos dx ds b hb. around-apart y n pos dx ds b (apart-of y n dx ds b hb);
    other = around-other;
    total = around-total.0;
    base = around-total.1;
  }
