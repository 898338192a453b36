-- ===== src/MemoryManager/Release.antt =====
-- `free` of memoryManagement/memoryManager.c brings a block back into the circle of free blocks.
use dog_os.Prelude.{
  ℕ, ◌+◌, ◌≡◌, ◌≢◌, inl, inr, ◌∙◌, refl, sym, ap, subst, true, false, List, [], ◌∷◌, ◌++◌, arith,
  Bool-cases, ◌==◌, ◌∈◌, put,
}
use dog_os.MemoryManager.{Heap, insert_block}
use dog_os.MemoryManager.Circle.{Linked, units, units-append, Free, rotate}
use dog_os.MemoryManager.Insert.{Apart, enlist, enlist-Free, merged, merged-Free, merged-units}
use dog_os.MemoryManager.Rotation.{rotate_to}

-- The block `x` is free again, in a circle from `a` on.
pub record Released (h' h : Heap) (x a : ℕ) (bs cs : List ℕ) : Type 0 where
  pub free : Free h' a cs
  pub more_units : units h'.size (a ∷ cs) ≡ units h.size (a ∷ bs) + h.size x

-- The same links and sizes everywhere.
record Same (h' h : Heap) : Type 0 where
  ptr : (c : ℕ) → h'.ptr c ≡ h.ptr c
  size : (c : ℕ) → h'.size c ≡ h.size c
  total : h'.total_units ≡ h.total_units

units-cong : (s t : ℕ → ℕ) (bs : List ℕ) → ((c : ℕ) → s c ≡ t c) → units s bs ≡ units t bs
units-cong s t [] e = refl
units-cong s t (b ∷ bs) e = omega (arith, e b, units-cong s t bs e)

Linked-cong :
    (p q : ℕ → ℕ) (a z : ℕ) (bs : List ℕ)
    → ((c : ℕ) → p c ≡ q c)
    → Linked q a bs z
    → Linked p a bs z
Linked-cong p q a z [] e l = e a ∙ l
Linked-cong p q a z (b ∷ bs) e (d, l) = (e a ∙ d, Linked-cong p q b z bs e l)

Same-Free : (h' h : Heap) (a : ℕ) (bs : List ℕ) → Same h' h → Free h a bs → Free h' a bs
Same-Free h' h a bs e f = record {
  linked = Linked-cong h'.ptr h.ptr a a bs e.ptr f.linked;
  distinct = f.distinct;
  apart = λ b c hb hc ne. rw (e.size b) (rw (e.size c) (f.apart b c hb hc ne));
  inside = λ b hb. (
    omega (arith, e.size b, (f.inside b hb).0),
    omega (arith, e.size b, e.total, (f.inside b hb).1),
  );
}

Same-Released :
    (h' k h : Heap) (x a : ℕ) (bs cs : List ℕ)
    → Same h' k
    → Released k h x a bs cs
    → Released h' h x a bs cs
Same-Released h' k h x a bs cs e r = record {
  free = Same-Free h' k a cs e r.free;
  more_units = units-cong h'.size k.size (a ∷ cs) e.size ∙ r.more_units;
}

module _ (h : Heap) (x a : ℕ) (bs : List ℕ) (f : Free h a bs) (new : Apart h x a bs) where
  in-circle : Free (enlist x a h) a (x ∷ bs)
  in-circle = enlist-Free h x a bs f new

  in-units : units (enlist x a h).size (a ∷ x ∷ bs) ≡ units h.size (a ∷ bs) + h.size x
  in-units = omega arith

  neither :
      (x + h.size x == h.ptr a) ≡ false
      → (a + h.size a == x) ≡ false
      → Released (insert_block x a h) h x a bs (x ∷ bs)
  unfolding insert_block
  neither e d =
      Same-Released (insert_block x a h) (enlist x a h) h x a bs (x ∷ bs)
        (record {
          ptr = λ c. rw (e, insert_block) (rw (d, insert_block) refl);
          size = λ c. rw (e, insert_block) (rw (d, insert_block) refl);
          total = rw (e, insert_block) (rw (d, insert_block) refl);
        })
        (record { free = in-circle; more_units = in-units })

  backward :
      (x + h.size x == h.ptr a) ≡ false
      → (a + h.size a == x) ≡ true
      → Released (insert_block x a h) h x a bs bs
  unfolding insert_block
  backward e d =
      let beside : a + h.size a ≡ x = ground (arith, d) in
      let ne : x ≢ a = new.out.0 in
      Same-Released (insert_block x a h) (merged a x (enlist x a h)) h x a bs bs
        (record {
          ptr = λ c. rw (e, insert_block) (rw (d, insert_block) (ground (arith, ne)));
          size = λ c. rw (e, insert_block) (rw (d, insert_block) refl);
          total = rw (e, insert_block) (rw (d, insert_block) refl);
        })
        (record {
          free = merged-Free (enlist x a h) a x bs in-circle beside;
          more_units = merged-units (enlist x a h) a x bs in-circle beside ∙ in-units;
        })

-- A block that is free already is followed by the first of the others.
next-first :
    (h : Heap) (a x : ℕ) (bs : List ℕ)
    → Free h a bs
    → h.ptr a ≡ x
    → x ≢ a
    → (cs : List ℕ) × (bs ≡ (x ∷ cs))
next-first h a x [] f e ne = absurd (ne (sym e ∙ f.linked))
next-first h a x (b ∷ bs) f e ne = (bs, ap (λ y. y ∷ bs) (sym f.linked.0 ∙ e))

last-mem : (a x : ℕ) (bs : List ℕ) → a ∈ (x ∷ (bs ++ (a ∷ [])))
last-mem a x [] = inr (inl refl)
last-mem a x (b ∷ bs) = inr (last-mem a b bs)

module _ (h : Heap) (x a b : ℕ) (bs : List ℕ) (f : Free h a (b ∷ bs)) (new : Apart h x a (b ∷ bs))
    (beside : x + h.size x ≡ b) where
  -- The circle once `x` is linked in and has taken up `b`.
  joined : Heap
  joined = merged x b (enlist x a h)

  turned : Free (enlist x a h) x (b ∷ (bs ++ (a ∷ [])))
  turned = rotate (enlist x a h) a x (b ∷ bs) (enlist-Free h x a (b ∷ bs) f new)

  joined-Free : Free joined x (bs ++ (a ∷ []))
  unfolding joined
  joined-Free = merged-Free (enlist x a h) x b (bs ++ (a ∷ [])) turned beside

  joined-units : units joined.size (x ∷ (bs ++ (a ∷ []))) ≡ units h.size (a ∷ b ∷ bs) + h.size x
  unfolding joined
  joined-units = omega (
    arith,
    merged-units (enlist x a h) x b (bs ++ (a ∷ [])) turned beside,
    units-append h.size bs (a ∷ []),
  )

  joined-next : joined.ptr a ≡ x
  unfolding joined
  joined-next = let ne : x ≢ a = new.out.0 in ground (arith, ne)

  -- It stands behind `a`.
  joined-from :
      (cs : List ℕ) × Free joined a (x ∷ cs)
      × (units joined.size (a ∷ x ∷ cs) ≡ units h.size (a ∷ b ∷ bs) + h.size x)
  joined-from =
      let (cs, r) = rotate_to joined a x (bs ++ (a ∷ [])) joined-Free (last-mem a x bs) in
      let (ds, e) = next-first joined a x cs r.free joined-next new.out.0 in
      (
        ds,
        subst (λ zs. Free joined a zs) e r.free,
        subst (λ zs. units joined.size (a ∷ zs) ≡ units joined.size (x ∷ (bs ++ (a ∷ [])))) e
              r.same_units
            ∙ joined-units,
      )

  ahead : (x + h.size x == h.ptr a) ≡ true
  ahead = rw f.linked.0 (ground (arith, beside))

  forward :
      (a + h.size a == x) ≡ false → (cs : List ℕ) × Released (insert_block x a h) h x a (b ∷ bs) cs
  unfolding insert_block joined
  forward d =
      let (cs, g, e) = joined-from in
      let ne : x ≢ a = new.out.0 in
      let first : h.ptr a ≡ b = f.linked.0 in
      let apart : b ≢ a = λ k. f.distinct.0.0 (sym k) in
      let size_here : (a + put h.size x (h.size x + h.size (h.ptr a)) a == x) ≡ false =
        ground (arith, ne, d) in
      (
        x ∷ cs,
        Same-Released (insert_block x a h) joined h x a (b ∷ bs) (x ∷ cs)
            (record {
              ptr = λ c.
                  rw (ahead, insert_block)
                    (rw (size_here, insert_block)
                      (rw first (ground (arith, ne, apart, new.out.1.0))));
              size = λ c. rw (ahead, insert_block) (rw (size_here, insert_block) (rw first refl));
              total = rw (ahead, insert_block) (rw (size_here, insert_block) refl);
            })
            (record { free = g; more_units = e }),
      )

  both :
      (a + h.size a == x) ≡ true → (cs : List ℕ) × Released (insert_block x a h) h x a (b ∷ bs) cs
  unfolding insert_block joined
  both d =
      let (cs, g, e) = joined-from in
      let ne : x ≢ a = new.out.0 in
      let first : h.ptr a ≡ b = f.linked.0 in
      let apart : b ≢ a = λ k. f.distinct.0.0 (sym k) in
      let size_here : (a + put h.size x (h.size x + h.size (h.ptr a)) a == x) ≡ true =
        ground (arith, ne, d) in
      let touching : a + joined.size a ≡ x = ground (arith, ne, d) in
      (
        cs,
        Same-Released (insert_block x a h) (merged a x joined) h x a (b ∷ bs) cs
            (record {
              ptr = λ c.
                  rw (ahead, insert_block)
                    (rw (size_here, insert_block)
                      (rw first (ground (arith, ne, apart, new.out.1.0))));
              size = λ c.
                  rw (ahead, insert_block)
                    (rw (size_here, insert_block)
                      (rw first (ground (arith, ne, apart, new.out.1.0))));
              total = rw (ahead, insert_block) (rw (size_here, insert_block) refl);
            })
            (record {
              free = merged-Free joined a x cs g touching;
              more_units = merged-units joined a x cs g touching ∙ e;
            }),
      )

-- Whichever neighbours it merges with, the circle is one with all units of the block more.
pub insert_block-Free :
    (h : Heap) (x a : ℕ) (bs : List ℕ)
    → Free h a bs
    → Apart h x a bs
    → (bs ≡ [] → x + h.size x ≢ a)
    → (cs : List ℕ) × Released (insert_block x a h) h x a bs cs
insert_block-Free h x a [] f new lone =
    let behind : (x + h.size x == h.ptr a) ≡ false = rw f.linked (ground (arith, lone refl)) in
    elim (Bool-cases (a + h.size a == x)) [
      | inl d ↦ ([], backward h x a [] f new behind d)
      | inr d ↦ (x ∷ [], neither h x a [] f new behind d)
    ]
insert_block-Free h x a (b ∷ bs) f new lone = elim (Bool-cases (x + h.size x == h.ptr a)) [
  | inl e ↦
      let beside : x + h.size x ≡ b = ground (arith, e, f.linked.0) in
      elim (Bool-cases (a + h.size a == x)) [
        | inl d ↦ both h x a b bs f new beside d
        | inr d ↦ forward h x a b bs f new beside d
      ]
  | inr e ↦ elim (Bool-cases (a + h.size a == x)) [
    | inl d ↦ (b ∷ bs, backward h x a (b ∷ bs) f new e d)
    | inr d ↦ (x ∷ b ∷ bs, neither h x a (b ∷ bs) f new e d)
  ]
]
