-- ===== src/MemoryManager/Freeing.antt =====
-- What `free` of memoryManagement/memoryManager.c does with a block that is apart from the free ones.
use dog_os.Prelude.{
  ℕ, suc, ◌+◌, ◌<◌, ◌≡◌, ◌≢◌, inl, inr, ◌∙◌, refl, ap, subst, true, false, some, List, [], ◌∷◌,
  arith, length, ltb, ◌||◌, ◌==◌, ◌∈◌, ne_of_mem, put,
}
use dog_os.MemoryManager.{
  Heap, Place, between, outside, already, find_place, insert_block, free_block,
}
use dog_os.MemoryManager.Circle.{Linked, units, Free}
use dog_os.MemoryManager.Fit.{not-mem}
use dog_os.MemoryManager.Insert.{Apart}
use dog_os.MemoryManager.Rotation.{next-mem, rotate_to}
use dog_os.MemoryManager.Release.{insert_block-Free}
use dog_os.MemoryManager.Walk.{Fits, find_place-Free}

-- `free` has brought the block `x` back: the blocks form a circle from the free node on, with the units
-- of `x` more.
pub record Freed (h' h : Heap) (x : ℕ) (bs cs : List ℕ) : Type 0 where
  pub free : Free h' h'.free_node cs
  pub more_units : units h'.size (h'.free_node ∷ cs) ≡ units h.size (h.free_node ∷ bs) + h.size x

same-nil : (bs cs : List ℕ) → length cs ≡ length bs → cs ≡ [] → bs ≡ []
same-nil [] cs e d = refl
same-nil (b ∷ bs) [] e d = absurd (omega (arith, e))
same-nil (b ∷ bs) (c ∷ cs) e d = absurd (omega (arith, ap length d))

only-mem : (c a : ℕ) (bs : List ℕ) → bs ≡ [] → c ∈ (a ∷ bs) → c ≡ a
only-mem c a bs e (inl k) = k
only-mem c a bs e (inr k) = elim (subst (λ zs. c ∈ zs) e k) [ ]

module _ (h : Heap) (x : ℕ) (bs : List ℕ) (f : Free h h.free_node bs)
    (new : Apart h x h.free_node bs) (lone : bs ≡ [] → x + h.size x ≢ h.free_node) where
  pub insert-Freed :
      (c : ℕ) → c ∈ (h.free_node ∷ bs) → (cs : List ℕ) × Freed (insert_block x c h) h x bs cs
  unfolding insert_block
  insert-Freed c k =
      let (ds, r) = rotate_to h c h.free_node bs f k in
      let here : Apart h x c ds = record {
        some_units = new.some_units;
        inside = new.inside;
        out = not-mem x (c ∷ ds) (λ b m. ne_of_mem b x (h.free_node ∷ bs) (r.back b m) new.out);
        apart = λ b m. new.apart b (r.back b m);
      } in
      let (cs, g) = insert_block-Free h x c ds r.free here (λ e d.
        lone (same-nil bs ds r.same_length e)
          (d ∙ only-mem c h.free_node bs (same-nil bs ds r.same_length e) k)) in
      (cs, record { free = g.free; more_units = omega (arith, g.more_units, r.same_units) })

  no_overlap :
      (c : ℕ)
      → c ∈ (h.free_node ∷ bs)
      → c < x
      → x < h.ptr c
      → (ltb x (c + h.size c) || ltb (h.ptr c) (x + h.size x)) ≡ false
  no_overlap c k below above =
      let first = new.apart c k in
      let second = new.apart (h.ptr c) (next-mem h c h.free_node bs f k) in
      let some_units = new.some_units in
      elim first [
        | inl e ↦ absurd (omega arith)
        | inr e ↦ elim second [ inl d ↦ ground (arith, e, d) | inr d ↦ absurd (omega arith) ]
      ]

  free_block-place :
      (fuel : ℕ) (p : Place)
      → find_place fuel x h.free_node h ≡ some p
      → Fits h x (h.free_node ∷ bs) p
      → (c : ℕ) × (c ∈ (h.free_node ∷ bs)) × (free_block fuel x h ≡ some (insert_block x c h))
  unfolding free_block
  free_block-place fuel (between c) found (k, below, above) =
      (c, k, rw (found, free_block) (rw (no_overlap c k below above, free_block) refl))
  free_block-place fuel (outside c) found k = (c, k, rw (found, free_block) refl)
  free_block-place fuel already found k = absurd k

  -- It is inserted behind one of the free blocks.
  pub free_block-insert :
      (fuel : ℕ)
      → length bs < fuel
      → (c : ℕ) × (c ∈ (h.free_node ∷ bs)) × (free_block fuel x h ≡ some (insert_block x c h))
  free_block-insert fuel enough =
      let (p, found, fits) = find_place-Free fuel x h.free_node bs h f new.out enough in
      free_block-place fuel p found fits

-- The loop of `free` in a circle of one block stops behind or in front of it.
find_place-lone :
    (h : Heap) (x fuel : ℕ)
    → Free h h.free_node []
    → Apart h x h.free_node []
    → find_place (suc fuel) x h.free_node h ≡ some (outside h.free_node)
find_place-lone h x fuel f new =
    let (p, found, fits) = find_place-Free (suc fuel) x h.free_node [] h f new.out (omega arith) in
    found ∙ ap some (place p fits)
  where
    place : (p : Place) → Fits h x (h.free_node ∷ []) p → p ≡ outside h.free_node
    place (between c) (inl e, l, r) = absurd (omega (arith, e, ap h.ptr e, f.linked, l, r))
    place (between c) (inr k, l, r) = elim k [ ]
    place (outside c) (inl e) = ap outside e
    place (outside c) (inr k) = elim k [ ]
    place already k = absurd k

-- The block `x` stands in front of the only free block.
module _ (h : Heap) (x : ℕ) (f : Free h h.free_node []) (new : Apart h x h.free_node [])
    (beside : x + h.size x ≡ h.free_node) where
  ahead : (x + h.size x == h.ptr h.free_node) ≡ true
  ahead = rw f.linked (ground (arith, beside))

  not_behind :
      (h.free_node + put h.size x (h.size x + h.size (h.ptr h.free_node)) h.free_node == x) ≡ false
  not_behind =
      let ne : x ≢ h.free_node = new.out.0 in let some_units = new.some_units in ground (arith, ne)

  ptr_of :
      (c : ℕ)
      → (insert_block x h.free_node h).ptr c
        ≡ put (put h.ptr x (h.ptr (h.ptr h.free_node))) h.free_node x c
  unfolding insert_block
  ptr_of c = rw (ahead, insert_block) (rw (not_behind, insert_block) refl)

  size_of :
      (c : ℕ)
      → (insert_block x h.free_node h).size c
        ≡ put h.size x (h.size x + h.size (h.ptr h.free_node)) c
  unfolding insert_block
  size_of c = rw (ahead, insert_block) (rw (not_behind, insert_block) refl)

  free_node_of : (insert_block x h.free_node h).free_node ≡ h.free_node
  unfolding insert_block
  free_node_of = refl

  lone-Linked : Linked (insert_block x h.free_node h).ptr h.free_node (x ∷ []) h.free_node
  lone-Linked =
      let ne : x ≢ h.free_node = new.out.0 in
      let e : h.ptr h.free_node ≡ h.free_node = f.linked in
      (ptr_of h.free_node ∙ ground arith, ptr_of x ∙ rw (e, put) (rw e (ground (arith, ne))))

  lone-size :
      ((insert_block x h.free_node h).size h.free_node ≡ h.size h.free_node)
      × ((insert_block x h.free_node h).size x ≡ h.size x + h.size h.free_node)
  lone-size =
      let ne : x ≢ h.free_node = new.out.0 in
      let e : h.ptr h.free_node ≡ h.free_node = f.linked in
      (size_of h.free_node ∙ ground (arith, ne), size_of x ∙ rw (e, put) (ground arith))

  -- When the block in front of the only free block is freed, it takes up that block, and yet the two are
  -- linked to each other: the free list then holds units twice.
  pub free_block-lone :
      (fuel : ℕ)
      → (h' : Heap) × (free_block (suc fuel) x h ≡ some h')
        × Linked h'.ptr h.free_node (x ∷ []) h.free_node
        × (0 < h'.size h.free_node)
        × (x < h.free_node)
        × (x + h'.size x ≡ h.free_node + h'.size h.free_node)
  unfolding free_block
  free_block-lone fuel =
      let some_units = new.some_units in
      let more_units = (f.inside h.free_node (inl refl)).0 in
      let (s, t) = lone-size in
      (
        insert_block x h.free_node h,
        rw (find_place-lone h x fuel f new, free_block) refl,
        lone-Linked,
        omega (arith, s),
        omega arith,
        omega (arith, s, t),
      )
