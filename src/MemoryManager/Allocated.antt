-- ===== src/MemoryManager/Allocated.antt =====
-- The blocks that memoryManagement/memoryManager.c has handed out, besides those that are free.
use dog_os.Prelude.{
  ℕ, ◌+◌, ◌≤◌, ◌<◌, ◌≡◌, ◌≢◌, ◌⊎◌, inl, inr, ◌∙◌, refl, sym, subst, Option, none, some, List, [],
  ◌∷◌, arith, length, ◌∈◌, ◌∉◌, Distinct, ne_of_mem,
}
use dog_os.MemoryManager.{Heap, units_for, malloc, address}
use dog_os.MemoryManager.Circle.{Linked, units, Disjoint, Free}
use dog_os.MemoryManager.Fit.{Taken, not-mem}
use dog_os.MemoryManager.Insert.{Apart, Disjoint-sym}
use dog_os.MemoryManager.Rotation.{next-mem}
use dog_os.MemoryManager.Ends.{Outcome}
use dog_os.MemoryManager.Malloc.{start-Ends, malloc-scan}
use dog_os.MemoryManager.Frame.{Kept, Handed, Within, scan-Frame}

-- The blocks `live` are handed out: all different, not empty, inside the heap, apart from one another and
-- from the free ones, which have all units that they have not.
pub record Allocated (h : Heap) (bs live : List ℕ) : Type 0 where
  pub free : Free h h.free_node bs
  pub held : (y : ℕ) → y ∈ live → Apart h y h.free_node bs
  pub distinct : Distinct live
  pub apart : (y z : ℕ) → y ∈ live → z ∈ live → y ≢ z → Disjoint y (h.size y) z (h.size z)
  pub all_units : units h.size (h.free_node ∷ bs) + units h.size live ≡ h.total_units

pub Linked-closed :
    (p : ℕ → ℕ) (a z : ℕ) (bs cs : List ℕ)
    → Linked p a bs z
    → ((b : ℕ) → b ∈ cs → p b ∈ cs)
    → a ∈ cs
    → (b : ℕ) → b ∈ (a ∷ bs)
    → b ∈ cs
Linked-closed p a z [] cs l closed k b (inl e) = subst (λ c. c ∈ cs) (sym e) k
Linked-closed p a z [] cs l closed k b (inr m) = elim m [ ]
Linked-closed p a z (d ∷ bs) cs l closed k b (inl e) = subst (λ c. c ∈ cs) (sym e) k
Linked-closed p a z (d ∷ bs) cs (e, l) closed k b (inr m) =
    Linked-closed p d z bs cs l closed (subst (λ c. c ∈ cs) e (closed a k)) b m

pub units-same :
    (s t : ℕ → ℕ) (bs : List ℕ) → ((b : ℕ) → b ∈ bs → s b ≡ t b) → units s bs ≡ units t bs
units-same s t [] e = refl
units-same s t (b ∷ bs) e = omega (arith, e b (inl refl), units-same s t bs (λ c m. e c (inr m)))

Disjoint-ne : (a m b n : ℕ) → 0 < m → 0 < n → Disjoint a m b n → b ≢ a
Disjoint-ne a m b n hm hn (inl e) same = absurd (omega arith)
Disjoint-ne a m b n hm hn (inr e) same = absurd (omega arith)

-- What `malloc` leaves as it was, of a block `y` that is handed out.
module _ (h h' : Heap) (bs cs : List ℕ) (k : Kept h' h (h.free_node ∷ bs))
    (f : Free h' h'.free_node cs) (y : ℕ) (held : Apart h y h.free_node bs) where
  old : (b : ℕ) → b ∈ (h'.free_node ∷ cs) → b ∈ (h.free_node ∷ bs)
  old b m =
      Linked-closed h'.ptr h'.free_node h'.free_node cs (h.free_node ∷ bs) f.linked k.next k.first b
        m

  kept-size : h'.size y ≡ h.size y
  kept-size = k.other y (λ b m. away b (held.apart b m))
    where
      away : (b : ℕ) → Disjoint y (h.size y) b (h.size b) → (y < b) ⊎ (b + h.size b ≤ y)
      away b (inl e) = inl (omega (arith, held.some_units))
      away b (inr e) = inr e

  kept-Apart : Apart h' y h'.free_node cs
  kept-Apart = record {
    some_units = omega (arith, kept-size, held.some_units);
    inside = omega (arith, kept-size, k.total, held.inside);
    out =
        not-mem y (h'.free_node ∷ cs) (λ b m. ne_of_mem b y (h.free_node ∷ bs) (old b m) held.out);
    apart = λ b m. rw kept-size (nearer b (k.smaller b (old b m)) (held.apart b (old b m)));
  }
    where
      nearer :
          (b : ℕ)
          → h'.size b ≤ h.size b
          → Disjoint y (h.size y) b (h.size b)
          → Disjoint y (h.size y) b (h'.size b)
      nearer b le (inl e) = inl e
      nearer b le (inr e) = inr (omega arith)

-- The block of `n` units that `malloc` has handed out.
module _ (h h' : Heap) (bs cs live : List ℕ) (n d : ℕ) (pos : 0 < n) (all : Allocated h bs live)
    (k : Kept h' h (h.free_node ∷ bs)) (f : Free h' h'.free_node cs)
    (taken : Taken h' d n h'.free_node cs) (part : Within h.size (h.free_node ∷ bs) d n) where
  kept : (y : ℕ) → y ∈ live → h'.size y ≡ h.size y
  kept y m = kept-size h h' bs cs k f y (all.held y m)

  taken-Disjoint : (y : ℕ) → y ∈ live → Disjoint d n y (h'.size y)
  taken-Disjoint y m =
      let (b, hb, from, to) = part in
      rw (kept y m)
        (elim ((all.held y m).apart b hb) [ inl e ↦ inr (omega arith) | inr e ↦ inl (omega arith) ])

  taken-Apart : Apart h' d h'.free_node cs
  taken-Apart = record {
    some_units = omega (arith, taken.size);
    inside = omega (arith, taken.size, taken.inside);
    out =
        not-mem d (h'.free_node ∷ cs)
          (λ b m. Disjoint-ne d n b (h'.size b) pos (f.inside b m).0 (taken.apart b m));
    apart = λ b m. rw taken.size (taken.apart b m);
  }

  taken-out : d ∉ live
  taken-out = not-mem d live (λ y m.
      Disjoint-ne d n y (h'.size y) pos (omega (arith, kept y m, (all.held y m).some_units))
        (taken-Disjoint y m))

  taken-at : (y z s : ℕ) → y ≡ d → Disjoint d n z s → Disjoint y (h'.size y) z s
  taken-at y z s e =
      subst (λ x. Disjoint d n z s → Disjoint x (h'.size x) z s) (sym e)
        (subst (λ m. Disjoint d n z s → Disjoint d m z s) (sym taken.size) (λ l. l))

  all-apart :
      (y z : ℕ) → y ∈ (d ∷ live) → z ∈ (d ∷ live) → y ≢ z → Disjoint y (h'.size y) z (h'.size z)
  all-apart y z (inl e) (inl e') ne = absurd (ne (e ∙ sym e'))
  all-apart y z (inl e) (inr m) ne = taken-at y z (h'.size z) e (taken-Disjoint z m)
  all-apart y z (inr m) (inl e) ne =
      Disjoint-sym z (h'.size z) y (h'.size y) (taken-at z y (h'.size y) e (taken-Disjoint y m))
  all-apart y z (inr l) (inr m) ne = rw (kept y l) (rw (kept z m) (all.apart y z l m ne))

  taken-Allocated :
      units h'.size (h'.free_node ∷ cs) + n ≡ units h.size (h.free_node ∷ bs)
      → Allocated h' cs (d ∷ live)
  taken-Allocated sum = record {
    free = f;
    held = λ y m. elim m [
      | inl e ↦ subst (λ z. Apart h' z h'.free_node cs) (sym e) taken-Apart
      | inr l ↦ kept-Apart h h' bs cs k f y (all.held y l)
    ];
    distinct = (taken-out, all.distinct);
    apart = all-apart;
    all_units =
        omega (arith, sum, taken.size, k.total, all.all_units, units-same h'.size h.size live kept);
  }

-- The same when `malloc` returns NULL.
Kept-Allocated :
    (h h' : Heap) (bs cs live : List ℕ)
    → Allocated h bs live
    → Kept h' h (h.free_node ∷ bs)
    → Free h' h'.free_node cs
    → units h'.size (h'.free_node ∷ cs) ≡ units h.size (h.free_node ∷ bs)
    → Allocated h' cs live
Kept-Allocated h h' bs cs live all k f sum =
    let kept : (y : ℕ) → y ∈ live → h'.size y ≡ h.size y =
      λ y m. kept-size h h' bs cs k f y (all.held y m) in
    record {
      free = f;
      held = λ y m. kept-Apart h h' bs cs k f y (all.held y m);
      distinct = all.distinct;
      apart = λ y z l m ne. rw (kept y l) (rw (kept z m) (all.apart y z l m ne));
      all_units = omega (arith, sum, k.total, all.all_units, units-same h'.size h.size live kept);
    }

-- The blocks that are handed out after a call with the given result.
abbrev pub with : Option ℕ → List ℕ → List ℕ
with none live = live
with (some d) live = d ∷ live

-- A block of `n` units, or no free block that is larger.
abbrev pub Served : ℕ → List ℕ → Option ℕ × Heap → Type 0
Served n cs (none, h) = (b : ℕ) → b ∈ (h.free_node ∷ cs) → h.size b ≤ n
Served n cs (some a, h) = h.size a ≡ n

-- The blocks of a list have the sizes they had.
abbrev pub SameSizes : Heap → Heap → List ℕ → Type 0
SameSizes h' h live = (y : ℕ) → y ∈ live → h'.size y ≡ h.size y

outcome-Allocated :
    (n : ℕ) (bs live : List ℕ) (h : Heap) (r : Option ℕ × Heap)
    → 0 < n
    → Allocated h bs live
    → Outcome n (units h.size (h.free_node ∷ bs)) r
    → Kept r.1 h (h.free_node ∷ bs) × Handed n h (h.free_node ∷ bs) r.0
    → (cs : List ℕ) × Allocated r.1 cs (with r.0 live) × Served n cs r × SameSizes r.1 h live
outcome-Allocated n bs live h (none, h') pos all (cs, f, sum, largest) (k, part) = (
  cs,
  Kept-Allocated h h' bs cs live all k f sum,
  largest,
  λ y m. kept-size h h' bs cs k f y (all.held y m),
)
outcome-Allocated n bs live h (some d, h') pos all (cs, f, taken, sum) (k, part) = (
  cs,
  taken-Allocated h h' bs cs live n d pos all k f taken part sum,
  taken.size,
  λ y m. kept-size h h' bs cs k f y (all.held y m),
)

-- `malloc` of a number of bytes above 0 ends with more fuel than there are other free blocks. It returns the
-- address of a block that is apart from all free ones and from all that are handed out, which keep their
-- sizes, with the units for these bytes, or NULL, and then no free block is larger than that; and no unit of
-- the heap is lost.
pub malloc-Allocated :
    (fuel nbytes : ℕ) (bs live : List ℕ) (h : Heap)
    → 0 < nbytes
    → Allocated h bs live
    → length bs < fuel
    → (r : Option ℕ × Heap) × (malloc fuel nbytes h
        ≡ some (elim r.0 [ none ↦ 0 | some a ↦ address r.1 a ], r.1))
      × ((cs : List ℕ) × Allocated r.1 cs (with r.0 live)
          × Served (units_for nbytes) cs r
          × SameSizes r.1 h live)
malloc-Allocated fuel nbytes bs live h some_bytes all enough =
    let n : ℕ = units_for nbytes in
    let pos : 0 < n = omega arith in
    let (r, done, outcome) = start-Ends fuel n bs h pos all.free enough in
    let frame =
      scan-Frame h h.free_node bs all.free n pos fuel h.free_node (h.ptr h.free_node) r (inl refl)
        (inl refl) (next-mem h h.free_node h.free_node bs all.free (inl refl)) done in
    (
      r,
      malloc-scan fuel nbytes h r some_bytes done,
      outcome-Allocated n bs live h r pos all outcome frame,
    )
