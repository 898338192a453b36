-- ===== src/MemoryManager/Returned.antt =====
-- `free` of memoryManagement/memoryManager.c besides the other blocks that are handed out.
use dog_os.Prelude.{
  ℕ, ◌+◌, ◌-◌, ◌*◌, ◌/◌, ◌%◌, ◌^◌, ◌<◌, ◌≡◌, ◌≢◌, ◌⊎◌, inl, inr, ◌∙◌, refl, sym, ap, subst, true,
  false, not, ◌||◌, some, List, [], ◌∷◌, arith, ◌==◌, leb, ltb, if◌then◌else◌, length, Bool-cases,
  ◌∈◌, ◌∉◌, Distinct, ne_of_mem,
}
use dog_os.MemoryManager.{Heap, insert_block, address, free, free_block}
use dog_os.MemoryManager.Circle.{units}
use dog_os.MemoryManager.Fit.{not-mem}
use dog_os.MemoryManager.Insert.{Apart}
use dog_os.MemoryManager.Around.{Around, insert_block-Around}
use dog_os.MemoryManager.Freeing.{Freed, insert-Freed, free_block-insert}
use dog_os.MemoryManager.Allocated.{Allocated, SameSizes, Linked-closed, units-same}

-- The list without the block `x`.
abbrev pub remove : ℕ → List ℕ → List ℕ
remove x [] = []
remove x (y ∷ ys) = if y == x then ys else y ∷ remove x ys

-- A list is its first block `x` and the rest, or one that is not `x` and the rest without it.
remove-mem : (x y : ℕ) (ys : List ℕ) → y ∈ remove x ys → y ∈ ys
remove-mem x y [] m = m
remove-mem x y (z ∷ ys) m =
    elim (z == x) as (λ t. y ∈ (if t then ys else z ∷ remove x ys) → y ∈ (z ∷ ys)) [
      | true ↦ λ k. inr k
      | false ↦ λ k. elim k [ inl e ↦ inl e | inr l ↦ inr (remove-mem x y ys l) ]
    ]
      m

remove-not_mem : (x z : ℕ) (ys : List ℕ) → z ∉ ys → z ∉ remove x ys
remove-not_mem x z ys out =
    not-mem z (remove x ys) (λ b m. ne_of_mem b z ys (remove-mem x b ys m) out)

remove-Distinct : (x : ℕ) (ys : List ℕ) → Distinct ys → Distinct (remove x ys)
remove-Distinct x [] d = d
remove-Distinct x (z ∷ ys) (out, d) =
    elim (z == x) as (λ t. Distinct (if t then ys else z ∷ remove x ys)) [
      | true ↦ d
      | false ↦ (remove-not_mem x z ys out, remove-Distinct x ys d)
    ]

-- The block `x` is the first one, or not.
remove-cases :
    (x z : ℕ) (ys : List ℕ)
    → ((z ≡ x) × (remove x (z ∷ ys) ≡ ys)) ⊎ ((z ≢ x) × (remove x (z ∷ ys) ≡ z ∷ remove x ys))
remove-cases x z ys = elim (Bool-cases (z == x)) [
  | inl e ↦ inl (ground (arith, e), rw (e, remove) refl)
  | inr e ↦ inr (ground (arith, e), rw (e, remove) refl)
]

remove-ne : (x y : ℕ) (ys : List ℕ) → Distinct ys → y ∈ remove x ys → y ≢ x
remove-ne x y [] d m = elim m [ ]
remove-ne x y (z ∷ ys) (out, d) m = elim (remove-cases x z ys) [
  | inl (e, r) ↦ λ same. ne_of_mem y z ys (subst (λ l. y ∈ l) r m) out (same ∙ sym e)
  | inr (ne, r) ↦ elim (subst (λ l. y ∈ l) r m) [
    | inl e ↦ λ same. ne (sym e ∙ same)
    | inr l ↦ remove-ne x y ys d l
  ]
]

units-remove : (s : ℕ → ℕ) (x : ℕ) (ys : List ℕ) → x ∈ ys → units s (remove x ys) + s x ≡ units s ys
units-remove s x [] m = elim m [ ]
units-remove s x (z ∷ ys) m = elim (remove-cases x z ys) [
  | inl (e, r) ↦ omega (arith, ap (units s) r, ap s e)
  | inr (ne, r) ↦ elim m [
    | inl e ↦ absurd (ne (sym e))
    | inr l ↦ omega (arith, ap (units s) r, units-remove s x ys l)
  ]
]

module _ (h h' : Heap) (x : ℕ) (bs cs live : List ℕ) (all : Allocated h bs live) (mx : x ∈ live)
    (k : Around h' h x (h.free_node ∷ bs)) (f : Freed h' h x bs cs) where
  old : (b : ℕ) → b ∈ (h'.free_node ∷ cs) → b ∈ (x ∷ h.free_node ∷ bs)
  old b m =
      Linked-closed h'.ptr h'.free_node h'.free_node cs (x ∷ h.free_node ∷ bs) f.free.linked k.next
        k.first b m

  staying : (y : ℕ) → y ∈ remove x live → (y ∈ live) × (y ≢ x)
  staying y m = (remove-mem x y live m, remove-ne x y live all.distinct m)

  kept : (y : ℕ) → y ∈ remove x live → h'.size y ≡ h.size y
  kept y m = let (l, ne) = staying y m in k.other y (ne, (all.held y l).out)

  kept-Apart : (y : ℕ) → y ∈ remove x live → Apart h' y h'.free_node cs
  kept-Apart y m =
      let (l, ne) = staying y m in
      let held = all.held y l in
      record {
        some_units = omega (arith, kept y m, held.some_units);
        inside = omega (arith, kept y m, k.total, held.inside);
        out =
            not-mem y (h'.free_node ∷ cs)
              (λ b n. ne_of_mem b y (x ∷ h.free_node ∷ bs) (old b n) (ne, held.out));
        apart = λ b n.
            rw (kept y m)
              (k.apart y (h.size y) held.some_units (all.apart y x l mx ne) held.apart b (old b n));
      }

  returned-Allocated : Allocated h' cs (remove x live)
  returned-Allocated = record {
    free = f.free;
    held = kept-Apart;
    distinct = remove-Distinct x live all.distinct;
    apart = λ y z l m ne.
        rw (kept y l) (rw (kept z m) (all.apart y z (staying y l).0 (staying z m).0 ne));
    all_units = omega (
      arith,
      f.more_units,
      k.total,
      all.all_units,
      units-remove h.size x live mx,
      units-same h'.size h.size (remove x live) kept,
    );
  }

-- The address of a block that is inside the heap passes the checks of `free`.
free-address :
    (fuel x : ℕ) (h : Heap) → x < h.total_units → free fuel (address h x) h ≡ free_block fuel x h
unfolding free
free-address fuel x h inside =
    let unit : (address h x - h.base) / 16 - 1 ≡ x = omega arith in
    let even : (address h x + 2 ^ 64 - h.base) % 16 ≡ 0 = omega arith in
    let above : 0 < address h x = omega arith in
    let multiple : ((address h x == 0) || not ((address h x + 2 ^ 64 - h.base) % 16 == 0)) ≡ false =
      ground (arith, even, above) in
    let bounds : (ltb (address h x) (h.base + 16)
          || leb (h.total_units * 16) ((address h x - h.base) / 16 - 1))
        ≡ false =
      ground (arith, unit) in
    rw (multiple, free) (rw (bounds, free) (ap (λ a. free_block fuel a h) unit))

-- `free` of the address of a block that is handed out ends with more fuel than there are other free blocks.
-- Unless the block stands right in front of the only free one, the blocks that are free then and those
-- that stay handed out are apart, the latter keep their sizes, and no unit of the heap is lost.
pub free-Allocated :
    (fuel x : ℕ) (bs live : List ℕ) (h : Heap)
    → Allocated h bs live
    → x ∈ live
    → (bs ≡ [] → x + h.size x ≢ h.free_node)
    → length bs < fuel
    → (h' : Heap) × (free fuel (address h x) h ≡ some h')
      × ((cs : List ℕ) × Allocated h' cs (remove x live) × SameSizes h' h (remove x live))
free-Allocated fuel x bs live h all m lone enough =
    let held = all.held x m in
    let (c, k, done) = free_block-insert h x bs all.free held lone fuel enough in
    let (cs, freed) = insert-Freed h x bs all.free held lone c k in
    (
      insert_block x c h,
      free-address fuel x h (omega (arith, held.some_units, held.inside)) ∙ done,
      (
        cs,
        returned-Allocated h (insert_block x c h) x bs cs live all m
            (insert_block-Around h x c h.free_node bs all.free k held) freed,
        kept h (insert_block x c h) x bs cs live all m
            (insert_block-Around h x c h.free_node bs all.free k held) freed,
      ),
    )
