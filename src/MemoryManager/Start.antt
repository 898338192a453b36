-- ===== src/MemoryManager/Start.antt =====
-- The heap of memoryManagement/memoryManager.c right after its initialisation.
use dog_os.Prelude.{
  ℕ, ◌+◌, ◌-◌, ◌/◌, ◌%◌, ◌^◌, ◌≤◌, ◌<◌, ◌≡◌, ◌≢◌, inl, inr, ◌∙◌, sym, subst, false, [], arith, ◌==◌,
  put, put_self,
}
use dog_os.MemoryManager.Allocated.{Allocated}
use dog_os.MemoryManager.{Heap, initialize_memory_manager}
use dog_os.MemoryManager.Circle.{Free}

pub one-Free :
    (h : Heap) (a : ℕ) → h.ptr a ≡ a → 0 < h.size a → a + h.size a ≤ h.total_units → Free h a []
one-Free h a e some_units inside = record {
  linked = e;
  distinct = (tt, tt);
  apart = λ b c hb hc ne. elim hb [
    | inl e ↦ elim hc [ inl d ↦ absurd (ne (e ∙ sym d)) | inr k ↦ absurd k ]
    | inr k ↦ absurd k
  ];
  inside = λ b hb. elim hb [
    | inl e ↦
        subst (λ c. (0 < h.size c) × (c + h.size c ≤ h.total_units)) (sym e) (some_units, inside)
    | inr k ↦ absurd k
  ];
}

one-Allocated :
    (h : Heap) → Free h h.free_node [] → h.size h.free_node ≡ h.total_units → Allocated h [] []
one-Allocated h f e = record {
  free = f;
  held = λ y m. elim m [ ];
  distinct = tt;
  apart = λ y z l m ne. elim l [ ];
  all_units = omega (arith, e);
}

-- The new heap is one free block of all units.
pub initialize_memory_manager-Allocated :
    (heap_base heap_size : ℕ) (h : Heap)
    → heap_base ≢ 0
    → Allocated (initialize_memory_manager heap_base heap_size h) [] []
unfolding initialize_memory_manager
initialize_memory_manager-Allocated heap_base heap_size h some_heap =
    let exists : (heap_base == 0) ≡ false = ground (arith, some_heap) in
    let units : ℕ = (heap_size + 16 - 1) % 2 ^ 64 / 16 + 1 in
    let new : Heap = record {
      base = heap_base;
      free_node = 0;
      total_units = units;
      ptr = put h.ptr 0 0;
      size = put h.size 0 units;
    } in
    let first : put h.size 0 units 0 ≡ units = put_self h.size 0 units in
    rw (exists, initialize_memory_manager)
      (one-Allocated new
        (one-Free new 0 (put_self h.ptr 0 0) (omega (arith, first)) (omega (arith, first))) first)
