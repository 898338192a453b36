-- ===== src/MemoryManager/Tests.antt =====
-- The memory manager of memoryManager.c on a heap of 10 units, and its theorems at it.
use dog_os.Prelude.{
  ℕ, ◌+◌, ◌<◌, ◌≡◌, inl, inr, refl, ◌∙◌, sym, Option, none, some, List, [], ◌∷◌, arith,
}
use dog_os.MemoryManager.{
  Heap, scan, fit, find_place, insert_block, initialize_memory_manager, malloc, free, free_block,
  address, units_for,
}
use dog_os.MemoryManager.Circle.{Linked}
use dog_os.MemoryManager.Allocated.{SameSizes, Allocated, with, Served, malloc-Allocated}
use dog_os.MemoryManager.Start.{one-Free, initialize_memory_manager-Allocated}
use dog_os.MemoryManager.Returned.{remove, free-Allocated}
use dog_os.MemoryManager.Freeing.{free_block-lone}

abbrev no_heap : Heap
no_heap = record { base = 0; free_node = 0; total_units = 0; ptr = λ a. 0; size = λ a. 0 }

abbrev heap : Heap
heap = initialize_memory_manager 4096 144 no_heap

abbrev allocated : ℕ → Heap → Heap
allocated nbytes h = elim (malloc 9 nbytes h) [ none ↦ h | some (a, h') ↦ h' ]

abbrev freed : ℕ → Heap → Heap
freed a h = elim (free 9 a h) [ none ↦ h | some h' ↦ h' ]

-- A block of 2 units at 8, one of 3 at 5, the first of which is freed, and then one of 5 at 0.
abbrev lone : Heap
lone = allocated 64 (freed (4240) (allocated 32 (allocated 16 heap)))

lone_run :
    (lone.free_node ≡ 8)
    × (lone.total_units ≡ 10)
    × (lone.ptr 8 ≡ 8)
    × (lone.size 8 ≡ 2)
    × (lone.size 5 ≡ 3)
unfolding initialize_memory_manager malloc scan fit free free_block find_place insert_block
lone_run = (refl, refl, refl, refl, refl)

free_block-lone_example :
    (h' : Heap) × (free_block 1 5 lone ≡ some h')
    × Linked h'.ptr lone.free_node (5 ∷ []) lone.free_node
    × (0 < h'.size lone.free_node)
    × (5 < lone.free_node)
    × (5 + h'.size 5 ≡ lone.free_node + h'.size lone.free_node)
unfolding initialize_memory_manager malloc scan fit free free_block find_place insert_block
free_block-lone_example =
    free_block-lone lone 5 (one-Free lone 8 refl (omega arith) (omega arith))
      (record {
        some_units = omega arith;
        inside = omega arith;
        out = (omega arith, tt);
        apart = λ b m. elim m [ inl e ↦ rw e (inl (omega arith)) | inr k ↦ absurd k ];
      })
      refl 0

-- A heap with one block handed out.
abbrev start : Heap
start = allocated 16 heap

malloc-Allocated_example :
    (r : Option ℕ × Heap) × (malloc 1 16 heap
      ≡ some (elim r.0 [ none ↦ 0 | some a ↦ address r.1 a ], r.1))
    × ((cs : List ℕ) × Allocated r.1 cs (with r.0 [])
        × Served (units_for 16) cs r
        × SameSizes r.1 heap [])
malloc-Allocated_example =
    malloc-Allocated 1 16 [] [] heap (omega arith)
      (initialize_memory_manager-Allocated 4096 144 no_heap (omega arith)) (omega arith)

start-Allocated : Allocated start [] (8 ∷ [])
unfolding initialize_memory_manager malloc scan fit
start-Allocated = record {
  free = one-Free start 0 refl (omega arith) (omega arith);
  held = λ y m. elim m [
    | inl e ↦ rw e (record {
      some_units = omega arith;
      inside = omega arith;
      out = (omega arith, tt);
      apart = λ b k. elim k [ inl d ↦ rw d (inr (omega arith)) | inr l ↦ absurd l ];
    })
    | inr k ↦ absurd k
  ];
  distinct = (tt, tt);
  apart = λ y z l m ne. elim l [
    | inl e ↦ elim m [ inl d ↦ absurd (ne (e ∙ sym d)) | inr k ↦ absurd k ]
    | inr k ↦ absurd k
  ];
  all_units = refl;
}

free-Allocated_example :
    (h' : Heap) × (free 1 (address start 8) start ≡ some h')
    × ((cs : List ℕ) × Allocated h' cs (remove 8 (8 ∷ [])) × SameSizes h' start (remove 8 (8 ∷ [])))
unfolding initialize_memory_manager malloc scan fit
free-Allocated_example =
    free-Allocated 1 8 [] (8 ∷ []) start start-Allocated (inl refl) (λ e. omega arith) (omega arith)
