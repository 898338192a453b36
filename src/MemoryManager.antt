-- ===== src/MemoryManager.antt =====
-- Kernel/memoryManagement/memoryManager.c: the memory manager of a circular list of free blocks. A
-- header is 16 bytes, and all headers stand a multiple of 16 bytes behind the base, so that a header is
-- named by its number of units from the base. The fields of the headers are functions of it.
mod Circle
mod Fit
mod Ends
mod Malloc
mod Walk
mod Insert
mod Rotation
mod Release
mod Freeing
mod Frame
mod Around
mod Allocated
mod Start
mod Returned
mod Tests
use dog_os.Prelude.{
  ℕ, zero, suc, ◌+◌, ◌-◌, ◌*◌, ◌/◌, ◌%◌, ◌^◌, Bool, true, false, not, ◌&&◌, ◌||◌, Option, none,
  some, ltb, leb, ◌==◌, if◌then◌else◌, put, put_self, put_ne,
}

-- The static variables, and the fields `ptr` and `size` of the headers.
pub record Heap : Type 0 where
  pub base : ℕ
  pub free_node : ℕ
  pub total_units : ℕ
  pub ptr : ℕ → ℕ
  pub size : ℕ → ℕ

abbrev pub size_of_header : ℕ
size_of_header = 16

-- The address behind the header, where the memory of its block starts.
abbrev pub address : Heap → ℕ → ℕ
address h a = h.base + size_of_header * (a + 1)

-- `initializeMemoryManager`
unfoldable pub initialize_memory_manager : (heap_base heap_size : ℕ) → Heap → Heap
initialize_memory_manager heap_base heap_size h =
    let units = (heap_size + size_of_header - 1) % 2 ^ 64 / size_of_header + 1 in
    if heap_base == 0 then h else record {
      base = heap_base;
      free_node = 0;
      total_units = units;
      ptr = put h.ptr 0 0;
      size = put h.size 0 units;
    }

-- The units of a block for so many bytes, its header included.
abbrev pub units_for : ℕ → ℕ
units_for nbytes = (nbytes + size_of_header - 1) % 2 ^ 64 / size_of_header + 1

-- `malloc` at a free block that is large enough: the header of the block that is handed out, or `none`
-- for NULL, which is returned when it is the node before it.
unfoldable pub fit : (n prev cur : ℕ) → Heap → Option ℕ × Heap
fit n prev cur h =
    let whole = record h { ptr = put h.ptr prev (h.ptr cur); free_node = prev } in
    let rest = h.size cur - n in
    let split = record h { size = put (put h.size cur rest) (cur + rest) n; free_node = prev } in
    if h.size cur == n
    then (if cur == prev then none else some cur, whole)
    else (if cur + rest == prev then none else some (cur + rest), split)

-- The loop of `malloc`, on fuel.
unfoldable pub scan : ℕ → (n prev cur : ℕ) → Heap → Option (Option ℕ × Heap)
unfolding fit
scan zero n prev cur h = none
scan (suc fuel) n prev cur h = elim (leb n (h.size cur)) [
  | true ↦ some (fit n prev cur h)
  | false ↦ elim (cur == h.free_node) [
    | true ↦ some (none, h)
    | false ↦ scan fuel n cur (h.ptr cur) h
  ]
]

-- `malloc`: the address, 0 for NULL.
unfoldable pub malloc : ℕ → ℕ → Heap → Option (ℕ × Heap)
unfolding scan
malloc fuel nbytes h = elim (nbytes == 0) [
  | true ↦ some (0, h)
  | false ↦ elim (scan fuel (units_for nbytes) h.free_node (h.ptr h.free_node) h) [
    | none ↦ none
    | some (none, h') ↦ some (0, h')
    | some (some a, h') ↦ some (address h' a, h')
  ]
]

-- Where the loop of `free` stops: in front of the place of the block, with what `external` is, or at a
-- block that is free already.
pub data Place : Type 0 where
  between outside : ℕ → Place
  already : Place

unfoldable pub find_place : ℕ → (block cur : ℕ) → Heap → Option Place
find_place zero block cur h = none
find_place (suc fuel) block cur h = elim (ltb cur block && ltb block (h.ptr cur)) [
  | true ↦ some (between cur)
  | false ↦ elim ((block == cur) || (block == h.ptr cur)) [
    | true ↦ some already
    | false ↦ elim (leb (h.ptr cur) cur && (ltb cur block || ltb block (h.ptr cur))) [
      | true ↦ some (outside cur)
      | false ↦ find_place fuel block (h.ptr cur) h
    ]
  ]
]

-- The two mergers at the end of `free`, behind and in front.
unfoldable pub insert_block : (block cur : ℕ) → Heap → Heap
insert_block block cur h =
    let next = h.ptr cur in
    let h₁ =
      if block + h.size block == next
      then record h {
        size = put h.size block (h.size block + h.size next);
        ptr = put h.ptr block (h.ptr next);
      }
      else record h { ptr = put h.ptr block next } in
    let h₂ =
      if cur + h₁.size cur == block
      then record h₁ {
        size = put h₁.size cur (h₁.size cur + h₁.size block);
        ptr = put h₁.ptr cur (h₁.ptr block);
      }
      else record h₁ { ptr = put h₁.ptr cur block } in
    record h₂ { free_node = cur }

-- `free` of a header, once it is known to be one of the heap.
unfoldable pub free_block : ℕ → ℕ → Heap → Option Heap
unfolding find_place insert_block
free_block fuel block h = elim (find_place fuel block h.free_node h) [
  | none ↦ none
  | some already ↦ some h
  | some (outside cur) ↦ some (insert_block block cur h)
  | some (between cur) ↦ some (
      if ltb block (cur + h.size cur) || ltb (h.ptr cur) (block + h.size block)
      then h
      else insert_block block cur h)
]

-- `free` of an address. The bound of the check is `total_units` times 16 units, as in the code.
unfoldable pub free : ℕ → ℕ → Heap → Option Heap
unfolding free_block
free fuel block h =
    let a = (block - h.base) / size_of_header - 1 in
    elim ((block == 0) || not ((block + 2 ^ 64 - h.base) % size_of_header == 0)) [
      | true ↦ some h
      | false ↦
          elim (ltb block (h.base + size_of_header) || leb (h.total_units * size_of_header) a) [
            | true ↦ some h
            | false ↦ free_block fuel a h
          ]
    ]
