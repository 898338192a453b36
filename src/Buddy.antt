-- ===== src/Buddy.antt =====
-- Kernel/memoryManagement/buddy.c: the memory manager of blocks whose sizes are powers of 2. Pointers are
-- addresses; the fields of the nodes are functions of them, the lists are those of buddyList.c.
mod Levels
mod Bits
mod Pairs
mod Buckets
mod Tests
use dog_os.Prelude.{
  ℕ, zero, suc, ◌+◌, ◌-◌, ◌*◌, ◌^◌, ◌%◌, Bool, true, false, not, ◌&&◌, ◌||◌, Option, none, some,
  ltb, leb, ◌==◌, if◌then◌else◌, put, bit_and, bit_xor,
}
use dog_os.Prelude.Int.{ℤ, pos, negsuc, minus_one, to_u64}
use dog_os.KernelPrints.{log2}
use dog_os.BuddyList.{Links, list_initialize, list_push, list_remove, list_pop, list_is_empty}

abbrev pub min_alloc_log2 : ℕ
min_alloc_log2 = 4

abbrev pub max_alloc_log2 : ℕ
max_alloc_log2 = 31

abbrev pub max_bucket_count : ℕ
max_bucket_count = max_alloc_log2 - min_alloc_log2

-- The size of a `list_t`.
abbrev pub size_of_node : ℕ
size_of_node = 24

-- The static variables and the fields of the nodes. `buckets` is the address of the array of heads.
pub record Buddy : Type 0 where
  pub buckets : ℕ
  pub maximum_bucket_size : ℕ
  pub base_ptr : ℕ
  pub buckets_amount : ℕ
  pub links : Links
  pub bucket : ℕ → ℕ
  pub free : ℕ → ℕ

-- The head of the list of a bucket: `&buckets[i]`.
abbrev pub head : Buddy → ℕ → ℕ
head h i = h.buckets + size_of_node * i

-- `addNodeToBucket`
unfoldable pub add_node_to_bucket : (bucket_list node bucket_level : ℕ) → Buddy → Buddy
unfolding list_push
add_node_to_bucket bucket_list node bucket_level h = record h {
  bucket = put h.bucket node bucket_level;
  free = put h.free node 1;
  links = list_push bucket_list node h.links;
}

-- An `int` in a place that takes a `uint8_t`.
abbrev pub to_u8 : ℤ → ℕ
to_u8 (pos n) = n % 256
to_u8 (negsuc n) = 255 - n % 256

-- `getMinimumSuitableBucket`. `log2` takes the low 32 bits; its -1
-- becomes the largest `size_t`.
unfoldable pub get_minimum_suitable_bucket : ℕ → ℕ
get_minimum_suitable_bucket request =
    let request_log2 = to_u64 (log2 (request % 2 ^ 32)) in
    if ltb request_log2 min_alloc_log2
    then 0
    else (if not (request == 0) && (bit_and request (request - 1) == 0)
        then request_log2 - min_alloc_log2
        else request_log2 - min_alloc_log2 + 1)

-- The loop of `getAvailableBucket`, on the number of buckets from the place on.
unfoldable pub available_from : ℕ → ℕ → Buddy → ℕ
available_from zero i h = i
available_from (suc n) i h =
    let rest = available_from n (i + 1) h in if list_is_empty (head h i) h.links then rest else i

-- `getAvailableBucket`
unfoldable pub get_available_bucket : ℕ → Buddy → ℤ
unfolding available_from
get_available_bucket min_bucket_required h =
    let available = available_from (h.buckets_amount - min_bucket_required) min_bucket_required h in
    if ltb h.buckets_amount available then minus_one else pos available

-- `getNodeBuddy`
-- `1 << n` as a `uintptr_t`: the 1 is an `int`, which is negative when its sign bit is set. From 32 on the
-- shift is what the instruction does, which counts modulo 32.
unfoldable pub int_bit : ℕ → ℕ
int_bit n = if ltb (n % 32) 31 then 2 ^ (n % 32) else 2 ^ 64 - 2 ^ 31

-- `getNodeBuddy`
unfoldable pub get_node_buddy : ℕ → Buddy → ℕ
unfolding int_bit
get_node_buddy node h =
    let offset = bit_xor (node - h.base_ptr) (int_bit (min_alloc_log2 + h.bucket node)) in
    (h.base_ptr + offset) % 2 ^ 64

-- `getNodeAddress`: the complement of the mask has 64 bits.
unfoldable pub get_node_address : ℕ → Buddy → ℕ
unfolding int_bit
get_node_address node h =
    let mask = 2 ^ 64 - 1 - int_bit (min_alloc_log2 + h.bucket node) in
    (bit_and (node - h.base_ptr) mask + h.base_ptr) % 2 ^ 64

-- The loop of `initializeMemoryManager`.
unfoldable pub initialize_buckets : ℕ → ℕ → Buddy → Buddy
unfolding list_initialize
initialize_buckets zero i h = h
initialize_buckets (suc n) i h = initialize_buckets n (i + 1) (record h {
  links = list_initialize (head h i) h.links;
  free = put h.free (head h i) 0;
  bucket = put h.bucket (head h i) i;
})

-- `initializeMemoryManager`
unfoldable pub initialize_memory_manager : (heap_base heap_size : ℕ) → Buddy → Buddy
unfolding initialize_buckets add_node_to_bucket
initialize_memory_manager heap_base heap_size h =
    let levels = (to_u8 (log2 (heap_size % 2 ^ 32)) + 256 - min_alloc_log2 + 1) % 256 in
    let amount = if ltb max_bucket_count levels then max_bucket_count else levels in
    let ready = initialize_buckets amount 0 (record h {
      base_ptr = heap_base;
      maximum_bucket_size = heap_size;
      buckets_amount = amount;
    }) in
    if heap_base == 0
    then h
    else add_node_to_bucket (head ready amount - size_of_node) heap_base ((amount + 255) % 256)
        ready

-- The loop of `malloc` that splits a block of the bucket `available`, on the number of buckets down to the ideal one.
unfoldable pub split : ℕ → (available node : ℕ) → Buddy → Buddy
unfolding add_node_to_bucket get_node_buddy
split zero available node h = h
split (suc n) available node h =
    let smaller = record h { bucket = put h.bucket node ((h.bucket node + 255) % 256) } in
    split n (available - 1) node (
      add_node_to_bucket (head smaller (available - 1)) (get_node_buddy node smaller)
        (available - 1) smaller)

-- The loop of `free` that merges buddies, on fuel: the node of the whole block.
unfoldable pub merge : ℕ → ℕ → Buddy → Option (ℕ × Buddy)
unfolding get_node_buddy get_node_address list_remove
merge zero node h = none
merge (suc fuel) node h =
    let buddy = get_node_buddy node h in
    let address = get_node_address node h in
    elim (not (h.bucket node + 1 == h.buckets_amount)
      && ((h.bucket buddy == h.bucket node) && not (h.free buddy == 0))) [
        | false ↦ some (node, h)
        | true ↦ merge fuel address (record h {
          links = list_remove buddy h.links;
          bucket = put h.bucket address ((h.bucket address + 1) % 256);
        })
      ]

-- `free`
unfoldable pub free : ℕ → ℕ → Buddy → Option Buddy
unfolding merge list_push
free fuel block h =
    let node = block - size_of_node in
    elim (block == 0) [
      | true ↦ some h
      | false ↦ elim (merge fuel node (record h { free = put h.free node 1 })) [
        | none ↦ none
        | some (node', h') ↦
            some (record h' { links = list_push (head h' (h'.bucket node')) node' h'.links })
      ]
    ]

-- `malloc`: the address, 0 for NULL; `none` when the node is taken from a list that is empty.
unfoldable pub malloc : ℕ → Buddy → Option (ℕ × Buddy)
unfolding get_minimum_suitable_bucket get_available_bucket list_pop split
malloc nbytes h =
    let bytes_needed = (nbytes + size_of_node) % 2 ^ 64 in
    let ideal = get_minimum_suitable_bucket bytes_needed % 256 in
    elim ((nbytes == 0) || ltb (h.maximum_bucket_size + 1) bytes_needed) [
      | true ↦ some (0, h)
      | false ↦ elim (get_available_bucket ideal h) [
        | negsuc _ ↦ some (0, h)
        | pos available ↦
            let (popped, k) = list_pop (head h available) h.links in
            elim popped [
              | none ↦ none
              | some node ↦
                  let taken = split (available - ideal) available node (record h { links = k }) in
                  some (node + size_of_node, record taken { free = put taken.free node 0 })
            ]
      ]
    ]
