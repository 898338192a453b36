-- ===== src/Buddy/Tests.antt =====
-- The memory manager of buddy.c on small inputs, and its theorems at them.
use dog_os.Prelude.{ℕ, ◌+◌, ◌^◌, ◌≤◌, ◌<◌, ◌≡◌, ◌⊎◌, inr, refl, Option, none, some, arith}
use dog_os.Prelude.Int.{pos}
use dog_os.KernelPrints.{log2, log2_loop}
use dog_os.BuddyList.{list_initialize, list_push, list_remove, list_pop}
use dog_os.Buddy.{
  Buddy, get_minimum_suitable_bucket, get_available_bucket, get_node_buddy, get_node_address,
  int_bit, add_node_to_bucket, initialize_buckets, initialize_memory_manager, available_from,
  malloc, split, free, merge,
}
use dog_os.Buddy.Levels.{get_minimum_suitable_bucket-least}
use dog_os.Buddy.Pairs.{first_of, second_of, get_node_buddy-pair}

-- 256 bytes from 4096 on, in the buckets 0 to 4.
abbrev heap : Buddy
heap = initialize_memory_manager 4096 256 (record {
  buckets = 1000;
  maximum_bucket_size = 0;
  base_ptr = 0;
  buckets_amount = 0;
  links = record { prev = λ a. 0; next = λ a. 0 };
  bucket = λ a. 0;
  free = λ a. 0;
})

abbrev address : Option (ℕ × Buddy) → ℕ
address none = 1
address (some (a, h)) = a

abbrev after : Option (ℕ × Buddy) → Buddy
after none = heap
after (some (a, h)) = h

abbrev released : Option Buddy → Buddy
released none = heap
released (some h) = h

-- A block of 32 bytes is the first of its pair, and free makes the heap whole again.
malloc_run :
    (address (malloc 8 heap) ≡ 4120)
    × (heap.buckets_amount ≡ 5)
    × ((after (malloc 8 heap)).bucket 4096 ≡ 1)
    × (get_available_bucket 0 (after (malloc 8 heap)) ≡ pos 1)
    × ((released (free 9 4120 (after (malloc 8 heap)))).bucket 4096 ≡ 4)
    × (get_available_bucket 0 (released (free 9 4120 (after (malloc 8 heap)))) ≡ pos 4)
unfolding initialize_memory_manager initialize_buckets list_initialize add_node_to_bucket list_push
    list_pop list_remove log2 log2_loop get_minimum_suitable_bucket get_available_bucket
    available_from malloc split get_node_buddy get_node_address int_bit free merge
malloc_run = (refl, refl, refl, refl, refl, refl)

get_minimum_suitable_bucket-least_example :
    (33 ≤ 2 ^ (4 + get_minimum_suitable_bucket 33))
    × ((get_minimum_suitable_bucket 33 ≡ 0) ⊎ (2 ^ (3 + get_minimum_suitable_bucket 33) < 33))
get_minimum_suitable_bucket-least_example =
    get_minimum_suitable_bucket-least 33 (omega arith) (omega arith)

-- The second of the blocks of 32 bytes.
abbrev small : Buddy
small = record heap { base_ptr = 4096; bucket = λ a. 1 }

get_node_buddy-pair_example :
    ((4128 ≡ 4096 + first_of 0 5)
      × (get_node_buddy 4128 small ≡ 4128 + 2 ^ 5)
      × (get_node_address 4128 small ≡ 4128))
    ⊎ ((4128 ≡ 4096 + second_of 0 5)
        × (get_node_buddy 4128 small + 2 ^ 5 ≡ 4128)
        × (get_node_address 4128 small ≡ get_node_buddy 4128 small))
get_node_buddy-pair_example =
    get_node_buddy-pair 0 small 4128 (omega arith) (omega arith) (omega arith) (inr refl)

-- No bucket is in use.
abbrev full : Buddy
full = record heap { buckets_amount = 5; links = record { prev = λ a. a; next = λ a. a } }
