-- ===== src/Start/Binary.antt =====
-- The modules that the packer put behind the kernel are where they run, once the kernel starts.
use dog_os.Prelude.{
  ℕ, ◌+◌, ◌-◌, ◌<◌, ◌≡◌, refl, ◌∙◌, inl, inr, false, ◌&&◌, ltb, leb, some, List, [], ◌∷◌, length,
  arith,
}
use dog_os.Memory.Copies.{memset-filled}
use dog_os.Modules.{Machine, load_modules}
use dog_os.Modules.Packer.{Files, build_image}
use dog_os.Modules.Packer.Image.{Named, Enough}
use dog_os.Modules.Bytes.{Holds, Holds-moved, Disjoint, AreBytes}
use dog_os.Modules.Load.{Placed, Loaded, Clear, load_modules-build_image}
use dog_os.Start.{
  Linked, clear_bss, initialize_kernel_binary, get_stack_base, sample_code_module_address,
  sample_data_module_address,
}

clear_bss-outside :
    (a n : ℕ) (m : ℕ → ℕ) (b k : ℕ)
    → Disjoint a n b k
    → (i : ℕ) → i < k
    → clear_bss a n m (b + i) ≡ m (b + i)
unfolding clear_bss
clear_bss-outside a n m b k apart i small =
    let outside : (leb a (b + i) && ltb (b + i) (a + n)) ≡ false = elim apart [
      | inl e ↦ ground arith
      | inr e ↦ ground arith
    ] in
    memset-filled a 0 n m (b + i) ∙ rw outside refl

Loaded-clear_bss :
    (a n : ℕ) (m : ℕ → ℕ) (ts : List ℕ) (fs : List (List ℕ))
    → Clear a n ts fs
    → Loaded m ts fs
    → Loaded (clear_bss a n m) ts fs
Loaded-clear_bss a n m [] [] c h = tt
Loaded-clear_bss a n m (t ∷ ts) (f ∷ fs) c h = (
  Holds-moved m (clear_bss a n m) t t f (clear_bss-outside a n m t (length f) c.0) h.0,
  Loaded-clear_bss a n m ts fs c.1 h.1,
)
Loaded-clear_bss a n m [] (f ∷ fs) c h = elim h [ ]
Loaded-clear_bss a n m (t ∷ ts) [] c h = elim h [ ]

initialize_kernel_binary-some :
    (l : Linked) (s s₁ : Machine) (from : ℕ)
    → l.end_of_kernel_binary ≡ from
    → load_modules from (sample_code_module_address ∷ sample_data_module_address ∷ []) s ≡ some s₁
    → initialize_kernel_binary l s
      ≡ some (
        get_stack_base l,
        record s₁ { memory = clear_bss l.bss (l.end_of_kernel - l.bss) s₁.memory },
      )
unfolding initialize_kernel_binary
initialize_kernel_binary-some l s s₁ from end run = rw (end, run)

-- When the kernel stands in memory, packed by `buildImage` with the code module and the data module, and
-- neither the image nor the kernel's zeroed data reach into their targets, `initializeKernelBinary`
-- returns the base of the stack; the two modules then stand at their targets.
pub initialize_kernel_binary-Loaded :
    (fuel : ℕ) (files : Files) (kernel code data_file : ℕ) (content code_bytes data_bytes : List ℕ)
    → (image : List ℕ) (start : ℕ) (l : Linked) (s : Machine)
    → Named files (kernel ∷ code ∷ data_file ∷ []) (content ∷ code_bytes ∷ data_bytes ∷ [])
    → Enough fuel (content ∷ code_bytes ∷ data_bytes ∷ [])
    → build_image fuel files (kernel ∷ code ∷ data_file ∷ []) ≡ some image
    → l.end_of_kernel_binary ≡ start + length content
    → AreBytes s.memory
    → Holds s.memory start image
    → Placed start
        (length image)
        (sample_code_module_address ∷ sample_data_module_address ∷ [])
        (code_bytes ∷ data_bytes ∷ [])
    → Clear l.bss
        (l.end_of_kernel - l.bss)
        (sample_code_module_address ∷ sample_data_module_address ∷ [])
        (code_bytes ∷ data_bytes ∷ [])
    → (s' : Machine) × (initialize_kernel_binary l s ≡ some (get_stack_base l, s'))
      × Holds s'.memory sample_code_module_address code_bytes
      × Holds s'.memory sample_data_module_address data_bytes
initialize_kernel_binary-Loaded fuel files kernel code data_file content code_bytes data_bytes image
      start l s named enough built end bytes h placed clear =
    let ts : List ℕ = sample_code_module_address ∷ sample_data_module_address ∷ [] in
    let fs : List (List ℕ) = code_bytes ∷ data_bytes ∷ [] in
    let (s₁, run, loaded, kept) =
      load_modules-build_image fuel files kernel (code ∷ data_file ∷ []) content fs image start ts s
        named enough built (omega arith) bytes h placed in
    let there = Loaded-clear_bss l.bss (l.end_of_kernel - l.bss) s₁.memory ts fs clear loaded in
    (
      record s₁ { memory = clear_bss l.bss (l.end_of_kernel - l.bss) s₁.memory },
      initialize_kernel_binary-some l s s₁ (start + length content) end run,
      there.0,
      there.1.0,
    )
