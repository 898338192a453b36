-- ===== src/Start/Tests.antt =====
-- The start of kernel.c with a kernel of two bytes at 256, and modules of three bytes and one.
use dog_os.Prelude.{◌≡◌, refl, some, [], ◌∷◌, inl, arith}
use dog_os.Modules.{Machine}
use dog_os.Modules.Bytes.{Holds}
use dog_os.Modules.Tests.{files, image, machine, built, image_there}
use dog_os.Start.{Linked, initialize_kernel_binary, get_stack_base}
use dog_os.Start.Binary.{initialize_kernel_binary-Loaded}

abbrev linked : Linked
linked = record { bss = 300; end_of_kernel_binary = 258; end_of_kernel = 320 }

initialize_kernel_binary-Loaded_example :
    (s' : Machine) × (initialize_kernel_binary linked machine ≡ some (get_stack_base linked, s'))
    × Holds s'.memory 0x400000 (7 ∷ 8 ∷ 9 ∷ [])
    × Holds s'.memory 0x500000 (5 ∷ [])
initialize_kernel_binary-Loaded_example =
    initialize_kernel_binary-Loaded 3 files 0 1 2 (1 ∷ 2 ∷ []) (7 ∷ 8 ∷ 9 ∷ []) (5 ∷ []) image 256
      linked machine (refl, (refl, (refl, tt))) (omega arith, (omega arith, (omega arith, tt)))
      built refl (λ a. ground arith) image_there
      (
        omega arith,
        inl (omega arith),
        (inl (omega arith), tt),
        (omega arith, inl (omega arith), tt, tt),
      )
      (inl (omega arith), (inl (omega arith), tt))
