-- ===== src/Modules/Packer/Image.antt =====
-- The image that the packer of modules writes: the kernel, the number of modules, and each module behind
-- its size.
use dog_os.Prelude.{
  ℕ, zero, suc, ◌+◌, ◌-◌, ◌/◌, ◌≤◌, ◌≡◌, refl, ap, ◌∙◌, true, false, some, List, [], ◌∷◌, ◌++◌,
  append_assoc, append-nil, ltb, inl, inr, length, take, drop, take_all, arith, Bool-cases,
}
use dog_os.Modules.Packer.{
  buffer_size, Source, write_file, bytes32, Files, opened, fread, write_size, append_modules,
  build_image,
}

-- The modules of an image.
abbrev pub records : List (List ℕ) → List ℕ
records [] = []
records (f ∷ fs) = bytes32 (length f) ++ (f ++ records fs)

-- The files have these names, and can be read.
abbrev pub Named : Files → List ℕ → List (List ℕ) → Type 0
Named files [] [] = Unit
Named files (name ∷ names) (f ∷ fs) = (files name ≡ some f) × Named files names fs
Named files [] (f ∷ fs) = ⊥
Named files (name ∷ names) [] = ⊥

-- The fuel is enough for each file.
abbrev pub Enough : ℕ → List (List ℕ) → Type 0
Enough fuel [] = Unit
Enough fuel (f ∷ fs) = (length f / buffer_size + 2 ≤ fuel) × Enough fuel fs

take-drop : (n : ℕ) (xs : List ℕ) → take n xs ++ drop n xs ≡ xs
take-drop zero xs = refl
take-drop (suc n) [] = refl
take-drop (suc n) (x ∷ xs) = ap (λ l. x ∷ l) (take-drop n xs)

length-drop : (n : ℕ) (xs : List ℕ) → length (drop n xs) ≡ length xs - n
length-drop zero xs = omega arith
length-drop (suc n) [] = omega arith
length-drop (suc n) (x ∷ xs) = omega (arith, length-drop n xs)

write_file_step :
    (fuel : ℕ) (target : List ℕ) (source : Source)
    → source.eof ≡ false
    → write_file (suc fuel) target source
      ≡ write_file fuel (target ++ (fread buffer_size source).0) (fread buffer_size source).1
unfolding write_file
write_file_step fuel target source h = rw h

write_file_end :
    (fuel : ℕ) (target : List ℕ) (source : Source)
    → source.eof ≡ true
    → write_file (suc fuel) target source ≡ some target
unfolding write_file
write_file_end fuel target source h = rw h

-- A whole file is written behind what the target holds.
pub write_file-whole :
    (fuel : ℕ) (target content : List ℕ)
    → length content / buffer_size + 2 ≤ fuel
    → write_file fuel target (opened content) ≡ some (target ++ content)
write_file-whole zero target content enough = absurd (omega arith)
write_file-whole (suc zero) target content enough = absurd (omega arith)
write_file-whole (suc (suc fuel)) target content enough =
    elim (Bool-cases (ltb (length content) buffer_size)) [
      | inl last ↦
          write_file_step (suc fuel) target (opened content) refl
          ∙ write_file_end fuel _ (fread buffer_size (opened content)).1 (rw last)
          ∙ ap (λ l. some (target ++ l)) (take_all buffer_size content (ground arith))
      | inr more ↦
          let left : List ℕ = drop buffer_size content in
          let shorter : length left ≡ length content - buffer_size =
            length-drop buffer_size content in
          let longer : buffer_size ≤ length content = ground arith in
          let on : (fread buffer_size (opened content)).1 ≡ opened left =
            ap (λ b. record { ahead = left; eof = b }) (rw more) in
          write_file_step (suc fuel) target (opened content) refl
          ∙ ap (write_file (suc fuel) (target ++ take buffer_size content)) on
          ∙ write_file-whole (suc fuel) (target ++ take buffer_size content) left
              (omega (arith, shorter, longer, enough))
          ∙ ap some (append_assoc target (take buffer_size content) left)
          ∙ ap (λ l. some (target ++ l)) (take-drop buffer_size content)
    ]

append_modules-records :
    (fuel : ℕ) (files : Files) (target : List ℕ) (names : List ℕ) (fs : List (List ℕ))
    → Named files names fs
    → Enough fuel fs
    → append_modules fuel files target names ≡ some (target ++ records fs)
unfolding append_modules write_size
append_modules-records fuel files target [] [] named enough = rw append-nil
append_modules-records fuel files target [] (f ∷ fs) named enough = elim named [ ]
append_modules-records fuel files target (name ∷ names) [] named enough = elim named [ ]
append_modules-records fuel files target (name ∷ names) (f ∷ fs) named enough =
    let sized : List ℕ = target ++ bytes32 (length f) in
    rw (named.0, write_file-whole fuel sized f enough.0)
      (append_modules-records fuel files (sized ++ f) names fs named.1 enough.1
        ∙ ap some (
            append_assoc sized f (records fs)
            ∙ append_assoc target (bytes32 (length f)) (f ++ records fs)))

-- `buildImage` of files that can be read ends, with two rounds of fuel more than the longest file fills
-- buffers, and writes the kernel, the number of the modules, and each module behind its size.
pub build_image-records :
    (fuel : ℕ) (files : Files) (kernel : ℕ) (names : List ℕ) (content : List ℕ) (fs : List (List ℕ))
    → Named files (kernel ∷ names) (content ∷ fs)
    → Enough fuel (content ∷ fs)
    → build_image fuel files (kernel ∷ names)
      ≡ some (content ++ (bytes32 (length names) ++ records fs))
unfolding build_image
build_image-records fuel files kernel names content fs named enough =
    rw (named.0, write_file-whole fuel [] content enough.0)
      (append_modules-records fuel files (content ++ bytes32 (length names)) names fs named.1
          enough.1
        ∙ ap some (append_assoc content (bytes32 (length names)) (records fs)))
