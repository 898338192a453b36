-- ===== src/Modules/Load.antt =====
-- The loader of modules against the image that the packer wrote: every module gets to its target.
use dog_os.Prelude.{
  ℕ, suc, ◌+◌, ◌^◌, ◌<◌, ◌≤◌, ◌≡◌, refl, sym, ap, subst, ◌∙◌, inl, inr, some, List, [], ◌∷◌, ◌++◌,
  length, length-append, arith,
}
use mathlib.Core.Option.{some_inj}
use dog_os.Memory.{read32, memcpy}
use dog_os.Memory.Copies.{Apart}
use dog_os.Modules.{Machine, load_loop, load_module, load_modules, read_uint32}
use dog_os.Modules.Packer.{bytes32, Files, build_image}
use dog_os.Modules.Packer.Image.{records, Named, Enough, build_image-records}
use dog_os.Modules.Bytes.{
  Holds, Holds-append, Holds-moved, Disjoint, AreBytes, read32-bytes32, memcpy-outside,
  memcpy-Holds, memcpy-AreBytes,
}

-- A block is apart from the targets of some modules.
abbrev pub Clear : (a n : ℕ) → List ℕ → List (List ℕ) → Type 0
Clear a n [] [] = Unit
Clear a n (t ∷ ts) (f ∷ fs) = Disjoint a n t (length f) × Clear a n ts fs
Clear a n [] (f ∷ fs) = ⊥
Clear a n (t ∷ ts) [] = ⊥

-- Every module is shorter than a 32-bit number can tell, and has a target, apart from those of the others
-- and from the `n` bytes at `p`.
abbrev pub Placed : (p n : ℕ) → List ℕ → List (List ℕ) → Type 0
Placed p n [] [] = Unit
Placed p n (t ∷ ts) (f ∷ fs) =
    (length f < 2 ^ 32) × Disjoint p n t (length f) × Clear t (length f) ts fs × Placed p n ts fs
Placed p n [] (f ∷ fs) = ⊥
Placed p n (t ∷ ts) [] = ⊥

-- The modules stand at their targets.
abbrev pub Loaded : (ℕ → ℕ) → List ℕ → List (List ℕ) → Type 0
Loaded m [] [] = Unit
Loaded m (t ∷ ts) (f ∷ fs) = Holds m t f × Loaded m ts fs
Loaded m [] (f ∷ fs) = ⊥
Loaded m (t ∷ ts) [] = ⊥

-- The loop leaves the machine with the modules at their targets, and every byte outside the targets as
-- it was.
record Outcome (s s' : Machine) (ts : List ℕ) (fs : List (List ℕ)) : Type 0 where
  bytes : AreBytes s'.memory
  loaded : Loaded s'.memory ts fs
  kept : (a n : ℕ) → Clear a n ts fs → (i : ℕ) → i < n → s'.memory (a + i) ≡ s.memory (a + i)

load_module-memory :
    (at target : ℕ) (s : Machine) (size : ℕ)
    → read32 s.memory at ≡ size
    → ((load_module at target s).0 ≡ at + 4 + size)
      × ((load_module at target s).1.memory ≡ memcpy target (at + 4) size s.memory)
unfolding load_module read_uint32
load_module-memory at target s size e =
    (omega (arith, e), ap (λ n. memcpy target (at + 4) n s.memory) e)

-- The records that are left are part of the `n` bytes at `p`, which no target has bytes in.
load_loop-Loaded :
    (fs : List (List ℕ)) (at p n : ℕ) (ts : List ℕ) (s : Machine)
    → AreBytes s.memory
    → Holds s.memory at (records fs)
    → p ≤ at
    → at + length (records fs) ≤ p + n
    → Placed p n ts fs
    → (s' : Machine) × (load_loop (length fs) at ts s ≡ some s') × Outcome s s' ts fs
unfolding load_loop
load_loop-Loaded [] at p n [] s bytes h low high placed =
    (s, refl, record { bytes = bytes; loaded = tt; kept = λ a k c i small. refl })
load_loop-Loaded [] at p n (t ∷ ts) s bytes h low high placed = elim placed [ ]
load_loop-Loaded (f ∷ fs) at p n [] s bytes h low high placed = elim placed [ ]
load_loop-Loaded (f ∷ fs) at p n (t ∷ ts) s bytes h low high (small, off, clear, placed) =
    let (head, body) = Holds-append s.memory at (bytes32 (length f)) (f ++ records fs) h in
    let (here, rest) = Holds-append s.memory (at + 4) f (records fs) body in
    let long = length-append f (records fs) in
    let apart : Apart t (at + 4) (length f) = elim off [
      | inl e ↦ inr (omega arith)
      | inr e ↦ inl (omega arith)
    ] in
    let (next, memory) =
      load_module-memory at t s (length f) (read32-bytes32 s.memory at (length f) small head) in
    let s₁ : Machine = (load_module at t s).1 in
    let bytes₁ : AreBytes s₁.memory =
      subst AreBytes (sym memory) (memcpy-AreBytes t (at + 4) s.memory bytes (length f) apart) in
    let kept₁ : (a k : ℕ)
        → Disjoint a k t (length f)
        → (i : ℕ) → i < k
        → s₁.memory (a + i) ≡ s.memory (a + i) =
      λ a k d i inside.
        ap (λ m. m (a + i)) memory
        ∙ memcpy-outside t (at + 4) s.memory bytes (length f) apart (a + i)
            (elim d [ inl e ↦ inl (omega arith) | inr e ↦ inr (omega arith) ]) in
    let behind : Disjoint (at + 4 + length f) (length (records fs)) t (length f) = elim off [
      | inl e ↦ inl (omega arith)
      | inr e ↦ inr (omega arith)
    ] in
    let (s', run, out) =
      load_loop-Loaded fs (load_module at t s).0 p n ts s₁ bytes₁
        (subst (λ a. Holds s₁.memory a (records fs)) (sym next)
          (Holds-moved s.memory s₁.memory (at + 4 + length f) (at + 4 + length f) (records fs)
            (kept₁ (at + 4 + length f) (length (records fs)) behind) rest))
        (omega (arith, next)) (omega (arith, next)) placed in
    (
      s',
      run,
      record {
        bytes = out.bytes;
        loaded = (
          Holds-moved s₁.memory s'.memory t t f (out.kept t (length f) clear) (
              subst (λ m. Holds m t f) (sym memory)
                (memcpy-Holds t (at + 4) s.memory bytes f apart here)),
          out.loaded,
        );
        kept = λ a k c i inside. out.kept a k c.1 i inside ∙ kept₁ a k c.0 i inside;
      },
    )

Placed-Clear : (p n : ℕ) (ts : List ℕ) (fs : List (List ℕ)) → Placed p n ts fs → Clear p n ts fs
Placed-Clear p n [] [] h = tt
Placed-Clear p n (t ∷ ts) (f ∷ fs) h = (h.1, Placed-Clear p n ts fs h.3)
Placed-Clear p n [] (f ∷ fs) h = elim h [ ]
Placed-Clear p n (t ∷ ts) [] h = elim h [ ]

Named-length :
    (files : Files) (names : List ℕ) (fs : List (List ℕ))
    → Named files names fs
    → length fs ≡ length names
Named-length files [] [] h = refl
Named-length files (name ∷ names) (f ∷ fs) h = ap suc (Named-length files names fs h.1)
Named-length files [] (f ∷ fs) h = elim h [ ]
Named-length files (name ∷ names) [] h = elim h [ ]

load_modules-count :
    (start : ℕ) (ts : List ℕ) (s : Machine) (count : ℕ)
    → read32 s.memory start ≡ count
    → load_modules start ts s ≡ load_loop count (start + 4) ts s
unfolding load_modules read_uint32
load_modules-count start ts s count e = ap (λ n. load_loop n (start + 4) ts s) e

-- When the image that `buildImage` makes of readable files stands in a memory of bytes, and each module
-- has a target apart from the image and the other targets, `loadModules`, from behind the kernel on,
-- returns; then the bytes of every module stand at its target, and the image is as it was. The modules
-- are fewer, and their sizes less, than 2 ^ 32, and the fuel of the packer is enough.
pub load_modules-build_image :
    (fuel : ℕ) (files : Files) (kernel : ℕ) (names : List ℕ) (content : List ℕ) (fs : List (List ℕ))
    → (image : List ℕ) (start : ℕ) (ts : List ℕ) (s : Machine)
    → Named files (kernel ∷ names) (content ∷ fs)
    → Enough fuel (content ∷ fs)
    → build_image fuel files (kernel ∷ names) ≡ some image
    → length names < 2 ^ 32
    → AreBytes s.memory
    → Holds s.memory start image
    → Placed start (length image) ts fs
    → (s' : Machine) × (load_modules (start + length content) ts s ≡ some s')
      × Loaded s'.memory ts fs
      × Holds s'.memory start image
load_modules-build_image fuel files kernel names content fs image start ts s named enough built few
      bytes h placed =
    let count : List ℕ = bytes32 (length names) in
    let packed : image ≡ content ++ (count ++ records fs) =
      some_inj.0
        (sym built ∙ build_image-records fuel files kernel names content fs named enough) in
    let long : length image ≡ length content + (4 + length (records fs)) =
      ap length packed
      ∙ length-append content (count ++ records fs)
      ∙ ap (λ n. length content + n) (length-append count (records fs)) in
    let (body, tail) =
      Holds-append s.memory start content (count ++ records fs)
        (subst (Holds s.memory start) packed h) in
    let (head, rest) = Holds-append s.memory (start + length content) count (records fs) tail in
    let modules : length fs ≡ length names = Named-length files names fs named.1 in
    let number : read32 s.memory (start + length content) ≡ length fs =
      read32-bytes32 s.memory (start + length content) (length names) few head ∙ sym modules in
    let (s', run, out) =
      load_loop-Loaded fs (start + length content + 4) start (length image) ts s bytes rest
        (omega arith) (omega (arith, long)) placed in
    (
      s',
      load_modules-count (start + length content) ts s (length fs) number ∙ run,
      out.loaded,
      Holds-moved s.memory s'.memory start start image
          (out.kept start (length image) (Placed-Clear start (length image) ts fs placed)) h,
    )
