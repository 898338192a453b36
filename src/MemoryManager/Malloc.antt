-- ===== src/MemoryManager/Malloc.antt =====
-- `malloc` of memoryManagement/memoryManager.c on a circle of free blocks.
use dog_os.Prelude.{
  ℕ, zero, suc, ◌+◌, ◌≤◌, ◌<◌, ◌≡◌, ◌≢◌, ◌⊎◌, inl, inr, ◌∙◌, refl, sym, ap, subst, true, false,
  Option, none, some, List, [], ◌∷◌, ◌++◌, arith, leb, ◌==◌, append_assoc, length, ◌∈◌, ne_of_mem,
}
use mathlib.Core.List.{head-eq_of_cons-eq, tail-eq_of_cons-eq}
use native.Mathlib.Decide.{dec_lt}
use dog_os.MemoryManager.{Heap, scan, malloc, units_for, address}
use dog_os.MemoryManager.Circle.{units, units-append, Free, rotate}
use dog_os.MemoryManager.Fit.{Taken, fit-whole}
use dog_os.MemoryManager.Ends.{Outcome, Ends, split-Ends, single-Ends}

-- The last block of a list, taken to the front of another.
snoc-cons : (bs : List ℕ) (p : ℕ) → (d : ℕ) × (ds : List ℕ) × (bs ++ (p ∷ []) ≡ d ∷ ds)
snoc-cons [] p = (p, [], refl)
snoc-cons (b ∷ bs) p = (b, bs ++ (p ∷ []), refl)

mem_middle : (x : ℕ) (xs ys : List ℕ) → x ∈ (xs ++ (x ∷ ys))
mem_middle x [] ys = inl refl
mem_middle x (y ∷ xs) ys = inr (mem_middle x xs ys)

-- The loop ends at a block that is large enough.
large-Ends :
    (fuel n p c : ℕ) (bs : List ℕ) (h : Heap)
    → Free h p (c ∷ bs)
    → n ≤ h.size c
    → 0 < n
    → Ends (suc fuel) n p c (units h.size (p ∷ c ∷ bs)) h
unfolding scan
large-Ends fuel n p c bs h f fits pos = elim (dec_lt n (h.size c)) [
  | yes small ↦ split-Ends fuel n p c p (c ∷ bs) h f (inr (inl refl)) (inl refl) refl small pos
  | no big ↦
      let (h', done, start, f', taken, sum) = fit-whole h p c n bs f (omega arith) in
      let large : leb n (h.size c) ≡ true = ground arith in
      (
        (some c, h'),
        rw (large, scan) (ap some done),
        (
          bs,
          subst (λ x. Free h' x bs) (sym start) f',
          subst (λ x. Taken h' c n x bs) (sym start) taken,
          subst (λ x. units h'.size (x ∷ bs) + n ≡ units h.size (p ∷ c ∷ bs)) (sym start) sum,
        ),
      )
]

-- The loop gives up at the first block, when it has passed over all.
none-Ends :
    (fuel n p c : ℕ) (bs : List ℕ) (h : Heap)
    → Free h p (c ∷ bs)
    → c ≡ h.free_node
    → h.size c < n
    → ((b : ℕ) → b ∈ (bs ++ (p ∷ [])) → h.size b < n)
    → Ends (suc fuel) n p c (units h.size (p ∷ c ∷ bs)) h
unfolding scan
none-Ends fuel n p c bs h f at short passed =
    let other : leb n (h.size c) ≡ false = ground arith in
    let last : (c == h.free_node) ≡ true = ground (arith, at) in
    let f' = rotate h p c bs f in
    let us : List ℕ = bs ++ (p ∷ []) in
    let sum : units h.size (c ∷ us) ≡ units h.size (p ∷ c ∷ bs) =
      omega (arith, units-append h.size bs (p ∷ [])) in
    (
      (none, h),
      rw (other, scan) (rw (last, scan) refl),
      (
        us,
        subst (λ x. Free h x us) at f',
        subst (λ x. units h.size (x ∷ us) ≡ units h.size (p ∷ c ∷ bs)) at sum,
        λ b hb. elim hb [
          | inl e ↦ let size : h.size b ≡ h.size c = ap h.size (e ∙ sym at) in omega arith
          | inr k ↦ omega (arith, passed b k)
        ],
      ),
    )

mem_snoc : (b x : ℕ) (xs : List ℕ) → b ∈ (xs ++ (x ∷ [])) → (b ∈ xs) ⊎ (b ≡ x)
mem_snoc b x [] (inl e) = inr e
mem_snoc b x [] (inr k) = elim k [ ]
mem_snoc b x (y ∷ xs) (inl e) = inl (inl e)
mem_snoc b x (y ∷ xs) (inr k) = elim (mem_snoc b x xs k) [ inl l ↦ inl (inr l) | inr e ↦ inr e ]

scan-next :
    (fuel n p c d : ℕ) (h : Heap)
    → h.size c < n
    → c ≢ h.free_node
    → h.ptr c ≡ d
    → scan (suc fuel) n p c h ≡ scan fuel n c d h
unfolding scan
scan-next fuel n p c d h short ne next =
    let other : leb n (h.size c) ≡ false = ground arith in
    let more : (c == h.free_node) ≡ false = ground (arith, ne) in
    rw (other, scan) (rw (more, scan) (rw next refl))

-- In front of `c` the blocks of `post` were passed over, and those of `pre` come before the first
-- block, where the loop gives up.
scan-Ends :
    (fuel n p c : ℕ) (bs pre post : List ℕ) (h : Heap)
    → Free h p (c ∷ bs)
    → c ∷ (bs ++ (p ∷ [])) ≡ pre ++ (h.free_node ∷ post)
    → ((b : ℕ) → b ∈ post → h.size b < n)
    → length pre < fuel
    → 0 < n
    → Ends fuel n p c (units h.size (p ∷ c ∷ bs)) h
scan-Ends zero n p c bs pre post h f at passed enough pos = absurd (omega arith)
scan-Ends (suc fuel) n p c bs [] post h f at passed enough pos = elim (dec_lt (h.size c) n) [
  | no fits ↦ large-Ends fuel n p c bs h f (omega arith) pos
  | yes short ↦
      none-Ends fuel n p c bs h f (head-eq_of_cons-eq at) short
        (subst (λ l. (b : ℕ) → b ∈ l → h.size b < n) (sym (tail-eq_of_cons-eq at)) passed)
]
scan-Ends (suc fuel) n p c bs (x ∷ pre) post h f at passed enough pos = elim (dec_lt (h.size c) n) [
  | no fits ↦ large-Ends fuel n p c bs h f (omega arith) pos
  | yes short ↦
      let (d, ds, e) = snoc-cons bs p in
      let f' : Free h c (d ∷ ds) = subst (λ l. Free h c l) e (rotate h p c bs f) in
      let rest : bs ++ (p ∷ []) ≡ pre ++ (h.free_node ∷ post) = tail-eq_of_cons-eq at in
      let at' : d ∷ (ds ++ (c ∷ [])) ≡ pre ++ (h.free_node ∷ (post ++ (c ∷ []))) =
        ap (λ l. l ++ (c ∷ [])) (sym e ∙ rest) ∙ append_assoc pre (h.free_node ∷ post) (c ∷ []) in
      let passed' : (b : ℕ) → b ∈ (post ++ (c ∷ [])) → h.size b < n = λ b hb.
        elim (mem_snoc b c post hb) [
          | inl k ↦ passed b k
          | inr same ↦ let size : h.size b ≡ h.size c = ap h.size same in omega arith
        ] in
      let mem : h.free_node ∈ (d ∷ ds) =
        subst (λ l. h.free_node ∈ l) (sym (sym e ∙ rest)) (mem_middle h.free_node pre post) in
      let (r, done, outcome) =
        scan-Ends fuel n c d ds pre (post ++ (c ∷ [])) h f' at' passed' (omega arith) pos in
      let ne = ne_of_mem h.free_node c (d ∷ ds) mem f'.distinct.0 in
      let sum : units h.size (c ∷ d ∷ ds) ≡ units h.size (p ∷ c ∷ bs) =
        ap (λ l. h.size c + units h.size l) (sym e)
        ∙ omega (arith, units-append h.size bs (p ∷ [])) in
      (
        r,
        scan-next fuel n p c d h short (λ t. ne (sym t)) f'.linked.0 ∙ done,
        subst (λ u. Outcome n u r) sum outcome,
      )
]

pub start-Ends :
    (fuel n : ℕ) (bs : List ℕ) (h : Heap)
    → 0 < n
    → Free h h.free_node bs
    → length bs < fuel
    → Ends fuel n h.free_node (h.ptr h.free_node) (units h.size (h.free_node ∷ bs)) h
start-Ends zero n bs h pos f enough = absurd (omega arith)
start-Ends (suc fuel) n [] h pos f enough =
    subst (λ c. Ends (suc fuel) n h.free_node c (units h.size (h.free_node ∷ [])) h) (sym f.linked)
      (single-Ends fuel n h.free_node h f refl pos)
start-Ends (suc fuel) n (c ∷ bs) h pos f enough =
    subst (λ d. Ends (suc fuel) n h.free_node d (units h.size (h.free_node ∷ c ∷ bs)) h)
      (sym f.linked.0)
      (scan-Ends (suc fuel) n h.free_node c bs (c ∷ bs) [] h f refl (λ b k. elim k [ ]) enough pos)

pub malloc-scan :
    (fuel nbytes : ℕ) (h : Heap) (r : Option ℕ × Heap)
    → 0 < nbytes
    → scan fuel (units_for nbytes) h.free_node (h.ptr h.free_node) h ≡ some r
    → malloc fuel nbytes h ≡ some (elim r.0 [ none ↦ 0 | some a ↦ address r.1 a ], r.1)
unfolding malloc
malloc-scan fuel nbytes h (none, h') pos done =
    let more : (nbytes == 0) ≡ false = ground arith in rw (more, malloc) (rw (done, malloc) refl)
malloc-scan fuel nbytes h (some a, h') pos done =
    let more : (nbytes == 0) ≡ false = ground arith in rw (more, malloc) (rw (done, malloc) refl)
