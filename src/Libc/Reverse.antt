-- ===== src/Libc/Reverse.antt =====
-- `reverse` of libraries/libc.c against the reversal of a list.
use dog_os.Prelude.{
  ℕ, zero, suc, ◌+◌, ◌-◌, ◌<◌, ◌≤◌, ◌≡◌, ◌∙◌, refl, sym, ap, true, false, List, [], ◌∷◌, ◌++◌,
  append-nil, arith, ltb, append_assoc, get_or, set, length, length-append,
}
use dog_os.Libc.Numbers.{swap, reverse}

abbrev pub reversed : List ℕ → List ℕ
reversed [] = []
reversed (c ∷ cs) = reversed cs ++ (c ∷ [])

-- A list is empty, or one element, or a first one, a middle and a last one.
data Ends : List ℕ → Type 0 where
  nothing : Ends []
  single : (c : ℕ) → Ends (c ∷ [])
  both : (a : ℕ) (mid : List ℕ) (b : ℕ) → Ends (a ∷ (mid ++ (b ∷ [])))

Ends-cons : (a : ℕ) (s : List ℕ) → Ends s → Ends (a ∷ s)
Ends-cons a _ nothing = single a
Ends-cons a _ (single c) = both a [] c
Ends-cons a _ (both c mid b) = both a (c ∷ mid) b

ends : (s : List ℕ) → Ends s
ends [] = nothing
ends (a ∷ s) = Ends-cons a s (ends s)

get_or-skip : (xs ys : List ℕ) (n k : ℕ) → n ≡ length xs + k → get_or (xs ++ ys) n 0 ≡ get_or ys k 0
get_or-skip [] ys n k e = ap (λ i. get_or ys i 0) (omega arith)
get_or-skip (x ∷ xs) ys zero k e = absurd (omega arith)
get_or-skip (x ∷ xs) ys (suc n) k e = get_or-skip xs ys n k (omega arith)

set-skip : (xs ys : List ℕ) (n k v : ℕ) → n ≡ length xs + k → set (xs ++ ys) n v ≡ xs ++ set ys k v
set-skip [] ys n k v e = ap (λ i. set ys i v) (omega arith)
set-skip (x ∷ xs) ys zero k v e = absurd (omega arith)
set-skip (x ∷ xs) ys (suc n) k v e = ap (λ l. x ∷ l) (set-skip xs ys n k v (omega arith))

swap_ends :
    (pre m post : List ℕ) (a b i j : ℕ)
    → i ≡ length pre
    → j ≡ length pre + suc (length m)
    → swap (pre ++ (a ∷ (m ++ (b ∷ post)))) i j ≡ pre ++ (b ∷ (m ++ (a ∷ post)))
swap_ends pre m post a b i j hi hj =
    let s : List ℕ = pre ++ (a ∷ (m ++ (b ∷ post))) in
    let first : get_or s i 0 ≡ a = get_or-skip pre (a ∷ (m ++ (b ∷ post))) i 0 (omega arith) in
    let last : get_or s j 0 ≡ b =
      get_or-skip pre (a ∷ (m ++ (b ∷ post))) j (suc (length m)) hj
      ∙ get_or-skip m (b ∷ post) (length m) 0 (omega arith) in
    let step : set s i b ≡ pre ++ (b ∷ (m ++ (b ∷ post))) =
      set-skip pre (a ∷ (m ++ (b ∷ post))) i 0 b (omega arith) in
    rw last (
      rw first (
        rw step (
          set-skip pre (b ∷ (m ++ (b ∷ post))) j (suc (length m)) a hj
          ∙ ap (λ l. pre ++ (b ∷ l)) (set-skip m (b ∷ post) (length m) 0 a (omega arith)))))

pub reversed-snoc : (s : List ℕ) (b : ℕ) → reversed (s ++ (b ∷ [])) ≡ b ∷ reversed s
reversed-snoc [] b = refl
reversed-snoc (a ∷ s) b = ap (λ l. l ++ (a ∷ [])) (reversed-snoc s b)

-- The loop turns what stands between the two indices around, and nothing else.
reverse-middle :
    (fuel : ℕ) (pre mid post : List ℕ) (i j : ℕ)
    → i ≡ length pre
    → j + 1 ≡ length pre + length mid
    → length mid ≤ fuel
    → Ends mid
    → reverse fuel (pre ++ (mid ++ post)) i j ≡ pre ++ (reversed mid ++ post)
unfolding reverse
reverse-middle zero pre _ post i j hi hj h nothing = refl
reverse-middle zero pre _ post i j hi hj h (single c) = refl
reverse-middle zero pre _ post i j hi hj h (both a m b) = absurd (omega arith)
reverse-middle (suc fuel) pre _ post i j hi hj h nothing =
    let stop : ltb i j ≡ false = ground arith in rw stop refl
reverse-middle (suc fuel) pre _ post i j hi hj h (single c) =
    let stop : ltb i j ≡ false = ground arith in rw stop refl
reverse-middle (suc fuel) pre _ post i j hi hj h (both a m b) =
    let size : length (m ++ (b ∷ [])) ≡ length m + 1 = length-append m (b ∷ []) in
    let more : ltb i j ≡ true = ground (arith, size) in
    let size' : length (pre ++ (b ∷ [])) ≡ length pre + 1 = length-append pre (b ∷ []) in
    let swapped = swap_ends pre m post a b i j hi (omega (arith, size)) in
    let rest =
      reverse-middle fuel (pre ++ (b ∷ [])) m (a ∷ post) (i + 1) (j - 1) (omega (arith, size'))
        (omega (arith, size, size')) (omega (arith, size)) (ends m) in
    let turned : pre ++ (b ∷ (reversed m ++ (a ∷ post)))
        ≡ pre ++ (reversed (a ∷ (m ++ (b ∷ []))) ++ post) =
      sym (
        ap (λ l. pre ++ l)
          (append_assoc (reversed (m ++ (b ∷ []))) (a ∷ []) post
            ∙ ap (λ l. l ++ (a ∷ post)) (reversed-snoc m b))) in
    let loop : List ℕ → List ℕ = λ l. reverse fuel l (i + 1) (j - 1) in
    rw more (
      ap (λ l. loop (swap (pre ++ (a ∷ l)) i j)) (append_assoc m (b ∷ []) post)
      ∙ ap loop (swapped ∙ sym (append_assoc pre (b ∷ []) (m ++ (a ∷ post))))
      ∙ rest
      ∙ append_assoc pre (b ∷ []) (reversed m ++ (a ∷ post))
      ∙ turned)

-- Over the whole string, one round for each character at most, it is the reversal.
pub reverse-reversed :
    (s : List ℕ) → 0 < length s → reverse (length s) s 0 (length s - 1) ≡ reversed s
reverse-reversed s h =
    ap (λ l. reverse (length s) l 0 (length s - 1)) (sym (append-nil s))
    ∙ reverse-middle (length s) [] s [] 0 (length s - 1) (omega arith) (omega arith) (omega arith)
        (ends s)
    ∙ append-nil (reversed s)

pub length-reversed : (s : List ℕ) → length (reversed s) ≡ length s
length-reversed [] = refl
length-reversed (c ∷ s) = omega (arith, length-append (reversed s) (c ∷ []), length-reversed s)
