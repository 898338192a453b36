-- ===== src/MemoryManager/Fit.antt =====
-- What `malloc` of memoryManagement/memoryManager.c does at a block that is large enough.
use dog_os.Prelude.{
  ℕ, ◌+◌, ◌-◌, ◌≤◌, ◌<◌, ◌≡◌, ◌≢◌, ◌⊎◌, inl, inr, ◌∙◌, refl, sym, ap, subst, true, false, some,
  List, [], ◌∷◌, arith, ◌==◌, Bool-cases, ◌∈◌, ◌∉◌, Distinct, ne_of_mem, put, put_self, put_ne,
}
use dog_os.MemoryManager.{Heap, fit}
use dog_os.MemoryManager.Circle.{Linked, units, Disjoint, Free}

-- A block of `n` units that was handed out: apart from the free ones.
pub record Taken (h : Heap) (c n a : ℕ) (bs : List ℕ) : Type 0 where
  pub size : h.size c ≡ n
  pub inside : c + n ≤ h.total_units
  pub apart : (b : ℕ) → b ∈ (a ∷ bs) → Disjoint c n b (h.size b)

pub Linked-put :
    (f : ℕ → ℕ) (a v b z : ℕ) (bs : List ℕ)
    → a ∉ (b ∷ bs)
    → Linked f b bs z
    → Linked (put f a v) b bs z
Linked-put f a v b z [] (ne, k) l = put_ne f a v b (λ e. ne (sym e)) ∙ l
Linked-put f a v b z (c ∷ bs) (ne, k) (e, l) =
    (put_ne f a v b (λ d. ne (sym d)) ∙ e, Linked-put f a v c z bs k l)

pub units-put_ne : (f : ℕ → ℕ) (a v : ℕ) (bs : List ℕ) → a ∉ bs → units (put f a v) bs ≡ units f bs
units-put_ne f a v [] h = refl
units-put_ne f a v (b ∷ bs) (ne, k) =
    omega (arith, put_ne f a v b (λ e. ne (sym e)), units-put_ne f a v bs k)

units-put :
    (f : ℕ → ℕ) (a v : ℕ) (bs : List ℕ)
    → Distinct bs
    → a ∈ bs
    → units (put f a v) bs + f a ≡ units f bs + v
units-put f a v [] d h = elim h [ ]
units-put f a v (b ∷ bs) (out, d) (inl e) =
    rw (← e) (omega (arith, put_self f a v, units-put_ne f a v bs (rw (← e) at out)))
units-put f a v (b ∷ bs) (out, d) (inr h) =
    omega (arith, put_ne f a v b (λ e. ne_of_mem a b bs h out (sym e)), units-put f a v bs d h)

pub Linked-skip :
    (f : ℕ → ℕ) (p c : ℕ) (bs : List ℕ) → p ∉ bs → Linked f c bs p → Linked (put f p (f c)) p bs p
Linked-skip f p c [] out l = put_self f p (f c) ∙ l
Linked-skip f p c (d ∷ bs) out (e, l) = (put_self f p (f c) ∙ e, Linked-put f p (f c) d p bs out l)

pub skip-mem : (b p c : ℕ) (bs : List ℕ) → b ∈ (p ∷ bs) → b ∈ (p ∷ c ∷ bs)
skip-mem b p c bs (inl e) = inl e
skip-mem b p c bs (inr k) = inr (inr k)

skip-ne : (b p c : ℕ) (bs : List ℕ) → p ≢ c → c ∉ bs → b ∈ (p ∷ bs) → c ≢ b
skip-ne b p c bs ne out (inl e) = λ d. ne (sym (d ∙ e))
skip-ne b p c bs ne out (inr k) = λ d. ne_of_mem b c bs k out (sym d)

-- An exact fit is taken out of the circle.
pub fit-whole :
    (h : Heap) (p c n : ℕ) (bs : List ℕ)
    → Free h p (c ∷ bs)
    → h.size c ≡ n
    → (h' : Heap) × (fit n p c h ≡ (some c, h'))
      × (h'.free_node ≡ p)
      × Free h' p bs
      × Taken h' c n p bs
      × (units h'.size (p ∷ bs) + n ≡ units h.size (p ∷ c ∷ bs))
unfolding fit
fit-whole h p c n bs f e =
    let exact : (h.size c == n) ≡ true = ground (arith, e) in
    let ne : p ≢ c = f.distinct.0.0 in
    let other : (c == p) ≡ false = ground (arith, ne) in
    let keep : (b : ℕ) → b ∈ (p ∷ bs) → b ∈ (p ∷ c ∷ bs) = λ b k. skip-mem b p c bs k in
    (
      record h { ptr = put h.ptr p (h.ptr c); free_node = p },
      rw (exact, fit) (rw (other, fit) refl),
      refl,
      record {
        linked = Linked-skip h.ptr p c bs f.distinct.0.1 f.linked.1;
        distinct = (f.distinct.0.1, f.distinct.1.1);
        apart = λ b d hb hd. f.apart b d (keep b hb) (keep d hd);
        inside = λ b hb. f.inside b (keep b hb);
      },
      record {
        size = e;
        inside = omega (arith, e, (f.inside c (inr (inl refl))).1);
        apart = λ b hb.
            subst (λ m. Disjoint c m b (h.size b)) e
              (f.apart c b (inr (inl refl)) (keep b hb) (skip-ne b p c bs ne f.distinct.1.0 hb));
      },
      omega (arith, e),
    )

Disjoint-le : (a m m' b n n' : ℕ) → m' ≤ m → n' ≤ n → Disjoint a m b n → Disjoint a m' b n'
Disjoint-le a m m' b n n' hm hn (inl e) = inl (omega arith)
Disjoint-le a m m' b n n' hm hn (inr e) = inr (omega arith)

pub not-mem : (x : ℕ) (bs : List ℕ) → ((b : ℕ) → b ∈ bs → b ≢ x) → x ∉ bs
not-mem x [] f = tt
not-mem x (b ∷ bs) f = (λ e. f b (inl refl) (sym e), not-mem x bs (λ c h. f c (inr h)))

-- The sizes once `n` units at the end of the block `c` are handed out.
abbrev pub split_size : Heap → ℕ → ℕ → ℕ → ℕ
split_size h c n = put (put h.size c (h.size c - n)) (c + (h.size c - n)) n

module _ (h : Heap) (p a c n : ℕ) (bs : List ℕ) (f : Free h a bs) (m : c ∈ (a ∷ bs))
    (small : n < h.size c) (some_units : 0 < n) where
  new-ne : (b : ℕ) → b ∈ (a ∷ bs) → b ≢ c + (h.size c - n)
  new-ne b hb e = elim (Bool-cases (b == c)) [
    | inl t ↦ absurd (ground (arith, t))
    | inr t ↦
        let ne : b ≢ c = ground (arith, t) in
        elim (f.apart b c hb m ne) [
          | inl l ↦ absurd (omega (arith, (f.inside b hb).0))
          | inr r ↦ absurd (omega arith)
        ]
  ]

  split_size_other : (b : ℕ) → b ∈ (a ∷ bs) → b ≢ c → split_size h c n b ≡ h.size b
  split_size_other b hb ne =
      put_ne (put h.size c (h.size c - n)) (c + (h.size c - n)) n b (new-ne b hb)
      ∙ put_ne h.size c (h.size c - n) b ne

  split_size_rest : split_size h c n c ≡ h.size c - n
  split_size_rest =
      put_ne (put h.size c (h.size c - n)) (c + (h.size c - n)) n c (new-ne c m)
      ∙ put_self h.size c (h.size c - n)

  -- A block is as large as before, or the rest of `c`.
  split_size-cases :
      (b : ℕ)
      → b ∈ (a ∷ bs)
      → ((b ≢ c) × (split_size h c n b ≡ h.size b))
        ⊎ ((b ≡ c) × (split_size h c n b + n ≡ h.size b))
  split_size-cases b hb = elim (Bool-cases (b == c)) [
    | inl t ↦
        let same : b ≡ c = ground (arith, t) in inr (same, rw same (omega (arith, split_size_rest)))
    | inr t ↦ let ne : b ≢ c = ground (arith, t) in inl (ne, split_size_other b hb ne)
  ]

  pub smaller : (b : ℕ) → b ∈ (a ∷ bs) → (0 < split_size h c n b) × (split_size h c n b ≤ h.size b)
  smaller b hb = elim (split_size-cases b hb) [
    | inl (ne, e) ↦ omega (arith, e, (f.inside b hb).0)
    | inr (same, e) ↦ let size : h.size b ≡ h.size c = ap h.size same in omega arith
  ]

  split : Heap
  split = record h { size = split_size h c n; free_node = p }

  split-Free : Free split a bs
  unfolding split
  split-Free = record {
    linked = f.linked;
    distinct = f.distinct;
    apart = λ b d hb hd ne.
        Disjoint-le b (h.size b) (split_size h c n b) d (h.size d) (split_size h c n d)
          (smaller b hb).1 (smaller d hd).1 (f.apart b d hb hd ne);
    inside = λ b hb. ((smaller b hb).0, omega (arith, (smaller b hb).1, (f.inside b hb).1));
  }

  split-Taken : Taken split (c + (h.size c - n)) n a bs
  unfolding split
  split-Taken = record {
    size = put_self (put h.size c (h.size c - n)) (c + (h.size c - n)) n;
    inside = omega (arith, (f.inside c m).1);
    apart = λ b hb. elim (split_size-cases b hb) [
      | inl (ne, e) ↦ elim (f.apart b c hb m ne) [
        | inl l ↦ inr (omega arith)
        | inr r ↦ inl (omega arith)
      ]
      | inr (same, e) ↦ let size : h.size b ≡ h.size c = ap h.size same in inr (omega arith)
    ];
  }

  units-split : units (split_size h c n) (a ∷ bs) + n ≡ units h.size (a ∷ bs)
  units-split =
      let new : ℕ = c + (h.size c - n) in
      let out : new ∉ (a ∷ bs) = not-mem new (a ∷ bs) (λ b hb e. new-ne b hb e) in
      let first = units-put_ne (put h.size c (h.size c - n)) new n (a ∷ bs) out in
      let second = units-put h.size c (h.size c - n) (a ∷ bs) f.distinct m in
      omega (arith, first, second)

  -- From a larger block the last units are handed out, and the rest stays in the circle.
  pub fit-split :
      p ∈ (a ∷ bs)
      → (h' : Heap) × (fit n p c h ≡ (some (c + (h.size c - n)), h'))
        × (h'.free_node ≡ p)
        × Free h' a bs
        × Taken h' (c + (h.size c - n)) n a bs
        × (units h'.size (a ∷ bs) + n ≡ units h.size (a ∷ bs))
  unfolding fit split
  fit-split hp =
      let larger : (h.size c == n) ≡ false = ground arith in
      let ne : p ≢ c + (h.size c - n) = new-ne p hp in
      let other : (c + (h.size c - n) == p) ≡ false = ground (arith, ne) in
      (split, rw (larger, fit) (rw (other, fit) refl), refl, split-Free, split-Taken, units-split)
