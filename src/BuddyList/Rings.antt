-- ===== src/BuddyList/Rings.antt =====
-- The lists of memoryManagement/buddyList.c as sequences of nodes.
use dog_os.Prelude.{
  ℕ, ◌≡◌, ◌≢◌, ◌⊎◌, ◌↔◌, inl, inr, ◌∙◌, refl, sym, subst, true, false, none, some, List, [], ◌∷◌,
  ◌++◌, arith, ◌==◌, append-nil, ◌∈◌, ◌∉◌, Distinct, ne_of_mem, not-mem-append, Distinct-rotate,
  not-mem_left, not-mem_right, put, put_self, put_ne,
}
use mathlib.Core.List.{cons≢nil}
use dog_os.BuddyList.{Links, list_initialize, list_push, list_remove, list_pop, list_is_empty}

-- The links lead from `a` along the list to `z`, and back.
abbrev pub Doubly : Links → ℕ → List ℕ → ℕ → Type 0
Doubly k a [] z = (k.next a ≡ z) × (k.prev z ≡ a)
Doubly k a (b ∷ bs) z = (k.next a ≡ b) × (k.prev b ≡ a) × Doubly k b bs z

-- The list with the head `l` holds the nodes, all different.
pub record Ring (k : Links) (l : ℕ) (xs : List ℕ) : Type 0 where
  pub doubly : Doubly k l xs l
  pub distinct : Distinct (l ∷ xs)

-- The node in front of the end is one of those on the way.
prev-mem : (k : Links) (a z : ℕ) (bs : List ℕ) → Doubly k a bs z → k.prev z ∈ (a ∷ bs)
prev-mem k a z [] (e, d) = inl d
prev-mem k a z (b ∷ bs) (e, d, l) = inr (prev-mem k b z bs l)

-- A change of the links of other nodes.
Doubly-put :
    (k : Links) (p v q w a z : ℕ) (bs : List ℕ)
    → p ∉ (a ∷ bs)
    → q ∉ bs
    → q ≢ z
    → Doubly k a bs z
    → Doubly (record { prev = put k.prev q w; next = put k.next p v }) a bs z
Doubly-put k p v q w a z [] hp hq ne (e, d) =
    (put_ne k.next p v a (λ t. hp.0 (sym t)) ∙ e, put_ne k.prev q w z (λ t. ne (sym t)) ∙ d)
Doubly-put k p v q w a z (b ∷ bs) hp hq ne (e, d, l) = (
  put_ne k.next p v a (λ t. hp.0 (sym t)) ∙ e,
  put_ne k.prev q w b (λ t. hq.0 (sym t)) ∙ d,
  Doubly-put k p v q w b z bs hp.1 hq.1 ne l,
)

-- What `listPush` does on the way from a node `a` to the head.
list_push-Doubly :
    (k : Links) (l x a : ℕ) (bs : List ℕ)
    → Doubly k a bs l
    → Distinct (a ∷ bs)
    → l ∉ bs
    → x ∉ (a ∷ bs)
    → x ≢ l
    → Doubly (list_push l x k) a (bs ++ (x ∷ [])) l
unfolding list_push
list_push-Doubly k l x a [] (e, d) dist out new ne =
    let na : x ≢ a = new.0 in
    (ground (arith, d), ground (arith, d, ne), (ground (arith, d, na), ground arith))
list_push-Doubly k l x a (b ∷ bs) (e, d, r) dist out new ne =
    let last = prev-mem k b l bs r in
    let na : x ≢ a = new.0 in
    let nb : x ≢ b = new.1.0 in
    let nl : l ≢ b = out.0 in
    let before : k.prev l ≢ a = ne_of_mem (k.prev l) a (b ∷ bs) last dist.0 in
    (
      ground (arith, e, na, before),
      ground (arith, d, nb, nl),
      list_push-Doubly k l x b bs r dist.1 out.1 new.1 ne,
    )

mem_back : (b x : ℕ) (xs : List ℕ) → b ∈ (xs ++ (x ∷ [])) → (b ∈ xs) ⊎ (b ≡ x)
mem_back b x [] (inl e) = inr e
mem_back b x [] (inr k) = elim k [ ]
mem_back b x (y ∷ xs) (inl e) = inl (inl e)
mem_back b x (y ∷ xs) (inr k) = elim (mem_back b x xs k) [ inl l ↦ inl (inr l) | inr e ↦ inr e ]

-- `listPush` puts a new node behind the others.
pub list_push-Ring :
    (k : Links) (l x : ℕ) (xs : List ℕ)
    → Ring k l xs
    → x ∉ (l ∷ xs)
    → Ring (list_push l x k) l (xs ++ (x ∷ []))
list_push-Ring k l x xs r new = record {
  doubly = list_push-Doubly k l x l xs r.doubly r.distinct r.distinct.0 new new.0;
  distinct = (
    not-mem-append l xs (x ∷ []) r.distinct.0 ((λ e. new.0 (sym e)), tt),
    Distinct-rotate x xs new.1 r.distinct.1,
  );
}

-- What stands in front of a node of the way, and behind it.
around-mem :
    (k : Links) (a z x : ℕ) (xs ys : List ℕ)
    → Doubly k a (xs ++ (x ∷ ys)) z
    → (k.prev x ∈ (a ∷ xs)) × ((k.next x ∈ ys) ⊎ (k.next x ≡ z))
around-mem k a z x [] [] (e, d, (f, g)) = (inl d, inr f)
around-mem k a z x [] (y ∷ ys) (e, d, (f, g, l)) = (inl d, inl (inl f))
around-mem k a z x (b ∷ xs) ys (e, d, l) = let (p, n) = around-mem k b z x xs ys l in (inr p, n)

list_remove-Doubly :
    (k : Links) (a z x : ℕ) (xs ys : List ℕ)
    → Doubly k a (xs ++ (x ∷ ys)) z
    → Distinct (a ∷ (xs ++ (x ∷ ys)))
    → z ∉ (xs ++ (x ∷ ys))
    → Doubly (list_remove x k) a (xs ++ ys) z
unfolding list_remove
list_remove-Doubly k a z x [] [] (e, d, (f, g)) dist out =
    (ground (arith, d, f), ground (arith, d, f))
list_remove-Doubly k a z x [] (y ∷ ys) (e, d, (f, g, l)) dist out = (
  ground (arith, d, f),
  ground (arith, d, f),
  Doubly-put k (k.prev x) (k.next x) (k.next x) (k.prev x) y z ys
      (subst (λ p. p ∉ (y ∷ ys)) (sym d) dist.0.1) (subst (λ q. q ∉ ys) (sym f) dist.1.1.0)
      (rw f (λ t. out.1.0 (sym t))) l,
)
list_remove-Doubly k a z x (b ∷ xs) ys (e, d, l) dist out =
    let (p, n) = around-mem k b z x xs ys l in
    let before : k.prev x ≢ a =
      ne_of_mem (k.prev x) a (b ∷ xs) p (not-mem_left a (b ∷ xs) (x ∷ ys) dist.0) in
    let behind : k.next x ≢ b = elim n [
      | inl m ↦ ne_of_mem (k.next x) b ys m (not-mem_right b xs (x ∷ ys) dist.1.0).1
      | inr t ↦ λ s. out.0 (sym t ∙ s)
    ] in
    (
      ground (arith, e, before),
      ground (arith, d, behind),
      list_remove-Doubly k b z x xs ys l dist.1 out.1,
    )

without-not_mem : (z x : ℕ) (xs ys : List ℕ) → z ∉ (xs ++ (x ∷ ys)) → z ∉ (xs ++ ys)
without-not_mem z x xs ys h =
    not-mem-append z xs ys (not-mem_left z xs (x ∷ ys) h) (not-mem_right z xs (x ∷ ys) h).1

without-Distinct : (x : ℕ) (xs ys : List ℕ) → Distinct (xs ++ (x ∷ ys)) → Distinct (xs ++ ys)
without-Distinct x [] ys d = d.1
without-Distinct x (y ∷ xs) ys d = (without-not_mem y x xs ys d.0, without-Distinct x xs ys d.1)

-- `listRemove` takes a node out, wherever it stands.
pub list_remove-Ring :
    (k : Links) (l x : ℕ) (xs ys : List ℕ)
    → Ring k l (xs ++ (x ∷ ys))
    → Ring (list_remove x k) l (xs ++ ys)
list_remove-Ring k l x xs ys r = record {
  doubly = list_remove-Doubly k l l x xs ys r.doubly r.distinct r.distinct.0;
  distinct = (without-not_mem l x xs ys r.distinct.0, without-Distinct x xs ys r.distinct.1);
}

last-prev : (k : Links) (a z x : ℕ) (xs : List ℕ) → Doubly k a (xs ++ (x ∷ [])) z → k.prev z ≡ x
last-prev k a z x [] (e, d, (f, g)) = g
last-prev k a z x (b ∷ xs) (e, d, l) = last-prev k b z x xs l

-- `listPop` of an empty list is NULL.
pub list_pop-empty : (k : Links) (l : ℕ) → Ring k l [] → list_pop l k ≡ (none, k)
unfolding list_pop
list_pop-empty k l r =
    let here : (k.prev l == l) ≡ true = ground (arith, r.doubly.1) in rw (here, list_pop) refl

-- `listPop` takes the last node out.
pub list_pop-last :
    (k : Links) (l x : ℕ) (xs : List ℕ)
    → Ring k l (xs ++ (x ∷ []))
    → (k' : Links) × (list_pop l k ≡ (some x, k')) × Ring k' l xs
unfolding list_pop
list_pop-last k l x xs r =
    let e : k.prev l ≡ x = last-prev k l l x xs r.doubly in
    let ne : l ≢ x = (not-mem_right l xs (x ∷ []) r.distinct.0).0 in
    let there : (k.prev l == l) ≡ false = ground (arith, e, ne) in
    (
      list_remove x k,
      rw (there, list_pop) (rw e refl),
      subst (Ring (list_remove x k) l) (append-nil xs) (list_remove-Ring k l x xs [] r),
    )

-- `listPop` gives back the node that `listPush` put into the list, and leaves the others in their order.
pub list_pop-list_push :
    (k : Links) (l x : ℕ) (xs : List ℕ)
    → Ring k l xs
    → x ∉ (l ∷ xs)
    → (k' : Links) × (list_pop l (list_push l x k) ≡ (some x, k')) × Ring k' l xs
list_pop-list_push k l x xs r new =
    list_pop-last (list_push l x k) l x xs (list_push-Ring k l x xs r new)

pub list_initialize-Ring : (k : Links) (l : ℕ) → Ring (list_initialize l k) l []
unfolding list_initialize
list_initialize-Ring k l = record {
  doubly = (put_self k.next l l, put_self k.prev l l);
  distinct = (tt, tt);
}

-- `listIsEmpty` is true of an empty list and false of one with a node.
pub list_is_empty-Ring :
    (k : Links) (l : ℕ) (xs : List ℕ) → Ring k l xs → (list_is_empty l k ≡ true) ↔ (xs ≡ [])
list_is_empty-Ring k l [] r = (λ e. refl, λ e. ground (arith, r.doubly.1))
list_is_empty-Ring k l (x ∷ xs) r =
    let ne = ne_of_mem (k.prev l) l (x ∷ xs) (prev-mem k x l xs r.doubly.2) r.distinct.0 in
    (λ e. absurd (ground (arith, e)), λ e. absurd (cons≢nil e))
