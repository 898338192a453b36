-- ===== src/Phylo/Safety.antt =====
-- No two neighbours of programs/phylo.c eat at once, as long as nobody leaves the table.
use dog_os.Prelude.{
  ℕ, ◌+◌, ◌%◌, ◌<◌, ◌≡◌, ◌≢◌, inl, inr, ◌∙◌, refl, sym, ap, subst, Bool, true, false, not, ◌&&◌,
  arith, ◌==◌, Bool-cases, get_or, length, length-set, get_or-set_self, get_or-set_ne,
}
use mathlib.Core.Bool.{true≢false}
use dog_os.Phylo.{
  PhiloState, thinking, hungry, eating, is_hungry, is_eating, Philosopher, Table, nobody, left,
  right, state_of, set_state, test, take_forks, put_forks,
}
use dog_os.Phylo.Neighbours.{next, previous, next-lt, previous-lt, next-ne, previous-next}

-- Of two neighbours at most one eats.
abbrev pub Apart : Table → Type 0
Apart t =
    (i : ℕ)
    → i < length t
    → is_eating (state_of t i) ≡ true
    → is_eating (state_of t (right t i)) ≡ false

state_of-set_state_self :
    (t : Table) (i : ℕ) (s : PhiloState) → i < length t → state_of (set_state t i s) i ≡ s
state_of-set_state_self t i s h =
    ap (λ (p : Philosopher). p.state)
      (get_or-set_self t i (record (get_or t i nobody) { state = s }) nobody h)

state_of-set_state_ne :
    (t : Table) (i j : ℕ) (s : PhiloState) → i ≢ j → state_of (set_state t i s) j ≡ state_of t j
state_of-set_state_ne t i j s ne =
    ap (λ (p : Philosopher). p.state)
      (get_or-set_ne t i j (record (get_or t i nobody) { state = s }) nobody ne)

length-set_state : (t : Table) (i : ℕ) (s : PhiloState) → length (set_state t i s) ≡ length t
length-set_state t i s = length-set t i (record (get_or t i nobody) { state = s })

apart :
    (t : Table) (i : ℕ) (s : PhiloState)
    → 1 < length t
    → i < length t
    → Apart t
    → (is_eating s ≡ true
        → (is_eating (state_of t (left t i)) ≡ false)
          × (is_eating (state_of t (right t i)) ≡ false))
    → (j : ℕ) → j < length t
    → is_eating (state_of (set_state t i s) j) ≡ true
    → is_eating (state_of (set_state t i s) (next (length t) j)) ≡ false
apart t i s many h a may j hj eats =
    let n : ℕ = length t in
    let t' : Table = set_state t i s in
    elim (Bool-cases (j == i)) [
      | inl e ↦
          let same : j ≡ i = ground (arith, e) in
          let eats' : is_eating (state_of t' i) ≡ true =
            subst (λ k. is_eating (state_of t' k) ≡ true) same eats in
          let s_eats : is_eating s ≡ true =
            ap is_eating (sym (state_of-set_state_self t i s h)) ∙ eats' in
          let ne : i ≢ next n i = λ d. next-ne n i h many (sym d) in
          subst (λ k. is_eating (state_of t' (next n k)) ≡ false) (sym same)
            (ap is_eating (state_of-set_state_ne t i (next n i) s ne) ∙ (may s_eats).1)
      | inr e ↦
          let other : i ≢ j = ground (arith, e) in
          let before : is_eating (state_of t j) ≡ true =
            ap is_eating (sym (state_of-set_state_ne t i j s other)) ∙ eats in
          elim (Bool-cases (next n j == i)) [
            | inl f ↦
                let behind : next n j ≡ i = ground (arith, f) in
                let back : previous n i ≡ j =
                  subst (λ k. previous n k ≡ j) behind (previous-next n j hj) in
                let quiet : is_eating s ≡ false = elim (Bool-cases (is_eating s)) [
                  | inl g ↦ absurd (
                      true≢false
                        (sym before ∙ subst (λ k. is_eating (state_of t k) ≡ false) back (may g).0))
                  | inr g ↦ g
                ] in
                subst (λ k. is_eating (state_of t' k) ≡ false) (sym behind)
                  (ap is_eating (state_of-set_state_self t i s h) ∙ quiet)
            | inr f ↦
                let ne : i ≢ next n j = ground (arith, f) in
                ap is_eating (state_of-set_state_ne t i (next n j) s ne) ∙ a j hj before
          ]
    ]

-- A philosopher may change to any state, but to eating only beside neighbours who do not eat.
set_state-Apart :
    (t : Table) (i : ℕ) (s : PhiloState)
    → 1 < length t
    → i < length t
    → Apart t
    → (is_eating s ≡ true
        → (is_eating (state_of t (left t i)) ≡ false)
          × (is_eating (state_of t (right t i)) ≡ false))
    → Apart (set_state t i s)
set_state-Apart t i s many h a may j hj eats =
    let n : ℕ = length t in
    let t' : Table = set_state t i s in
    let size : length t' ≡ n = length-set_state t i s in
    let at : (j + 1) % length t' ≡ next n j = ap (λ m. (j + 1) % m) size in
    subst (λ k. is_eating (state_of t' k) ≡ false) (sym at)
      (apart t i s many h a may j (subst (λ m. j < m) size hj) eats)

-- Those at the table are as many as before, and apart.
pub record Keeps (t t' : Table) : Type 0 where
  pub size : length t' ≡ length t
  pub apart : Apart t'

neither : (h l r : Bool) → (h && (not l && not r)) ≡ true → (l ≡ false) × (r ≡ false)
neither h l r e = (ground (arith, e), ground (arith, e))

test-Apart : (i : ℕ) (t : Table) → 1 < length t → i < length t → Apart t → Keeps t (test i t).1
unfolding test
test-Apart i t many h a =
    let l : Bool = is_eating (state_of t (left t i)) in
    let r : Bool = is_eating (state_of t (right t i)) in
    elim (Bool-cases (is_hungry (state_of t i) && (not l && not r))) [
      | inl e ↦ rw e (record {
        size = length-set_state t i eating;
        apart = set_state-Apart t i eating many h a (λ _. neither (is_hungry (state_of t i)) l r e);
      })
      | inr e ↦ rw e (record { size = refl; apart = a })
    ]

unset-Keeps :
    (i : ℕ) (t : Table) (s : PhiloState)
    → is_eating s ≡ false
    → 1 < length t
    → i < length t
    → Apart t
    → Keeps t (set_state t i s)
unset-Keeps i t s quiet many h a = record {
  size = length-set_state t i s;
  apart = set_state-Apart t i s many h a (λ e. absurd (true≢false (sym e ∙ quiet)));
}

Keeps-trans : (t u v : Table) → Keeps t u → Keeps u v → Keeps t v
Keeps-trans t u v h k = record { size = k.size ∙ h.size; apart = k.apart }

pub take_forks-Apart :
    (i : ℕ) (t : Table) → 1 < length t → i < length t → Apart t → Keeps t (take_forks i t).1
unfolding take_forks
take_forks-Apart i t many h a =
    let u = set_state t i hungry in
    let k = unset-Keeps i t hungry refl many h a in
    Keeps-trans t u (test i u).1 k
      (test-Apart i u (omega (arith, k.size)) (omega (arith, k.size)) k.apart)

pub put_forks-Apart :
    (i : ℕ) (t : Table) → 1 < length t → i < length t → Apart t → Keeps t (put_forks i t).1
unfolding put_forks
put_forks-Apart i t many h a =
    let t₀ = set_state t i thinking in
    let k₀ = unset-Keeps i t thinking refl many h a in
    let l = previous (length t₀) i in
    let hl : l < length t₀ = previous-lt (length t₀) i (omega (arith, k₀.size)) in
    let k₁ = test-Apart l t₀ (omega (arith, k₀.size)) hl k₀.apart in
    let t₁ = (test l t₀).1 in
    let r = next (length t₁) i in
    let hr : r < length t₁ = next-lt (length t₁) i (omega (arith, k₀.size, k₁.size)) in
    let k₂ = test-Apart r t₁ (omega (arith, k₀.size, k₁.size)) hr k₁.apart in
    Keeps-trans t t₀ (test r t₁).1 k₀ (Keeps-trans t₀ t₁ (test r t₁).1 k₁ k₂)
