-- ===== src/Phylo/Dinner.antt =====
-- A dinner of programs/phylo.c: philosophers take and put forks and sit down, in any order.
use dog_os.Prelude.{
  ℕ, zero, suc, ◌+◌, ◌-◌, ◌%◌, ◌<◌, ◌≤◌, ◌≡◌, inl, inr, ◌∙◌, refl, sym, ap, subst, Bool, true,
  false, List, [], ◌∷◌, ◌++◌, arith, ◌==◌, if◌then◌else◌, ltb, length-take, Bool-cases, length,
  length-append, take,
}
use mathlib.Core.Bool.{true≢false}
use native.Mathlib.Nat.{mod-eq_of_lt, mod_self}
use dog_os.Prelude.Int.{ℤ}
use dog_os.Phylo.{
  thinking, is_eating, Philosopher, Table, right, state_of, take_forks, put_forks, add_philo,
  remove_philo, max_philos, initial_philos,
}
use dog_os.Phylo.Safety.{Apart, Keeps, take_forks-Apart, put_forks-Apart}
use dog_os.Phylo.Neighbours.{next, next-lt, next-cases}

get_or-append :
    (t : Table) (p : Philosopher) (j : ℕ) → j < length t → state_of (t ++ (p ∷ [])) j ≡ state_of t j
get_or-append [] p j h = absurd (omega arith)
get_or-append (q ∷ t) p zero h = refl
get_or-append (q ∷ t) p (suc j) h = get_or-append t p j (omega arith)

get_or-last :
    (t : Table) (p : Philosopher) (j : ℕ) → j ≡ length t → state_of (t ++ (p ∷ [])) j ≡ p.state
get_or-last [] p zero h = refl
get_or-last [] p (suc j) h = absurd (omega arith)
get_or-last (q ∷ t) p zero h = absurd (omega arith)
get_or-last (q ∷ t) p (suc j) h = get_or-last t p j (omega arith)

-- A philosopher who thinks may sit down between the last one and the first.
join-Apart :
    (t : Table) (p : Philosopher) → is_eating p.state ≡ false → Apart t → Apart (t ++ (p ∷ []))
join-Apart t p quiet a j hj eats =
    let n : ℕ = length t in
    let t' : Table = t ++ (p ∷ []) in
    let size : length t' ≡ n + 1 = length-append t (p ∷ []) in
    let at : (j + 1) % length t' ≡ next (n + 1) j = ap (λ m. (j + 1) % m) size in
    subst (λ k. is_eating (state_of t' k) ≡ false) (sym at)
      (elim (Bool-cases (j == n)) [
        | inl e ↦
            absurd
              (true≢false (sym eats ∙ ap is_eating (get_or-last t p j (ground (arith, e))) ∙ quiet))
        | inr e ↦
            let inside : j < n = ground (arith, e, subst (λ m. j < m) size hj) in
            let before : is_eating (state_of t j) ≡ true =
              ap is_eating (sym (get_or-append t p j inside)) ∙ eats in
            elim (next-cases n j inside) [
              | inl (f, q) ↦
                  let far : next (n + 1) j ≡ next n j =
                    mod-eq_of_lt {n = j + 1} {m = n + 1} (omega arith) ∙ sym f in
                  subst (λ k. is_eating (state_of t' k) ≡ false) (sym far)
                    (ap is_eating (get_or-append t p (next n j) (next-lt n j inside))
                      ∙ a j inside before)
              | inr (f, q) ↦
                  let far : next (n + 1) j ≡ n =
                    mod-eq_of_lt {n = j + 1} {m = n + 1} (omega arith) ∙ q in
                  ap is_eating (get_or-last t p (next (n + 1) j) far) ∙ quiet
            ]
      ])

-- What a philosopher at the table does, or somebody who sits down, given what `addPhilo` is told.
pub data Action : Type 0 where
  takes puts : ℕ → Action
  joins : Bool → ℤ → ℤ → Action

abbrev pub act : Action → Table → Table
act (takes i) t = if ltb i (length t) then (take_forks i t).1 else t
act (puts i) t = if ltb i (length t) then (put_forks i t).1 else t
act (joins memory sem pid) t = (add_philo memory sem pid t).2

abbrev pub dinner : List Action → Table → Table
dinner [] t = t
dinner (a ∷ acts) t = dinner acts (act a t)

-- A table at which a dinner can go on.
pub record IsOpen (t : Table) : Type 0 where
  pub many : 1 < length t
  pub seats : length t ≤ max_philos
  pub apart : Apart t

same-IsOpen : (t u : Table) → IsOpen t → Keeps t u → IsOpen u
same-IsOpen t u o k = record {
  many = omega (arith, o.many, k.size);
  seats = omega (arith, o.seats, k.size);
  apart = k.apart;
}

add_philo-IsOpen :
    (memory : Bool) (sem pid : ℤ) (t : Table) → IsOpen t → IsOpen (add_philo memory sem pid t).2
unfolding add_philo
add_philo-IsOpen memory sem pid t o = elim (Bool-cases (length t == max_philos)) [
  | inl e ↦ rw e o
  | inr e ↦ rw e (elim (Bool-cases memory) [
    | inl m ↦
        let p : Philosopher = record { pid = pid; sem = sem; id = length t; state = thinking } in
        let size : length (t ++ (p ∷ [])) ≡ length t + 1 = length-append t (p ∷ []) in
        rw m (record {
          many = omega (arith, o.many, size);
          seats = ground (arith, o.seats, size, e);
          apart = join-Apart t p refl o.apart;
        })
    | inr m ↦ rw m o
  ])
]

act-IsOpen : (a : Action) (t : Table) → IsOpen t → IsOpen (act a t)
act-IsOpen (takes i) t o = elim (Bool-cases (ltb i (length t))) [
  | inl e ↦
      rw e (
        same-IsOpen t (take_forks i t).1 o
          (take_forks-Apart i t o.many (ground (arith, e)) o.apart))
  | inr e ↦ rw e o
]
act-IsOpen (puts i) t o = elim (Bool-cases (ltb i (length t))) [
  | inl e ↦
      rw e
        (same-IsOpen t (put_forks i t).1 o (put_forks-Apart i t o.many (ground (arith, e)) o.apart))
  | inr e ↦ rw e o
]
act-IsOpen (joins memory sem pid) t o = add_philo-IsOpen memory sem pid t o

-- From a table of 2 to 10 at which no neighbours eat, whatever its philosophers do and whoever sits
-- down, one call after another, there are never more than 10 and no neighbours eat.
pub dinner-IsOpen : (acts : List Action) (t : Table) → IsOpen t → IsOpen (dinner acts t)
dinner-IsOpen [] t o = o
dinner-IsOpen (a ∷ acts) t o = dinner-IsOpen acts (act a t) (act-IsOpen a t o)

state_of-take : (n : ℕ) (t : Table) (j : ℕ) → j < n → state_of (take n t) j ≡ state_of t j
state_of-take zero t j h = absurd (omega arith)
state_of-take (suc n) [] j h = refl
state_of-take (suc n) (p ∷ t) zero h = refl
state_of-take (suc n) (p ∷ t) (suc j) h = state_of-take n t j (omega arith)

-- When the last of six or more philosophers leaves while both his neighbours eat, they are then two
-- neighbours who eat.
pub remove_philo-neighbours :
    (t : Table)
    → initial_philos < length t
    → is_eating (state_of t 0) ≡ true
    → is_eating (state_of t (length t - 2)) ≡ true
    → ¬ Apart (remove_philo t).2
unfolding remove_philo
remove_philo-neighbours t many first last =
    let stay : (length t == initial_philos) ≡ false = ground arith in
    let n : ℕ = length t in
    let u : Table = take (n - 1) t in
    let size : length u ≡ n - 1 = length-take (n - 1) t ∙ omega arith in
    let at : right u (n - 2) ≡ 0 =
      ap (λ m. (n - 2 + 1) % m) size ∙ ap (λ k. k % (n - 1)) (omega arith) ∙ mod_self (n - 1) in
    let first' : is_eating (state_of u 0) ≡ true =
      ap is_eating (state_of-take (n - 1) t 0 (omega arith)) ∙ first in
    let last' : is_eating (state_of u (n - 2)) ≡ true =
      ap is_eating (state_of-take (n - 1) t (n - 2) (omega arith)) ∙ last in
    rw stay (λ (a : Apart u). true≢false (
      sym first'
      ∙ subst (λ k. is_eating (state_of u k) ≡ false) at (a (n - 2) (omega (arith, size)) last')))
