-- ===== src/Semaphore/Table.antt =====
-- The list of semaphores of Kernel/semaphores/semaphores.c as a table: looking up, writing back and
-- removing.
use dog_os.Prelude.{
  inl, inr, subst, ℕ, ◌≡◌, refl, none, some, List, [], ◌∷◌, ◌++◌, arith, ◌==◌, if◌then◌else◌,
  Distinct, ◌∉◌, Bool-cases,
}
use dog_os.Semaphore.{Semaphore, get_semaphore, update_semaphore, remove_semaphore}
use dog_os.Semaphore.Queue.{IsSemaphore}

abbrev pub AllFree : List Semaphore → Type 0
AllFree [] = Unit
AllFree (s ∷ ss) = IsSemaphore s × (s.lock ≡ 0) × AllFree ss

abbrev pub ids : List Semaphore → List ℕ
ids [] = []
ids (s ∷ ss) = s.id ∷ ids ss

-- Every semaphore is well formed and unlocked, and no two have the same id.
pub record IsTable (ss : List Semaphore) : Type 0 where
  pub free : AllFree ss
  pub distinct : Distinct (ids ss)

module _ (id : ℕ) where
  pub id-get_semaphore :
      (ss : List Semaphore) (s : Semaphore) → get_semaphore id ss ≡ some s → s.id ≡ id
  unfolding get_semaphore
  id-get_semaphore [] s h = cc
  id-get_semaphore (t ∷ ts) s h = ground (arith, h, id-get_semaphore ts s)

  pub get_semaphore-free :
      (ss : List Semaphore) (s : Semaphore)
      → AllFree ss
      → get_semaphore id ss ≡ some s
      → IsSemaphore s × (s.lock ≡ 0)
  unfolding get_semaphore
  get_semaphore-free [] s a h = absurd (ground (arith, h))
  get_semaphore-free (t ∷ ts) s a h = elim (Bool-cases (t.id == id)) [
    | inl e ↦
        let same : t ≡ s = ground (arith, h, e) in
        subst (λ x. IsSemaphore x × (x.lock ≡ 0)) same (a.0, a.1)
    | inr e ↦ get_semaphore-free ts s a.2 (rw e at h)
  ]

  pub get_semaphore-not-mem : (ss : List Semaphore) → id ∉ ids ss → get_semaphore id ss ≡ none
  unfolding get_semaphore
  get_semaphore-not-mem [] h = refl
  get_semaphore-not-mem (t ∷ ts) h = ground (arith, get_semaphore-not-mem ts h.1)

  pub get_semaphore-none : (ss : List Semaphore) → get_semaphore id ss ≡ none → id ∉ ids ss
  unfolding get_semaphore
  get_semaphore-none [] h = tt
  get_semaphore-none (t ∷ ts) h = elim (Bool-cases (t.id == id)) [
    | inl e ↦ absurd (ground (arith, e, h))
    | inr e ↦ (ground arith, get_semaphore-none ts (rw e at h))
  ]

  pub get_semaphore-append :
      (ss : List Semaphore) (s : Semaphore)
      → get_semaphore id (ss ++ (s ∷ [])) ≡ elim (get_semaphore id ss) [
        | some t ↦ some t
        | none ↦ if s.id == id then some s else none
      ]
  unfolding get_semaphore
  get_semaphore-append [] s = ground arith
  get_semaphore-append (t ∷ ts) s = ground (arith, get_semaphore-append ts s)

pub ids-update_semaphore :
    (s : Semaphore) (ss : List Semaphore) → ids (update_semaphore s ss) ≡ ids ss
unfolding update_semaphore
ids-update_semaphore s [] = refl
ids-update_semaphore s (t ∷ ts) = ground (arith, ids-update_semaphore s ts)

update_semaphore-free :
    (s : Semaphore) (ss : List Semaphore)
    → AllFree ss
    → IsSemaphore s
    → s.lock ≡ 0
    → AllFree (update_semaphore s ss)
unfolding update_semaphore
update_semaphore-free s [] a v l = tt
update_semaphore-free s (t ∷ ts) a v l = elim (Bool-cases (t.id == s.id)) [
  | inl e ↦ rw e (v, l, a.2)
  | inr e ↦ rw e (a.0, a.1, update_semaphore-free s ts a.2 v l)
]

pub update_semaphore-IsTable :
    (s : Semaphore) (ss : List Semaphore)
    → IsTable ss
    → IsSemaphore s
    → s.lock ≡ 0
    → IsTable (update_semaphore s ss)
update_semaphore-IsTable s ss t v l = record {
  free = update_semaphore-free s ss t.free v l;
  distinct = rw (ids-update_semaphore s ss) t.distinct;
}

-- After a write the semaphore is found as written, and the others as they were.
pub get_semaphore-update_semaphore :
    (s : Semaphore) (ss : List Semaphore) (t : Semaphore) (j : ℕ)
    → get_semaphore s.id ss ≡ some t
    → get_semaphore j (update_semaphore s ss) ≡ (if j == s.id then some s else get_semaphore j ss)
unfolding get_semaphore update_semaphore
get_semaphore-update_semaphore s [] t j h = absurd (ground (arith, h))
get_semaphore-update_semaphore s (x ∷ ts) t j h = elim (Bool-cases (x.id == s.id)) [
  | inl e ↦ rw e (ground (arith, e))
  | inr e ↦
      let ih = get_semaphore-update_semaphore s ts t j (rw e at h) in rw e (ground (arith, ih, e))
]

not-mem-remove : (x id : ℕ) (ss : List Semaphore) → x ∉ ids ss → x ∉ ids (remove_semaphore id ss)
unfolding remove_semaphore
not-mem-remove x id [] h = tt
not-mem-remove x id (t ∷ ts) h = elim (Bool-cases (t.id == id)) [
  | inl e ↦ rw e h.1
  | inr e ↦ rw e (h.0, not-mem-remove x id ts h.1)
]

pub remove_semaphore-IsTable :
    (id : ℕ) (ss : List Semaphore) → IsTable ss → IsTable (remove_semaphore id ss)
unfolding remove_semaphore
remove_semaphore-IsTable id [] v = v
remove_semaphore-IsTable id (t ∷ ts) v =
    let rest : IsTable ts = record { free = v.free.2; distinct = v.distinct.1 } in
    let r = remove_semaphore-IsTable id ts rest in
    elim (Bool-cases (t.id == id)) [
      | inl e ↦ rw e rest
      | inr e ↦ rw e (record {
        free = (v.free.0, v.free.1, r.free);
        distinct = (not-mem-remove t.id id ts v.distinct.0, r.distinct);
      })
    ]

-- After a removal the semaphore is gone, and the others are found as they were.
pub get_semaphore-remove_semaphore :
    (id : ℕ) (ss : List Semaphore) (j : ℕ)
    → Distinct (ids ss)
    → get_semaphore j (remove_semaphore id ss) ≡ (if j == id then none else get_semaphore j ss)
unfolding get_semaphore remove_semaphore
get_semaphore-remove_semaphore id [] j d = ground arith
get_semaphore-remove_semaphore id (t ∷ ts) j d =
    ground (arith, get_semaphore-remove_semaphore id ts j d.1, get_semaphore-not-mem t.id ts d.0)
