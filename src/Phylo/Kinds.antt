-- ===== src/Phylo/Kinds.antt =====
-- What the philosophers of programs/phylo.c hold, and the system calls that give it and take it back.
use dog_os.Prelude.{
  ℕ, zero, suc, ◌+◌, ◌≡◌, refl, Bool, false, List, [], ◌∷◌, ◌++◌, ◌==◌, if◌then◌else◌, length, take,
  get_or, arith,
}
use dog_os.Prelude.Int.{ℤ, pos, negsuc}
use dog_os.Phylo.{
  Philosopher, nobody, mutex, Table, Call, sem_open, sem_close, sem_wait, sem_post, kill_process,
  free, malloc, new_process, new_table,
}

-- How often some calls do something.
abbrev pub count : (Call → ℕ) → List Call → ℕ
count w [] = 0
count w (c ∷ cs) = w c + count w cs

abbrev pub same : ℤ → ℤ → Bool
same (pos m) (pos n) = m == n
same (negsuc m) (negsuc n) = m == n
same _ _ = false

-- 1 for the number that is asked for.
abbrev pub hit : ℤ → ℤ → ℕ
hit x y = if same x y then 1 else 0

-- The processes that are started, and killed, with the pid `x`.
abbrev pub starts : ℤ → Call → ℕ
starts x (new_process i p) = hit x p
starts x (new_table p) = hit x p
starts x _ = 0

abbrev pub kills : ℤ → Call → ℕ
kills x (kill_process p) = hit x p
kills x _ = 0

-- The semaphores that are opened, and closed, with the number `x`.
abbrev pub opens : ℤ → Call → ℕ
opens x (sem_open id s) = hit x s
opens x _ = 0

abbrev pub closes : ℤ → Call → ℕ
closes x (sem_close s) = hit x s
closes x _ = 0

-- The philosophers with the pid `x` who sit down, and whose blocks are freed.
abbrev pub seats : ℤ → Call → ℕ
seats x (new_process i p) = hit x p
seats x _ = 0

abbrev pub frees : ℤ → Call → ℕ
frees x (free p) = hit x p.pid
frees x _ = 0

-- All blocks.
abbrev pub mallocs : Call → ℕ
mallocs malloc = 1
mallocs _ = 0

abbrev pub releases : Call → ℕ
releases (free p) = 1
releases _ = 0

-- The calls of one who sits down, who leaves, and who is there at the end.
abbrev pub sitting : ℕ → ℕ → Philosopher → List Call
sitting s i p =
    sem_wait mutex ∷ malloc ∷ sem_open s p.sem ∷ new_process i p.pid ∷ sem_post mutex ∷ []

abbrev pub leaving : Philosopher → List Call
leaving p = sem_wait mutex ∷ sem_close p.sem ∷ kill_process p.pid ∷ free p ∷ sem_post mutex ∷ []

abbrev pub clearing : Philosopher → List Call
clearing p = sem_close p.sem ∷ kill_process p.pid ∷ free p ∷ []

-- Something that a philosopher holds: the calls that give it and that take it back.
pub record Kind : Type 0 where
  pub gives : Call → ℕ
  pub takes : Call → ℕ
  pub per : Philosopher → ℕ
  pub on_sitting :
      (s i : ℕ) (p : Philosopher)
      → (count gives (sitting s i p) ≡ per p) × (count takes (sitting s i p) ≡ 0)
  pub on_leaving :
      (p : Philosopher) → (count gives (leaving p) ≡ 0) × (count takes (leaving p) ≡ per p)
  pub on_clearing :
      (p : Philosopher) → (count gives (clearing p) ≡ 0) × (count takes (clearing p) ≡ per p)

abbrev pub processes : ℤ → Kind
processes x = record {
  gives = starts x;
  takes = kills x;
  per = λ p. hit x p.pid;
  on_sitting = λ s i p. (omega arith, refl);
  on_leaving = λ p. (refl, omega arith);
  on_clearing = λ p. (refl, omega arith);
}

abbrev pub semaphores : ℤ → Kind
semaphores x = record {
  gives = opens x;
  takes = closes x;
  per = λ p. hit x p.sem;
  on_sitting = λ s i p. (omega arith, refl);
  on_leaving = λ p. (refl, omega arith);
  on_clearing = λ p. (refl, omega arith);
}

abbrev pub places : ℤ → Kind
places x = record {
  gives = seats x;
  takes = frees x;
  per = λ p. hit x p.pid;
  on_sitting = λ s i p. (omega arith, refl);
  on_leaving = λ p. (refl, omega arith);
  on_clearing = λ p. (refl, omega arith);
}

abbrev pub blocks : Kind
blocks = record {
  gives = mallocs;
  takes = releases;
  per = λ p. 1;
  on_sitting = λ s i p. (refl, refl);
  on_leaving = λ p. (refl, refl);
  on_clearing = λ p. (refl, refl);
}

-- What is held at a table.
abbrev pub held : (Philosopher → ℕ) → Table → ℕ
held per [] = 0
held per (p ∷ t) = per p + held per t

pub held-append :
    (per : Philosopher → ℕ) (t : Table) (p : Philosopher)
    → held per (t ++ (p ∷ [])) ≡ held per t + per p
held-append per [] p = omega arith
held-append per (q ∷ t) p = omega (arith, held-append per t p)

pub held-take :
    (per : Philosopher → ℕ) (n : ℕ) (t : Table)
    → length t ≡ n + 1
    → held per t ≡ held per (take n t) + per (get_or t n nobody)
held-take per n [] e = absurd (omega arith)
held-take per zero (p ∷ []) e = omega arith
held-take per zero (p ∷ q ∷ t) e = absurd (omega arith)
held-take per (suc n) (p ∷ t) e = omega (arith, held-take per n t (omega arith))

pub count-append : (w : Call → ℕ) (cs ds : List Call) → count w (cs ++ ds) ≡ count w cs + count w ds
count-append w [] ds = omega arith
count-append w (c ∷ cs) ds = omega (arith, count-append w cs ds)

-- The calls bring what is held of each kind from that of a table to that of another.
abbrev pub Held : List Call → Table → Table → Type 0
Held cs t u = (k : Kind) → count k.takes cs + held k.per u ≡ count k.gives cs + held k.per t

pub Held-append :
    (cs ds : List Call) (t u v : Table) → Held cs t u → Held ds u v → Held (cs ++ ds) t v
Held-append cs ds t u v h g k =
    omega (arith, h k, g k, count-append k.takes cs ds, count-append k.gives cs ds)
