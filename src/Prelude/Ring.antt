-- ===== src/Prelude/Ring.antt =====
-- The elements of a circular buffer: those from an index on, going round at the end.
use dog_os.Prelude.{
  ℕ, zero, suc, ◌+◌, ◌-◌, ◌%◌, ◌<◌, ◌≡◌, ◌≢◌, ◌∙◌, refl, List, [], ◌∷◌, ◌++◌, arith, length, get_or,
  set, get_or-set_self, get_or-set_ne, ap,
}
use mathlib.Core.Path.{ap₂}
use native.Mathlib.Nat.{mod-add-mod, mod-eq_of_lt, mod-eq-sub-mod}
use native.Mathlib.Decide.{dec_lt}

-- The ring has `size` places; a byte is any number.
module _ (size : ℕ) where
  abbrev pub window : List ℕ → ℕ → ℕ → List ℕ
  window buf r zero = []
  window buf r (suc n) = get_or buf r 0 ∷ window buf ((r + 1) % size) n

  pub length-window : (buf : List ℕ) (r n : ℕ) → length (window buf r n) ≡ n
  length-window buf r zero = refl
  length-window buf r (suc n) = ap suc (length-window buf ((r + 1) % size) n)

  -- Fewer steps than there are places do not lead back.
  add-mod-ne : (r n : ℕ) → r < size → suc n < size → (r + suc n) % size ≢ r
  add-mod-ne r n hr hn = elim (dec_lt (r + suc n) size) [
    | yes p ↦ omega (arith, mod-eq_of_lt p)
    | no p ↦ omega (
      arith,
      mod-eq-sub-mod {n = r + suc n} {m = size} (omega arith),
      mod-eq_of_lt {n = r + suc n - size} {m = size} (omega arith),
    )
  ]

  -- Writing just behind a window that does not fill the ring extends it by what is written.
  pub window-set :
      (buf : List ℕ) (r n w c : ℕ)
      → length buf ≡ size
      → r < size
      → n < size
      → w ≡ (r + n) % size
      → window (set buf w c) r (suc n) ≡ window buf r n ++ (c ∷ [])
  window-set buf r zero w c e hr hn at =
      let same : w ≡ r = at ∙ ap (λ k. k % size) (omega arith) ∙ mod-eq_of_lt hr in
      rw same (ap₂ ◌∷◌ (get_or-set_self buf r c 0 (omega arith)) refl)
  window-set buf r (suc n) w c e hr hn at =
      let ne : w ≢ r = rw at (add-mod-ne r n hr hn) in
      let next : w ≡ ((r + 1) % size + n) % size =
        at ∙ rw mod-add-mod (ap (λ k. k % size) (omega arith)) in
      ap₂ ◌∷◌ (get_or-set_ne buf w r c 0 ne)
        (window-set buf ((r + 1) % size) n w c e (omega arith) (omega arith) next)
