-- ===== src/Interrupts/Gates.antt =====
-- What a processor finds in the table of interrupts that idtLoader.c fills.
use dog_os.Prelude.{
  ℕ, ◌+◌, ◌*◌, ◌^◌, ◌<◌, ◌≡◌, false, sym, refl, ◌==◌, if◌then◌else◌, Option, none, some, arith,
  true, Bool-cases, inl, inr, subst,
}
use dog_os.Interrupts.{DescrInt, Machine, Handlers, setup_idt_entry, load_idt, acs_int, entry_to}

-- The address that a processor reads from the three parts of a descriptor.
abbrev pub target : DescrInt → ℕ
target d = d.offset_l + 2 ^ 16 * d.offset_m + 2 ^ 32 * d.offset_h

-- A gate that is present, of a 64-bit interrupt, to an address in the kernel's code segment.
pub record LeadsTo (d : DescrInt) (address : ℕ) : Type 0 where
  pub target_is : target d ≡ address
  pub selector : d.selector ≡ 0x08
  pub access : d.access ≡ acs_int
  pub zeros : (d.cero ≡ 0) × (d.other_cero ≡ 0)

-- Which handler is for an interrupt: the timer, the keyboard, the system calls, and the exceptions of a
-- division by zero and of an unknown operation code.
unfoldable pub handler_of : Handlers → ℕ → Option ℕ
handler_of h i =
    if i == 0x20
    then some h.irq00_handler
    else if i == 0x21
    then some h.irq01_handler
    else if i == 0x80
    then some h.syscall_handler
    else if i == 0
    then some h.exception0_handler
    else if i == 6
    then some h.exception6_handler
    else none

-- What the table has for an interrupt afterwards.
abbrev pub Filled : Handlers → (s s' : Machine) → ℕ → Type 0
Filled h s s' i = elim (handler_of h i) [
  | none ↦ s'.idt i ≡ s.idt i
  | some address ↦ LeadsTo (s'.idt i) address
]

load_idt-others :
    (h : Handlers) (s : Machine) (i : ℕ)
    → (i == 0x20) ≡ false
    → (i == 0x21) ≡ false
    → (i == 0x80) ≡ false
    → (i == 0) ≡ false
    → (i == 6) ≡ false
    → Filled h s (load_idt h s) i
unfolding load_idt setup_idt_entry handler_of
load_idt-others h s i a b c d f =
    let none_there : handler_of h i ≡ none = rw (a, b, c, d, f) in
    let same : (load_idt h s).idt i ≡ s.idt i = rw (a, f, d, c, b) in
    subst
      (λ o. elim o [
        | none ↦ (load_idt h s).idt i ≡ s.idt i
        | some address ↦ LeadsTo ((load_idt h s).idt i) address
      ])
      (sym none_there) same

-- After `loadIdt`, where the addresses of the handlers have 64 bits, the processor is led to the handler of
-- each of the five interrupts that have one, the other descriptors are as they were, and interrupts are
-- on, of the timer and the keyboard alone.
pub load_idt-Filled :
    (h : Handlers) (s : Machine)
    → h.irq00_handler < 2 ^ 64
    → h.irq01_handler < 2 ^ 64
    → h.syscall_handler < 2 ^ 64
    → h.exception0_handler < 2 ^ 64
    → h.exception6_handler < 2 ^ 64
    → ((i : ℕ) → Filled h s (load_idt h s) i)
      × ((load_idt h s).interrupts_on ≡ true)
      × ((load_idt h s).master_mask ≡ 0xFC)
      × ((load_idt h s).slave_mask ≡ 0xFF)
unfolding load_idt setup_idt_entry handler_of
load_idt-Filled h s h₀ h₁ h₂ h₃ h₄ = (each, refl, refl, refl)
  where
    gate : (offset : ℕ) → offset < 2 ^ 64 → LeadsTo (entry_to offset) offset
    gate offset small = record {
      target_is = omega (arith, small);
      selector = refl;
      access = refl;
      zeros = (refl, refl);
    }

    at : (i n : ℕ) → (i == n) ≡ true → Filled h s (load_idt h s) n → Filled h s (load_idt h s) i
    at i n e f = let same : n ≡ i = ground arith in subst (λ j. Filled h s (load_idt h s) j) same f

    each : (i : ℕ) → Filled h s (load_idt h s) i
    each i = elim (Bool-cases (i == 0x20)) [
      | inl e ↦ at i 0x20 e (gate h.irq00_handler h₀)
      | inr a ↦ elim (Bool-cases (i == 0x21)) [
        | inl e ↦ at i 0x21 e (gate h.irq01_handler h₁)
        | inr b ↦ elim (Bool-cases (i == 0x80)) [
          | inl e ↦ at i 0x80 e (gate h.syscall_handler h₂)
          | inr c ↦ elim (Bool-cases (i == 0)) [
            | inl e ↦ at i 0 e (gate h.exception0_handler h₃)
            | inr d ↦ elim (Bool-cases (i == 6)) [
              | inl e ↦ at i 6 e (gate h.exception6_handler h₄)
              | inr f ↦ load_idt-others h s i a b c d f
            ]
          ]
        ]
      ]
    ]
