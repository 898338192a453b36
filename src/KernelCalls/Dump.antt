-- ===== src/KernelCalls/Dump.antt =====
-- When `getMem` of libraries/syscalls.c ends.
use dog_os.Prelude.{
  ℕ, zero, suc, ◌+◌, ◌*◌, ◌/◌, ◌%◌, ◌^◌, ◌≤◌, ◌<◌, ◌≡◌, ◌∙◌, refl, ap, subst, true, false, none,
  some, arith, ltb, leb, put, if◌then◌else◌, ◌&&◌, ◌-◌, ◌⊎◌, inl, inr,
}
use mathlib.Core.Path.{ap₂}
use native.Mathlib.Decide.{dec_lt}
use dog_os.KernelCalls.{get_mem_loop, get_mem, get_current_time}

-- What stands at `a`, when the places of the buffer from `i` on and before `bytes` have been filled.
abbrev pub dumped : (m : ℕ → ℕ) (direc i bytes buffer : ℕ) → ℕ → ℕ
dumped m direc i bytes buffer a =
    if leb (buffer + i) a && ltb a (buffer + bytes) then m (direc + (a - buffer)) % 256 else m a

-- The bytes that are read and the buffer do not overlap, and have addresses of 64 bits.
abbrev pub Separate : (direc bytes buffer : ℕ) → Type 0
Separate direc bytes buffer =
    ((direc + bytes ≤ buffer) ⊎ (buffer + bytes ≤ direc))
    × (direc + bytes < 2 ^ 64)
    × (buffer + bytes < 2 ^ 64)

dumped-next :
    (m : ℕ → ℕ) (direc i bytes buffer a : ℕ)
    → i < bytes
    → Separate direc bytes buffer
    → dumped (put m (buffer + i) (m (direc + i) % 256)) direc (i + 1) bytes buffer a
      ≡ dumped m direc i bytes buffer a
dumped-next m direc i bytes buffer a more (apart, _, _) =
    let v : ℕ = m (direc + i) % 256 in
    elim (dec_lt a (buffer + i)) [
      | yes before ↦ ground arith
      | no up ↦ elim (dec_lt (buffer + i) a) [
        | yes behind ↦ elim apart [ inl h ↦ ground arith | inr h ↦ ground arith ]
        | no same ↦
            let here : buffer + i ≡ a = omega arith in
            subst
              (λ b.
                dumped (put m (buffer + i) v) direc (i + 1) bytes buffer b
                ≡ dumped m direc i bytes buffer b)
              here (ground arith)
      ]
    ]

get_mem_loop-ends :
    (fuel i bytes direc buffer : ℕ) (m : ℕ → ℕ)
    → bytes < 256
    → bytes < fuel + i
    → i ≤ bytes
    → Separate direc bytes buffer
    → (m' : ℕ → ℕ) × (get_mem_loop fuel direc i bytes buffer m ≡ some m')
      × ((a : ℕ) → m' a ≡ dumped m direc i bytes buffer a)
unfolding get_mem_loop
get_mem_loop-ends zero i bytes direc buffer m small enough low sep = absurd (omega arith)
get_mem_loop-ends (suc fuel) i bytes direc buffer m small enough low sep = elim (dec_lt i bytes) [
  | yes more ↦
      let on : ltb i bytes ≡ true = ground arith in
      let next : (i + 1) % 256 ≡ i + 1 = omega arith in
      let from : (direc + i) % 2 ^ 64 ≡ direc + i = omega arith in
      let into : (buffer + i) % 2 ^ 64 ≡ buffer + i = omega arith in
      let (m', done, filled) =
        get_mem_loop-ends fuel (i + 1) bytes direc buffer (put m (buffer + i) (m (direc + i) % 256))
          small (omega arith) (omega arith) sep in
      (
        m',
        rw (on, get_mem_loop)
            (ap
                (λ j.
                  get_mem_loop fuel direc j bytes buffer
                    (put m ((buffer + i) % 2 ^ 64) (m ((direc + i) % 2 ^ 64) % 256)))
                next
              ∙ ap₂ (λ p q. get_mem_loop fuel direc (i + 1) bytes buffer (put m p (m q % 256))) into
                  from
              ∙ done),
        λ a. filled a ∙ dumped-next m direc i bytes buffer a more sep,
      )
  | no last ↦
      let off : ltb i bytes ≡ false = ground arith in
      (m, rw (off, get_mem_loop) refl, λ a. ground arith)
]

get_mem_loop-endless :
    (fuel i bytes direc buffer : ℕ) (m : ℕ → ℕ)
    → 256 ≤ bytes
    → i < 256
    → get_mem_loop fuel direc i bytes buffer m ≡ none
unfolding get_mem_loop
get_mem_loop-endless zero i bytes direc buffer m big low = refl
get_mem_loop-endless (suc fuel) i bytes direc buffer m big low =
    let on : ltb i bytes ≡ true = ground arith in
    rw (on, get_mem_loop)
      (get_mem_loop-endless fuel ((i + 1) % 256) bytes direc buffer
        (put m ((buffer + i) % 2 ^ 64) (m ((direc + i) % 2 ^ 64) % 256)) big (omega arith))

-- `getMem` of fewer than 256 bytes, which lie apart from the buffer and end like it below 2 ^ 64, ends, with
-- more rounds of fuel than bytes: it has then filled the buffer with them and changed nothing else.
pub get_mem-dumped :
    (fuel bytes direc buffer : ℕ) (m : ℕ → ℕ)
    → bytes < 256
    → bytes < fuel
    → Separate direc bytes buffer
    → (m' : ℕ → ℕ) × (get_mem fuel direc buffer bytes m ≡ some m')
      × ((a : ℕ) → m' a ≡ dumped m direc 0 bytes buffer a)
unfolding get_mem
get_mem-dumped fuel bytes direc buffer m small enough sep =
    get_mem_loop-ends fuel 0 bytes direc buffer m small (omega arith) (omega arith) sep

-- `getMem` of 256 bytes or more does not end, whatever the fuel.
pub get_mem-endless :
    (fuel bytes direc buffer : ℕ) (m : ℕ → ℕ)
    → 256 ≤ bytes
    → get_mem fuel direc buffer bytes m ≡ none
unfolding get_mem
get_mem-endless fuel bytes direc buffer m big =
    get_mem_loop-endless fuel 0 bytes direc buffer m big (omega arith)

-- The clock's two decimal digits are read as the number they mean.
pub get_current_time-digits : (n : ℕ) → n < 100 → get_current_time (n / 10 * 16 + n % 10) ≡ n
get_current_time-digits n small = omega arith
