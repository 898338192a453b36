-- ===== src/Keyboard/Ring.antt =====
-- The ring of characters of Kernel/drivers/keyboardDriver.c against a queue that forgets its oldest
-- characters.
use dog_os.Prelude.{
  ℕ, zero, suc, ◌+◌, ◌-◌, ◌%◌, ◌<◌, ◌≤◌, ◌≡◌, ◌∙◌, refl, sym, ap, true, false, ◌||◌, none, some,
  List, [], ◌∷◌, ◌++◌, arith, ltb, ◌==◌, if◌then◌else◌, length, length-set, take, drop,
}
use dog_os.Prelude.Ring.{window, window-set, length-window}
use native.Mathlib.Decide.{dec_lt}
use mathlib.Core.List.{head-eq_of_cons-eq, tail-eq_of_cons-eq}
use native.Mathlib.Numerals.{add-one}
use dog_os.Keyboard.{
  Keyboard, buff_len, push_char, clean_keyboard_buffer, remove_char_from_buffer, dump_loop,
  dump_buffer,
}

-- The indices are in the array, and `widx` is `buff_size` places after `ridx`.
pub record IsRing (k : Keyboard) : Type 0 where
  pub array : length k.buffer ≡ buff_len
  pub read : k.ridx < buff_len
  pub write : k.widx ≡ (k.ridx + k.buff_size) % buff_len
  pub fits : k.buff_size ≤ buff_len

-- The characters that nobody has read, the oldest first.
abbrev pub chars : Keyboard → List ℕ
chars k = window 30 k.buffer k.ridx k.buff_size

-- The queue behind which a character is put, of 30 characters at most.
abbrev pub push_spec : ℕ → List ℕ → List ℕ
push_spec c q = if ltb (length q) buff_len then q ++ (c ∷ []) else drop 1 q ++ (c ∷ [])

pub clean_keyboard_buffer-IsRing : (k : Keyboard) → IsRing k → IsRing (clean_keyboard_buffer k)
unfolding clean_keyboard_buffer
clean_keyboard_buffer-IsRing k v = record {
  array = v.array;
  read = omega arith;
  write = refl;
  fits = omega arith;
}

pub push_char-IsRing : (c : ℕ) (k : Keyboard) → IsRing k → IsRing (push_char c k)
unfolding push_char
push_char-IsRing c k v = record {
  array = ground (arith, v.array, length-set k.buffer k.widx c);
  read = ground (arith, v.read);
  write = ground (arith, v.read, v.write, v.fits);
  fits = ground (arith, v.fits);
}

pub push_char-room :
    (c : ℕ) (k : Keyboard)
    → IsRing k
    → k.buff_size < buff_len
    → chars (push_char c k) ≡ chars k ++ (c ∷ [])
unfolding push_char
push_char-room c k v h =
    let room : ltb k.buff_size buff_len ≡ true = ground arith in
    rw room (
      rw (add-one k.buff_size)
        (window-set 30 k.buffer k.ridx k.buff_size k.widx c v.array v.read h v.write))

push_char-full :
    (c : ℕ) (k : Keyboard)
    → IsRing k
    → k.buff_size ≡ buff_len
    → chars (push_char c k) ≡ drop 1 (chars k) ++ (c ∷ [])
unfolding push_char
push_char-full c k v h =
    let next : ℕ = if k.ridx + 1 == buff_len then 0 else k.ridx + 1 in
    let round : next ≡ (k.ridx + 1) % 30 = ground (arith, v.read) in
    let at : k.widx ≡ ((k.ridx + 1) % 30 + 29) % 30 = omega (arith, v.write, v.read, h) in
    rw h (
      rw round (
        window-set 30 k.buffer ((k.ridx + 1) % 30) 29 k.widx c v.array (omega arith) (omega arith)
          at))

-- Putting a character in the buffer keeps it behind the others, and the oldest is lost when there
-- are 30.
pub push_char-chars :
    (c : ℕ) (k : Keyboard) → IsRing k → chars (push_char c k) ≡ push_spec c (chars k)
push_char-chars c k v =
    let size : length (chars k) ≡ k.buff_size = length-window 30 k.buffer k.ridx k.buff_size in
    elim (dec_lt k.buff_size buff_len) [
      | yes p ↦
          let room : ltb k.buff_size buff_len ≡ true = ground arith in
          rw size (rw room (push_char-room c k v p))
      | no p ↦
          let full : ltb k.buff_size buff_len ≡ false = ground arith in
          rw size (rw full (push_char-full c k v (omega (arith, v.fits))))
    ]

remove_char-none : (k : Keyboard) → k.buff_size ≡ 0 → remove_char_from_buffer k ≡ (none, k)
unfolding remove_char_from_buffer
remove_char-none k e = let empty : (k.buff_size == 0) ≡ true = ground (arith, e) in rw empty refl

-- The characters are read in the order in which they were put.
pub remove_char-cons :
    (k : Keyboard) (c : ℕ) (q : List ℕ)
    → IsRing k
    → chars k ≡ c ∷ q
    → (k' : Keyboard) × (remove_char_from_buffer k ≡ (some c, k')) × (chars k' ≡ q) × IsRing k'
unfolding remove_char_from_buffer
remove_char-cons k c q v e =
    let size : k.buff_size ≡ suc (length q) =
      sym (length-window 30 k.buffer k.ridx k.buff_size) ∙ ap length e in
    let busy : (k.buff_size == 0) ≡ false = ground (arith, size) in
    let less : k.buff_size - 1 ≡ length q = omega (arith, size) in
    let front : window 30 k.buffer k.ridx (suc (length q)) ≡ c ∷ q = rw size at e in
    let k' : Keyboard = record k { ridx = (k.ridx + 1) % buff_len; buff_size = k.buff_size - 1 } in
    (
      k',
      rw busy (rw (head-eq_of_cons-eq front) refl),
      rw less (tail-eq_of_cons-eq front),
      record {
        array = v.array;
        read = omega arith;
        write = omega (arith, v.write, v.read, size);
        fits = omega (arith, v.fits);
      },
    )

pub size-chars : (k : Keyboard) → length (chars k) ≡ k.buff_size
size-chars k = length-window 30 k.buffer k.ridx k.buff_size

dump_loop-chars :
    (n : ℕ) (k : Keyboard) (q : List ℕ)
    → IsRing k
    → chars k ≡ q
    → (k' : Keyboard) × (dump_loop n k ≡ (take n q, k')) × (chars k' ≡ drop n q) × IsRing k'
unfolding dump_loop
dump_loop-chars zero k q v e = (k, refl, e, v)
dump_loop-chars (suc n) k [] v e =
    let r = remove_char-none k (sym (size-chars k) ∙ ap length e) in
    (k, rw (r, dump_loop) refl, e, v)
dump_loop-chars (suc n) k (c ∷ q) v e =
    let (k₁, r, e₁, v₁) = remove_char-cons k c q v e in
    let (k₂, r₂, e₂, v₂) = dump_loop-chars n k₁ q v₁ e₁ in
    (k₂, rw (r, dump_loop) (rw r (rw r₂ refl)), e₂, v₂)

-- Where there are characters, `dumpBuffer` into room for `size` of them, 1 at least, writes the oldest
-- `size - 1` ones, or all where there are fewer, and a 0, and the rest stays in the ring.
pub dump_buffer-chars :
    (size : ℕ) (k : Keyboard)
    → IsRing k
    → 0 < size
    → 0 < length (chars k)
    → (k' : Keyboard) × (dump_buffer size k ≡ (some (take (size - 1) (chars k) ++ (0 ∷ [])), k'))
      × (chars k' ≡ drop (size - 1) (chars k))
      × IsRing k'
unfolding dump_buffer
dump_buffer-chars size k v h q =
    let (k', r, e, v') = dump_loop-chars (size - 1) k (chars k) v refl in
    let proceed : ((size == 0) || (k.buff_size == 0)) ≡ false = ground (arith, size-chars k) in
    (k', rw proceed (rw r refl), e, v')
