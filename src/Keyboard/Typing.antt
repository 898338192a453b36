-- ===== src/Keyboard/Typing.antt =====
-- From keys to characters: `keyboardHandler` of Kernel/drivers/keyboardDriver.c, with no control key
-- held down.
use dog_os.Prelude.{
  ℕ, zero, suc, ◌+◌, ◌-◌, ◌<◌, ◌≤◌, ◌≡◌, ◌≢◌, ◌∙◌, refl, sym, ap, Bool, true, false, not, ◌&&◌,
  ◌||◌, Option, some, List, [], ◌∷◌, ◌++◌, append-nil, append_assoc, length-append, map, arith, ltb,
  leb, ◌==◌, if◌then◌else◌, length, length-map, take_all, get_or, take, Bool-cases, inl, inr,
  bit_and,
}
use mathlib.Core.Bool.{false≢true}
use native.Mathlib.Decide.{dec_lt}
use dog_os.Keyboard.{
  Keyboard, Effect, left_shift, right_shift, caps_lock_key, ctrl_key, press, is_lower, get_action,
  char_table, shifted, push_char, put_char_in_buffer, char_key, press_key, keyboard_handler,
  dump_buffer, buff_len,
}
use mathlib.Core.Path.{ap₂}
use dog_os.Keyboard.Handler.{keyboard_handler-IsRing}
use dog_os.Keyboard.Ring.{
  size-chars, push_char-room, IsRing, chars, push_char-IsRing, dump_buffer-chars,
}

-- Caps lock turns the shift key around, for letters alone.
abbrev pub turns : Bool → Bool → Bool
turns true b = not b
turns false b = b

pub shifted-turns : (k : Keyboard) (c : ℕ) → shifted k c ≡ turns k.shift (k.caps_lock && is_lower c)
unfolding shifted
shifted-turns k c = ground arith

-- Checking a test at every number below a bound.
abbrev all_below : ℕ → (ℕ → Bool) → Bool
all_below zero f = true
all_below (suc n) f = f n && all_below n f

and_parts : (a b : Bool) → (a && b) ≡ true → (a ≡ true) × (b ≡ true)
and_parts true b h = (refl, h)
and_parts false b h = (h, absurd (false≢true h))

all_below-lt : (n i : ℕ) (f : ℕ → Bool) → all_below n f ≡ true → i < n → f i ≡ true
all_below-lt zero i f h lt = absurd (omega arith)
all_below-lt (suc n) i f h lt = elim (dec_lt i n) [
  | yes p ↦ all_below-lt n i f (and_parts (f n) (all_below n f) h).1 p
  | no p ↦ let last : i ≡ n = omega arith in rw last (and_parts (f n) (all_below n f) h).0
]

-- A key that stands for a character alone: not a modifier, the tabulator or the back quote.
pub record IsCharKey (code : ℕ) : Type 0 where
  pub low : 0 < code
  pub high : code < 58
  pub modifier : (code ≢ left_shift) × (code ≢ right_shift) × (code ≢ ctrl_key) × (code ≢ 15)
  pub plain : (get_or char_table code (0, 0)).0 ≢ 0
  pub quote : (get_or char_table code (0, 0)).0 ≢ 96

not_extended : (code : ℕ) → code < 58 → (bit_and code 0x80 == 0) ≡ true
not_extended code h = all_below-lt 58 code (λ c. bit_and c 0x80 == 0) refl h

-- The character that a key stands for, with the shift key held and caps lock on or not.
abbrev pub character : Bool → Bool → ℕ → ℕ
character shift caps code =
    let (plain, upper) = get_or char_table code (0, 0) in
    if turns shift (caps && is_lower plain) then upper else plain

press-get_action : (code : ℕ) → 0 < code → code < 58 → get_action code ≡ press
unfolding get_action
press-get_action code h l = ground arith

char_key-put :
    (code : ℕ) (k : Keyboard)
    → IsCharKey code
    → k.ctrl ≡ false
    → char_key code k ≡ put_char_in_buffer (character k.shift k.caps_lock code) k
unfolding char_key
char_key-put code k c off =
    let p : ℕ = (get_or char_table code (0, 0)).0 in
    let some_char : (p == 0) ≡ false = ground (arith, c.plain) in
    let no_quote : (p == 96) ≡ false = ground (arith, c.quote) in
    rw some_char (
      rw off (
        rw no_quote (elim (Bool-cases (shifted k p)) [
          | inl e ↦ rw (← shifted-turns k p) (rw e refl)
          | inr e ↦ rw (← shifted-turns k p) (rw e (rw some_char refl))
        ])))

press_key-char : (code : ℕ) (k : Keyboard) → IsCharKey code → press_key code k ≡ char_key code k
unfolding press_key
press_key-char code k c =
    let (l, r, x, t) = c.modifier in
    let shift : ((code == left_shift) || (code == right_shift)) ≡ false = ground arith in
    let caps : (code == caps_lock_key) ≡ false = ground (arith, c.high) in
    let ctrl : (code == ctrl_key) ≡ false = ground arith in
    let high : leb 58 code ≡ false = ground (arith, c.high) in
    let tab : (code == 15) ≡ false = ground arith in
    rw shift (rw caps (rw ctrl (rw high (rw (not_extended code c.high) (rw tab refl)))))

-- With the control key up, a key that stands for a character puts it in the buffer.
pub keyboard_handler-char :
    (code : ℕ) (k : Keyboard)
    → IsCharKey code
    → k.ctrl ≡ false
    → keyboard_handler (some code) k ≡ put_char_in_buffer (character k.shift k.caps_lock code) k
unfolding keyboard_handler
keyboard_handler-char code k c off =
    rw (press-get_action code c.low c.high, keyboard_handler)
      (press_key-char code k c ∙ char_key-put code k c off)

character-ne :
    (shift caps : Bool) (code : ℕ) → IsCharKey code → (character shift caps code == 0) ≡ false
character-ne shift caps code c =
    let (plain, upper) = get_or char_table code (0, 0) in
    let both : ((plain == 0) || not (upper == 0)) ≡ true =
      all_below-lt 58 code
        (λ i. ((get_or char_table i (0, 0)).0 == 0) || not ((get_or char_table i (0, 0)).1 == 0))
        (unfold char_table in refl) c.high in
    ground (arith, both, c.plain)

-- A character in the ring leaves the modifier keys as they are.
abbrev SameModifiers : Keyboard → Keyboard → Type 0
SameModifiers k k' = (k'.shift ≡ k.shift) × (k'.ctrl ≡ k.ctrl) × (k'.caps_lock ≡ k.caps_lock)

push_char-SameModifiers : (c : ℕ) (k : Keyboard) → SameModifiers k (push_char c k)
unfolding push_char
push_char-SameModifiers c k = elim (Bool-cases (ltb k.buff_size buff_len)) [
  | inl e ↦ rw e (refl, refl, refl)
  | inr e ↦ rw e (refl, refl, refl)
]

-- The keys of a list, pressed one after another.
abbrev pub press_all : List ℕ → Keyboard → Keyboard
press_all [] k = k
press_all (code ∷ codes) k = press_all codes (keyboard_handler (some code) k).1

abbrev pub AllCharKeys : List ℕ → Type 0
AllCharKeys [] = Unit
AllCharKeys (code ∷ codes) = IsCharKey code × AllCharKeys codes

handled :
    (code : ℕ) (k : Keyboard)
    → IsCharKey code
    → k.ctrl ≡ false
    → (keyboard_handler (some code) k).1 ≡ push_char (character k.shift k.caps_lock code) k
unfolding put_char_in_buffer
handled code k c off =
    let zero_test = character-ne k.shift k.caps_lock code c in
    ap (λ (r : List Effect × Keyboard). r.1) (keyboard_handler-char code k c off)
    ∙ ap (λ b. if b then k else push_char (character k.shift k.caps_lock code) k) zero_test

press_all-IsRing : (codes : List ℕ) (k : Keyboard) → IsRing k → IsRing (press_all codes k)
press_all-IsRing [] k v = v
press_all-IsRing (code ∷ codes) k v =
    press_all-IsRing codes (keyboard_handler (some code) k).1
      (keyboard_handler-IsRing (some code) k v)

-- With the control key up and room in the ring, the characters of the keys that are pressed stand in
-- the ring in the order of the keys, behind those that were there.
pub press_all-chars :
    (codes : List ℕ) (k : Keyboard)
    → AllCharKeys codes
    → k.ctrl ≡ false
    → IsRing k
    → length (chars k) + length codes ≤ buff_len
    → chars (press_all codes k) ≡ chars k ++ map (character k.shift k.caps_lock) codes
press_all-chars [] k cs off v room = sym (append-nil (chars k))
press_all-chars (code ∷ codes) k (c, cs) off v room =
    let x : ℕ = character k.shift k.caps_lock code in
    let k₁ : Keyboard = push_char x k in
    let (shift, ctrl, caps) = push_char-SameModifiers x k in
    let space : k.buff_size < buff_len = omega (arith, size-chars k) in
    let behind : chars k₁ ≡ chars k ++ (x ∷ []) = push_char-room x k v space in
    let fits : length (chars k₁) + length codes ≤ buff_len =
      rw behind (omega (arith, length-append (chars k) (x ∷ []))) in
    let rest = press_all-chars codes k₁ cs (ctrl ∙ off) (push_char-IsRing x k v) fits in
    ap (λ j. chars (press_all codes j)) (handled code k c off)
    ∙ rest
    ∙ ap₂ (λ l f. l ++ map f codes) behind (ap₂ character shift caps)
    ∙ append_assoc (chars k) (x ∷ []) (map (character k.shift k.caps_lock) codes)

-- What is typed into an empty ring, 30 keys at most, is what `dumpBuffer` into enough room writes.
pub dump_buffer-press_all :
    (code : ℕ) (codes : List ℕ) (k : Keyboard)
    → AllCharKeys (code ∷ codes)
    → k.ctrl ≡ false
    → IsRing k
    → chars k ≡ []
    → length (code ∷ codes) ≤ buff_len
    → (dump_buffer (length (code ∷ codes) + 1) (press_all (code ∷ codes) k)).0
      ≡ some (map (character k.shift k.caps_lock) (code ∷ codes) ++ (0 ∷ []))
dump_buffer-press_all code codes k cs off v empty room =
    let q : List ℕ = map (character k.shift k.caps_lock) (code ∷ codes) in
    let typed : chars (press_all (code ∷ codes) k) ≡ q =
      press_all-chars (code ∷ codes) k cs off v (rw empty (omega arith)) ∙ ap (λ l. l ++ q) empty in
    let n : ℕ = length (code ∷ codes) + 1 in
    let size : length q ≡ length (code ∷ codes) =
      length-map (character k.shift k.caps_lock) (code ∷ codes) in
    let (k', dumped, left, ring) =
      dump_buffer-chars n (press_all (code ∷ codes) k) (press_all-IsRing (code ∷ codes) k v)
        (omega arith) (rw typed (omega arith)) in
    let whole : take (n - 1) q ≡ q = take_all (n - 1) q (omega arith) in
    ap (λ (r : Option (List ℕ) × Keyboard). r.0) dumped
    ∙ ap (λ l. some (l ++ (0 ∷ []))) (ap (take (n - 1)) typed ∙ whole)
