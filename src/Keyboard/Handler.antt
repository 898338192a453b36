-- ===== src/Keyboard/Handler.antt =====
-- `keyboardHandler` of Kernel/drivers/keyboardDriver.c keeps the ring in order.
use dog_os.Prelude.{
  ℕ, ◌+◌, Bool, true, false, not, ◌&&◌, ◌||◌, Option, none, some, List, [], ◌∷◌, ◌++◌, leb, ◌==◌,
  if◌then◌else◌, if-both, get_or, Bool-cases, inl, inr, bit_and,
}
use dog_os.Keyboard.{
  Keyboard, Effect, kill_foreground, update_registers, change_screen, left_shift, right_shift,
  caps_lock_key, ctrl_key, Action, press, release, error, get_action, char_table, shifted,
  put_char_in_buffer, char_key, press_key, release_key, clean_keyboard_buffer,
  clean_buffer_of_screen, keyboard_handler,
}
use dog_os.Keyboard.Ring.{IsRing, push_char-IsRing, clean_keyboard_buffer-IsRing}

-- What a key leaves keeps the ring in order.
record Keeps (r : List Effect × Keyboard) : Type 0 where
  ring : IsRing r.1

put_char_in_buffer-IsRing : (c : ℕ) (k : Keyboard) → IsRing k → Keeps (put_char_in_buffer c k)
unfolding put_char_in_buffer
put_char_in_buffer-IsRing c k v = elim (Bool-cases (c == 0)) [
  | inl e ↦ record { ring = rw e v }
  | inr e ↦ record { ring = rw e (push_char-IsRing c k v) }
]

Keeps-if :
    (b : Bool) (x y : List Effect × Keyboard) → Keeps x → Keeps y → Keeps (if b then x else y)
Keeps-if = if-both Keeps

char_key-IsRing : (code : ℕ) (k : Keyboard) → IsRing k → Keeps (char_key code k)
unfolding char_key
char_key-IsRing code k v =
    let put : (c : ℕ) → Keeps (put_char_in_buffer c k) = λ c. put_char_in_buffer-IsRing c k v in
    let tab =
      put_char_in_buffer-IsRing 9 (clean_keyboard_buffer k) (clean_keyboard_buffer-IsRing k v) in
    let same : (es : List Effect) → Keeps (es, k) = λ es. record { ring = v } in
    let plain = (get_or char_table code (0, 0)).0 in
    let upper = (get_or char_table code (0, 0)).1 in
    let r₁ = Keeps-if (plain == 96) _ _ (same []) (put plain) in
    let r₂ = Keeps-if (shifted k plain) _ _ (put upper) r₁ in
    let r₃ = Keeps-if (k.ctrl && (plain == b'd')) _ _ (put 96) r₂ in
    let r₄ = Keeps-if (k.ctrl && (plain == b'c')) _ _ (same (kill_foreground ∷ [])) r₃ in
    let r₅ = Keeps-if (k.ctrl && (plain == b'r')) _ _ (same (update_registers ∷ [])) r₄ in
    let tab' : Keeps (
      (clean_buffer_of_screen k).0
          ++ (change_screen ∷ (put_char_in_buffer 9 (clean_keyboard_buffer k)).0),
      (put_char_in_buffer 9 (clean_keyboard_buffer k)).1,
    ) =
      record { ring = tab.ring } in
    let r₆ = Keeps-if (k.ctrl && (plain == 9)) _ _ tab' r₅ in Keeps-if (plain == 0) _ _ (same []) r₆

-- The modifier keys leave the ring alone.
IsRing-modifiers :
    (k : Keyboard) (shift ctrl caps : Bool)
    → IsRing k
    → IsRing (record k { shift = shift; ctrl = ctrl; caps_lock = caps })
IsRing-modifiers k shift ctrl caps v = record {
  array = v.array;
  read = v.read;
  write = v.write;
  fits = v.fits;
}

press_key-IsRing : (code : ℕ) (k : Keyboard) → IsRing k → Keeps (press_key code k)
unfolding press_key
press_key-IsRing code k v =
    let r₁ =
      Keeps-if (leb 58 code || (not (bit_and code 0x80 == 0) || ((code == 15) && not k.ctrl)))
        ([], k) _ (record { ring = v }) (char_key-IsRing code k v) in
    let r₂ =
      Keeps-if (code == ctrl_key) ([], record k { ctrl = true }) _
        (record { ring = IsRing-modifiers k k.shift true k.caps_lock v }) r₁ in
    let r₃ =
      Keeps-if (code == caps_lock_key) ([], record k { caps_lock = not k.caps_lock }) _
        (record { ring = IsRing-modifiers k k.shift k.ctrl (not k.caps_lock) v }) r₂ in
    Keeps-if ((code == left_shift) || (code == right_shift)) ([], record k { shift = true }) _
      (record { ring = IsRing-modifiers k true k.ctrl k.caps_lock v }) r₃

release_key-IsRing : (code : ℕ) (k : Keyboard) → IsRing k → Keeps (release_key code k)
unfolding release_key
release_key-IsRing code k v =
    let r₁ =
      Keeps-if (code == ctrl_key + 0x80) ([], record k { ctrl = false }) ([], k)
        (record { ring = IsRing-modifiers k k.shift false k.caps_lock v }) (record { ring = v }) in
    Keeps-if ((code == left_shift + 0x80) || (code == right_shift + 0x80))
      ([], record k { shift = false }) _
      (record { ring = IsRing-modifiers k false k.ctrl k.caps_lock v }) r₁

by_action :
    (a : Action) (x y z : List Effect × Keyboard)
    → Keeps x
    → Keeps y
    → Keeps z
    → Keeps (elim a [ press ↦ x | release ↦ y | error ↦ z ])
by_action press x y z h k l = h
by_action release x y z h k l = k
by_action error x y z h k l = l

-- Whatever key the controller reports, the indices stay in the array and around the characters.
pub keyboard_handler-IsRing :
    (key : Option ℕ) (k : Keyboard) → IsRing k → IsRing (keyboard_handler key k).1
unfolding keyboard_handler
keyboard_handler-IsRing none k v = v
keyboard_handler-IsRing (some code) k v =
    (by_action (get_action code) (press_key code k) (release_key code k) ([], k)
      (press_key-IsRing code k v) (release_key-IsRing code k v) (record { ring = v })).ring
