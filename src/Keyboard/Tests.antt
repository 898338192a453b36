-- ===== src/Keyboard/Tests.antt =====
-- keyboardDriver.c on small rings, and its theorems at them.
use dog_os.Prelude.{◌≡◌, refl, true, false, some, [], ◌∷◌, ◌++◌, arith, replicate}
use dog_os.Keyboard.{Keyboard, char_table, dump_buffer, keyboard_handler}
use dog_os.Keyboard.Ring.{IsRing}
use dog_os.Keyboard.Handler.{keyboard_handler-IsRing}
use dog_os.Keyboard.Typing.{IsCharKey, press_all, dump_buffer-press_all}

-- A ring whose characters go round its end, and an empty one with the shift key held.
abbrev round : Keyboard
round = record {
  buffer = b'c' ∷ replicate 27 0 ++ (b'a' ∷ b'b' ∷ []);
  buff_size = 3;
  ridx = 28;
  widx = 1;
  shift = false;
  ctrl = false;
  caps_lock = true;
}

abbrev fresh : Keyboard
fresh = record {
  buffer = replicate 30 0;
  buff_size = 0;
  ridx = 0;
  widx = 0;
  shift = true;
  ctrl = false;
  caps_lock = false;
}

round-IsRing : IsRing round
round-IsRing = record { array = refl; read = omega arith; write = refl; fits = omega arith }

fresh-IsRing : IsRing fresh
fresh-IsRing = record { array = refl; read = omega arith; write = refl; fits = omega arith }

-- The keys Q and 1.
q-IsCharKey : IsCharKey 16
unfolding char_table
q-IsCharKey = record {
  low = omega arith;
  high = omega arith;
  modifier = (omega arith, omega arith, omega arith, omega arith);
  plain = omega arith;
  quote = omega arith;
}

one-IsCharKey : IsCharKey 2
unfolding char_table
one-IsCharKey = record {
  low = omega arith;
  high = omega arith;
  modifier = (omega arith, omega arith, omega arith, omega arith);
  plain = omega arith;
  quote = omega arith;
}

keyboard_handler-IsRing_example : IsRing (keyboard_handler (some 16) round).1
keyboard_handler-IsRing_example = keyboard_handler-IsRing (some 16) round round-IsRing

dump_buffer-press_all_example :
    (dump_buffer 3 (press_all (16 ∷ 2 ∷ []) fresh)).0 ≡ some (b'Q' ∷ b'!' ∷ 0 ∷ [])
unfolding char_table
dump_buffer-press_all_example =
    dump_buffer-press_all 16 (2 ∷ []) fresh (q-IsCharKey, (one-IsCharKey, tt)) refl fresh-IsRing
      refl (omega arith)
