-- ===== src/Keyboard.antt =====
-- Kernel/drivers/keyboardDriver.c: the keyboard's ring of characters, its modifier keys, and the
-- interrupt handler. The calls that the handler makes of other drivers, of the semaphore for which
-- readers wait and of the process manager are listed in order beside the new state.
mod Ring
mod Handler
mod Typing
mod Tests
use dog_os.Prelude.{
  ℕ, zero, suc, ◌+◌, ◌-◌, ◌%◌, Bool, true, false, not, ◌&&◌, ◌||◌, Option, none, some, List, [],
  ◌∷◌, ◌++◌, ltb, leb, ◌==◌, if◌then◌else◌, get_or, set, replicate, bit_and,
}
use dog_os.Prelude.Int.{ℤ, pos, minus_one}

abbrev pub buff_len : ℕ
buff_len = 30

abbrev pub left_shift : ℕ
left_shift = 0x2A

abbrev pub right_shift : ℕ
right_shift = 0x36

abbrev pub caps_lock_key : ℕ
caps_lock_key = 0x3A

abbrev pub ctrl_key : ℕ
ctrl_key = 0x1D

pub data Action : Type 0 where
  press release error : Action

-- `getAction`. (The -1 that the code returns for `error` is cut to 255.)
unfoldable pub get_action : ℕ → Action
get_action code =
    if leb 0x01 code && leb code 0x3A
    then press
    else if leb 0x81 code && leb code 0xBA
    then release
    else error

-- The character of a key, plain and shifted; 0 where there is none.
unfoldable pub char_table : List (ℕ × ℕ)
char_table =
    (0, 0)
    ∷ (0, 0)
    ∷ (b'1', b'!')
    ∷ (b'2', b'@')
    ∷ (b'3', b'#')
    ∷ (b'4', b'$')
    ∷ (b'5', b'%')
    ∷ (b'6', b'^')
    ∷ (b'7', b'&')
    ∷ (b'8', b'*')
    ∷ (b'9', b'(')
    ∷ (b'0', b')')
    ∷ (b'-', b'_')
    ∷ (b'=', b'+')
    ∷ (8, 8)
    ∷ (9, 9)
    ∷ (b'q', b'Q')
    ∷ (b'w', b'W')
    ∷ (b'e', b'E')
    ∷ (b'r', b'R')
    ∷ (b't', b'T')
    ∷ (b'y', b'Y')
    ∷ (b'u', b'U')
    ∷ (b'i', b'I')
    ∷ (b'o', b'O')
    ∷ (b'p', b'P')
    ∷ (b'[', b'{')
    ∷ (b']', b'}')
    ∷ (10, 10)
    ∷ (0, 0)
    ∷ (b'a', b'A')
    ∷ (b's', b'S')
    ∷ (b'd', b'D')
    ∷ (b'f', b'F')
    ∷ (b'g', b'G')
    ∷ (b'h', b'H')
    ∷ (b'j', b'J')
    ∷ (b'k', b'K')
    ∷ (b'l', b'L')
    ∷ (b';', b':')
    ∷ (39, 34)
    ∷ (96, b'~')
    ∷ (0, 0)
    ∷ (92, b'|')
    ∷ (b'z', b'Z')
    ∷ (b'x', b'X')
    ∷ (b'c', b'C')
    ∷ (b'v', b'V')
    ∷ (b'b', b'B')
    ∷ (b'n', b'N')
    ∷ (b'm', b'M')
    ∷ (b',', b'<')
    ∷ (b'.', b'>')
    ∷ (b'/', b'?')
    ∷ (0, 0)
    ∷ (0, 0)
    ∷ (0, 0)
    ∷ (b' ', b' ')
    ∷ []

-- The static variables of keyboardDriver.c.
pub record Keyboard : Type 0 where
  pub buffer : List ℕ
  pub buff_size : ℕ
  pub ridx : ℕ
  pub widx : ℕ
  pub shift : Bool
  pub ctrl : Bool
  pub caps_lock : Bool

-- Calls of other parts of the kernel: `semPost` of the keyboard's semaphore, `killCurrentFGProcess`,
-- `updateRegisters`, `stopCursor`, `deleteChar` and `changeCurrentScreen`.
pub data Effect : Type 0 where
  post_semaphore kill_foreground update_registers stop_cursor delete_char change_screen : Effect

unfoldable pub clean_keyboard_buffer : Keyboard → Keyboard
clean_keyboard_buffer k = record k { buff_size = 0; widx = 0; ridx = 0 }

-- The write of `putCharInBuffer`; a full ring loses its oldest character.
unfoldable pub push_char : ℕ → Keyboard → Keyboard
push_char c k =
    let after : ℕ = if k.widx + 1 == buff_len then 0 else k.widx + 1 in
    let k' : Keyboard = record k { buffer = set k.buffer k.widx c; widx = after } in
    if ltb k.buff_size buff_len
    then record k' { buff_size = k.buff_size + 1 }
    else record k' { ridx = if k.ridx + 1 == buff_len then 0 else k.ridx + 1 }

unfoldable pub put_char_in_buffer : ℕ → Keyboard → List Effect × Keyboard
unfolding push_char
put_char_in_buffer c k = (post_semaphore ∷ [], if c == 0 then k else push_char c k)

-- `cleanBufferofScreen`: the characters are deleted from the screen too.
unfoldable pub clean_buffer_of_screen : Keyboard → List Effect × Keyboard
unfolding clean_keyboard_buffer
clean_buffer_of_screen k =
    (stop_cursor ∷ replicate k.buff_size delete_char, clean_keyboard_buffer k)

abbrev pub is_lower : ℕ → Bool
is_lower c = leb b'a' c && leb c b'z'

-- Whether a character comes out shifted.
unfoldable pub shifted : Keyboard → ℕ → Bool
shifted k c =
    (k.shift && not k.caps_lock)
    || ((k.shift && (k.caps_lock && not (is_lower c)))
        || (not k.shift && (k.caps_lock && is_lower c)))

-- A key that stands for a character.
unfoldable pub char_key : ℕ → Keyboard → List Effect × Keyboard
unfolding put_char_in_buffer clean_buffer_of_screen shifted
char_key code k =
    let (plain, upper) = get_or char_table code (0, 0) in
    let (cleaning, cleaned) = clean_buffer_of_screen k in
    let (putting, k') = put_char_in_buffer 9 cleaned in
    if plain == 0
    then ([], k)
    else if k.ctrl && (plain == 9)
    then (cleaning ++ (change_screen ∷ putting), k')
    else if k.ctrl && (plain == b'r')
    then (update_registers ∷ [], k)
    else if k.ctrl && (plain == b'c')
    then (kill_foreground ∷ [], k)
    else if k.ctrl && (plain == b'd')
    then put_char_in_buffer 96 k
    else if shifted k plain
    then put_char_in_buffer upper k
    else if plain == 96
    then ([], k)
    else put_char_in_buffer plain k

unfoldable pub press_key : ℕ → Keyboard → List Effect × Keyboard
unfolding char_key
press_key code k =
    if (code == left_shift) || (code == right_shift)
    then ([], record k { shift = true })
    else if code == caps_lock_key
    then ([], record k { caps_lock = not k.caps_lock })
    else if code == ctrl_key
    then ([], record k { ctrl = true })
    else if leb 58 code || (not (bit_and code 0x80 == 0) || ((code == 15) && not k.ctrl))
    then ([], k)
    else char_key code k

unfoldable pub release_key : ℕ → Keyboard → List Effect × Keyboard
release_key code k =
    if (code == left_shift + 0x80) || (code == right_shift + 0x80)
    then ([], record k { shift = false })
    else if code == ctrl_key + 0x80
    then ([], record k { ctrl = false })
    else ([], k)

-- `keyboardHandler`: `none` where the controller has no key.
unfoldable pub keyboard_handler : Option ℕ → Keyboard → List Effect × Keyboard
unfolding press_key release_key get_action
keyboard_handler none k = ([], k)
keyboard_handler (some code) k = elim (get_action code) [
  | press ↦ press_key code k
  | release ↦ release_key code k
  | error ↦ ([], k)
]

-- The oldest character, or `none` for the -1 of an empty ring.
unfoldable pub remove_char_from_buffer : Keyboard → Option ℕ × Keyboard
remove_char_from_buffer k = if k.buff_size == 0 then (none, k) else (
  some (get_or k.buffer k.ridx 0),
  record k { ridx = (k.ridx + 1) % buff_len; buff_size = k.buff_size - 1 },
)

-- `getChar` from the return of `semWait` on: a backspace takes the character behind it along.
-- `none` has the reader halt until the next interrupt, and then ask again by
-- `remove_char_from_buffer` alone.
unfoldable pub get_char : Keyboard → Option ℕ × Keyboard
unfolding remove_char_from_buffer
get_char k =
    let (c, k') = remove_char_from_buffer k in
    elim c [
      | none ↦ (none, k')
      | some x ↦ (some x, if x == 8 then (remove_char_from_buffer k').1 else k')
    ]

-- The loop of `dumpBuffer`, for as many characters at most: what it writes, before the final 0.
unfoldable pub dump_loop : ℕ → Keyboard → List ℕ × Keyboard
unfolding remove_char_from_buffer
dump_loop zero k = ([], k)
dump_loop (suc n) k =
    let (c, k') = remove_char_from_buffer k in
    let (cs, k'') = dump_loop n k' in elim c [ none ↦ ([], k) | some x ↦ (x ∷ cs, k'') ]

-- `dumpBuffer` of `size` characters: `none` for the -1, or else what is written.
unfoldable pub dump_buffer : ℕ → Keyboard → Option (List ℕ) × Keyboard
unfolding dump_loop
dump_buffer size k =
    let (cs, k') = dump_loop (size - 1) k in
    if (size == 0) || (k.buff_size == 0) then (none, k) else (some (cs ++ (0 ∷ [])), k')
