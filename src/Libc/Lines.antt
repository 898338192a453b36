-- ===== src/Libc/Lines.antt =====
-- What `readText` and `scanf` of libraries/libc.c make of a line that is typed with backspaces.
use dog_os.Prelude.{
  ℕ, suc, ◌+◌, ◌-◌, ◌<◌, ◌≤◌, ◌≡◌, refl, ap, ◌∙◌, ◌≢◌, true, false, List, [], ◌∷◌, ◌++◌, map, ltb,
  ◌==◌, if◌then◌else◌, put, put_self, put_ne, drop, length, arith, Bool-cases, inl, inr, append-nil,
}
use dog_os.Prelude.Int.{pos, sub_one}
use dog_os.Libc.Format.{buff_len}
use dog_os.Libc.Input.{
  Input, Shown, put_char, store_char, type_char, read_loop, end_line, string_at, Outcome, done,
  waits, outside, and_then,
}

-- A line is given from its last character to its first, as it is edited: a backspace takes the last one.
abbrev pub edit_char : ℕ → List ℕ → List ℕ
edit_char c line = if c == 8 then drop 1 line else c ∷ line

abbrev pub edit : List ℕ → List ℕ → List ℕ
edit [] line = line
edit (c ∷ cs) line = edit cs (edit_char c line)

-- The characters in their order, and others behind them.
abbrev pub turned : List ℕ → List ℕ → List ℕ
turned [] ys = ys
turned (x ∷ xs) ys = turned xs (x ∷ ys)

-- Characters that can be typed behind a line: none is 0, the end of the line, a tab or no character at all,
-- there is room for each, and there is a character for each backspace to take.
abbrev pub CanType : List ℕ → List ℕ → Type 0
CanType [] line = Unit
CanType (c ∷ cs) line =
    ((c ≢ 0) × (c ≢ b'\n') × (c ≢ b'\t') × (c ≢ 255))
    × (length line < buff_len - 1)
    × ((c ≡ 8) → 0 < length line)
    × CanType cs (edit_char c line)

abbrev pub Written : (ℕ → ℕ) → List ℕ → Type 0
Written buffer [] = Unit
Written buffer (c ∷ line) = (buffer (length line) ≡ c) × Written buffer line

abbrev pub NoZero : List ℕ → Type 0
NoZero [] = Unit
NoZero (c ∷ line) = (c ≢ 0) × NoZero line

-- The line is in the buffer.
pub record InBuffer (r : Input) (line : List ℕ) : Type 0 where
  pub size : r.buff_size ≡ pos (length line)
  pub written : Written r.buffer line
  pub whole : NoZero line
  pub small : length line < buff_len

Written-put :
    (buffer : ℕ → ℕ) (i c : ℕ) (line : List ℕ)
    → length line ≤ i
    → Written buffer line
    → Written (put buffer i c) line
Written-put buffer i c [] h w = tt
Written-put buffer i c (d ∷ line) h w = (
  put_ne buffer i c (length line) (omega arith) ∙ w.0,
  Written-put buffer i c line (omega arith) w.1,
)

-- The line that is in the buffer, with the 0 behind it, as a string.
string_at-turned :
    (line : List ℕ) (fuel : ℕ) (buffer : ℕ → ℕ) (ys : List ℕ)
    → Written buffer line
    → NoZero line
    → string_at fuel buffer (length line) ≡ ys
    → string_at (length line + fuel) buffer 0 ≡ turned line ys
unfolding string_at
string_at-turned [] fuel buffer ys w whole h = ap (λ n. string_at n buffer 0) (omega arith) ∙ h
string_at-turned (c ∷ line) fuel buffer ys w whole h =
    let some_char : (buffer (length line) == 0) ≡ false = ground (arith, w.0, whole.0) in
    let next : string_at fuel buffer (length line + 1) ≡ ys =
      ap (string_at fuel buffer) (omega arith) ∙ h in
    let here : string_at (suc fuel) buffer (length line) ≡ c ∷ ys =
      rw (some_char, string_at) (rw next (ap (λ x. x ∷ ys) w.0)) in
    ap (λ n. string_at n buffer 0) (omega arith)
    ∙ string_at-turned line (suc fuel) buffer (c ∷ ys) w.1 whole.1 here

-- A character goes behind the line.
store_char-put :
    (c : ℕ) (r : Input) (line : List ℕ)
    → InBuffer r line
    → length line < buff_len - 1
    → store_char c r
      ≡ done (record r { buff_size = pos (length line + 1); buffer = put r.buffer (length line) c })
unfolding store_char
store_char-put c r line v room =
    let fits : ltb (length line) (buff_len - 1) ≡ true = ground arith in
    rw (v.size, store_char) (rw fits refl)

-- A backspace goes there too, and then the last two characters are taken.
type_char_back :
    (c : ℕ) (r : Input) (line : List ℕ)
    → InBuffer r line
    → (c == 8) ≡ true
    → (c == b'\t') ≡ false
    → length line < buff_len - 1
    → 0 < length line
    → (s : Input) × (type_char c r ≡ done (s, put_char c ∷ [])) × InBuffer s (drop 1 line)
unfolding type_char
type_char_back c r [] v e not_tab room some_line = absurd (omega arith)
type_char_back c r (d ∷ line) v e not_tab room some_line =
    let twice : sub_one (sub_one (pos (length (d ∷ line) + 1))) ≡ pos (length line) =
      ap (λ n. sub_one (sub_one (pos n))) {y = suc (suc (length line))} (omega arith) in
    (
      record r {
        buff_size = sub_one (sub_one (pos (length (d ∷ line) + 1)));
        buffer = put r.buffer (length (d ∷ line)) c;
      },
      rw (store_char-put c r (d ∷ line) v room, not_tab, e) refl,
      record {
        size = twice;
        written = Written-put r.buffer (length (d ∷ line)) c line (omega arith) v.written.1;
        whole = v.whole.1;
        small = omega (arith, v.small);
      },
    )

type_char_step :
    (c : ℕ) (r : Input) (line : List ℕ)
    → InBuffer r line
    → (c ≢ 0) × (c ≢ b'\t')
    → length line < buff_len - 1
    → ((c ≡ 8) → 0 < length line)
    → (s : Input) × (type_char c r ≡ done (s, put_char c ∷ [])) × InBuffer s (edit_char c line)
unfolding type_char
type_char_step c r line v (some_char, no_tab) room back =
    let stored = store_char-put c r line v room in
    let not_tab : (c == b'\t') ≡ false = ground arith in
    elim (Bool-cases (c == 8)) [
      | inr e ↦ (
        record r { buff_size = pos (length line + 1); buffer = put r.buffer (length line) c },
        rw (stored, not_tab, e) refl,
        rw e (record {
          size = ap pos (omega arith);
          written = (
            put_self r.buffer (length line) c,
            Written-put r.buffer (length line) c line (omega arith) v.written,
          );
          whole = (some_char, v.whole);
          small = omega arith;
        }),
      )
      | inl e ↦
          let (s, step, v') = type_char_back c r line v e not_tab room (back (ground (arith, e))) in
          (s, step, rw e v')
    ]

string_at_end :
    (fuel : ℕ) (buffer : ℕ → ℕ) (j : ℕ) → buffer j ≡ 0 → string_at (suc fuel) buffer j ≡ []
unfolding string_at
string_at_end fuel buffer j h =
    let none_there : (buffer j == 0) ≡ true = ground arith in rw none_there refl

abbrev Loop : Type 0
Loop = Input × List Shown × List ℕ

-- What appears in a later part of the loop comes behind what has appeared.
abbrev pub behind : List Shown → Loop → Outcome Loop
behind shown u = done (u.0, shown ++ u.1, u.2)

and_then-behind : (o : Outcome Loop) → o ≡ and_then o (behind [])
and_then-behind (done u) = refl
and_then-behind waits = refl
and_then-behind (outside i v) = refl

and_then_twice :
    (o : Outcome Loop) (shown : Shown) (more : List Shown)
    → and_then (and_then o (behind more)) (behind (shown ∷ [])) ≡ and_then o (behind (shown ∷ more))
and_then_twice (done u) shown more = refl
and_then_twice waits shown more = refl
and_then_twice (outside i v) shown more = refl

-- The loop of `readText`, up to any character behind what can be typed.
pub read_loop-behind :
    (cs : List ℕ) (line rest : List ℕ) (r : Input)
    → InBuffer r line
    → CanType cs line
    → (s : Input) × (read_loop (cs ++ rest) r
        ≡ and_then (read_loop rest s) (behind (map put_char cs)))
      × InBuffer s (edit cs line)
unfolding read_loop
read_loop-behind [] line rest r v h = (r, and_then-behind (read_loop rest r), v)
read_loop-behind (c ∷ cs) line rest r v ((some_char, no_end, no_tab, no_none), room, back, h) =
    let (s, step, v') = type_char_step c r line v (some_char, no_tab) room back in
    let (s', loop, v'') = read_loop-behind cs (edit_char c line) rest s v' h in
    let on : (c == b'\n') ≡ false = ground arith in
    let got : (c == 255) ≡ false = ground arith in
    (
      s',
      rw (on, read_loop)
          (rw (got, read_loop)
            (rw (step, read_loop)
              (ap (λ o. and_then o (behind (put_char c ∷ []))) loop
                ∙ and_then_twice (read_loop rest s') (put_char c) (map put_char cs)))),
      v'',
    )

-- The loop of `readText`, up to the end of the line.
pub read_loop-edit :
    (cs : List ℕ) (line rest : List ℕ) (r : Input)
    → InBuffer r line
    → CanType cs line
    → (s : Input) × (read_loop (cs ++ (b'\n' ∷ rest)) r ≡ done (s, map put_char cs, rest))
      × InBuffer s (edit cs line)
unfolding read_loop
read_loop-edit cs line rest r v h =
    let (s, loop, v') = read_loop-behind cs line (b'\n' ∷ rest) r v h in
    (s, loop ∙ ap (λ l. done (s, l, rest)) (append-nil (map put_char cs)), v')

pub end_line-string_at :
    (s : Input) (line : List ℕ)
    → InBuffer s line
    → (s' : Input) × (end_line s ≡ done s') × (string_at buff_len s'.buffer 0 ≡ turned line [])
unfolding end_line
end_line-string_at s line v =
    let s' : Input = record s {
      buff_size = pos (length line + 2);
      buffer = put s.buffer (length line) 0;
    } in
    let fuel : ℕ = buff_len - length line - 1 in
    (
      s',
      rw v.size refl,
      ap (λ n. string_at n s'.buffer 0) (omega (arith, v.small))
          ∙ string_at-turned line (suc fuel) s'.buffer []
              (Written-put s.buffer (length line) 0 line (omega arith) v.written) v.whole
              (string_at_end fuel s'.buffer (length line) (put_self s.buffer (length line) 0)),
    )
