-- ===== src/Libc/Scan.antt =====
-- `scanf` of libraries/libc.c on a line that is typed, and lines that `readText` writes outside the buffer.
use dog_os.Prelude.{
  ℕ, ◌≡◌, refl, ap, ◌∙◌, ◌≢◌, false, some, subst, if◌then◌else◌, List, [], ◌∷◌, ◌++◌, map, ◌==◌,
  ◌>>=◌, arith, Bool-cases, inl, inr,
}
use dog_os.Prelude.Int.{ℤ, pos, minus_one}
use dog_os.Libc.Format.{buff_len}
use dog_os.Libc.Input.{
  Input, Shown, put_char, new_line, store_char, type_char, read_loop, end_line, read_text,
  string_at, scanf, scan_line, Line, Scanned, scan_loop, Outcome, done, waits, outside, and_then,
  result_of,
}
use dog_os.Libc.Lines.{
  edit, turned, CanType, InBuffer, behind, read_loop-behind, read_loop-edit, end_line-string_at,
}

-- The characters that stay of those that are typed.
abbrev pub line_of : List ℕ → List ℕ
line_of typed = turned (edit typed []) []

-- What is typed up to the end of a line is shown, and the characters that the backspaces leave stand in the
-- buffer as a string: where no character is a tab, there is room for each and a character for each backspace
-- to take, `readText` returns, and leaves what comes behind the line.
pub read_text-line_of :
    (typed rest : List ℕ) (r : Input)
    → r.buff_size ≡ pos 0
    → CanType typed []
    → (s : Input) × (read_text (typed ++ (b'\n' ∷ rest)) r
        ≡ done (s, map put_char typed ++ (new_line ∷ []), rest))
      × (string_at buff_len s.buffer 0 ≡ line_of typed)
unfolding read_text
read_text-line_of typed rest r empty h =
    let v : InBuffer r [] = record {
      size = empty;
      written = tt;
      whole = tt;
      small = omega arith;
    } in
    let (s, loop, v') = read_loop-edit typed [] rest r v h in
    let (s', end, text) = end_line-string_at s (edit typed []) v' in (s', rw (loop, end) refl, text)

scanf-scan_loop :
    (format typed rest : List ℕ) (r s : Input) (shown : List Shown) (vs : List Scanned) (n : ℕ)
    → read_text typed (record r { buff_size = pos 0 }) ≡ done (s, shown, rest)
    → scan_loop false format (string_at buff_len s.buffer 0) 0 ≡ some (vs, n)
    → scanf format typed r
      ≡ some (record { result = n; scanned = vs; input = s; shown = shown; rest = rest })
unfolding scanf scan_line
scanf-scan_loop format typed rest r s shown vs n read scanned =
    ap (λ o. result_of o >>= scan_line format) read
    ∙ ap
        (λ o. o >>= λ (w : List Scanned × ℕ).
          some (record { result = w.1; scanned = w.0; input = s; shown = shown; rest = rest }))
        scanned

-- `scanf` on a line that is typed reads what the format asks for from the characters that the backspaces
-- leave, whatever was in the buffer.
pub scanf-line_of :
    (format typed rest : List ℕ) (r : Input) (vs : List Scanned) (n : ℕ)
    → CanType typed []
    → scan_loop false format (line_of typed) 0 ≡ some (vs, n)
    → (l : Line) × (scanf format (typed ++ (b'\n' ∷ rest)) r ≡ some l)
      × (l.scanned ≡ vs)
      × (l.result ≡ n)
      × (l.shown ≡ map put_char typed ++ (new_line ∷ []))
      × (l.rest ≡ rest)
scanf-line_of format typed rest r vs n h scanned =
    let (s, read, text) = read_text-line_of typed rest (record r { buff_size = pos 0 }) refl h in
    (
      _,
      scanf-scan_loop format (typed ++ (b'\n' ∷ rest)) rest r s _ vs n read (rw text scanned),
      refl,
      refl,
      refl,
      refl,
    )

-- A backspace on an empty line is stored and takes two characters: the next character, or the 0 of the end of
-- the line, is written before the buffer.
back_then :
    (c : ℕ) (cs : List ℕ) (r : Input)
    → InBuffer r []
    → c ≢ 255
    → and_then (read_loop (8 ∷ c ∷ cs) r) (λ (u : Input × List Shown × List ℕ). end_line u.0)
      ≡ outside minus_one (if c == b'\n' then 0 else c)
unfolding read_loop type_char store_char end_line
back_then c cs r v some_char =
    let got : (c == 255) ≡ false = ground arith in
    elim (Bool-cases (c == b'\n')) [
      | inl e ↦ rw (v.size, e) refl
      | inr e ↦ rw (v.size, e, got) refl
    ]

-- What makes the end of a line be written outside makes `readText` write there, whatever appears.
outside-shown :
    (o : Outcome (Input × List Shown × List ℕ)) (shown : List Shown) (i : ℤ) (value : ℕ)
    → and_then o (λ (u : Input × List Shown × List ℕ). end_line u.0) ≡ outside i value
    → and_then {B = Input × List Shown × List ℕ}
        (and_then o (behind shown))
        (λ (u : Input × List Shown × List ℕ).
          and_then (end_line u.0) (λ s. done (s, u.1 ++ (new_line ∷ []), u.2)))
      ≡ outside i value
outside-shown (done u) shown i value h =
    ap
      (λ o.
        and_then {B = Input × List Shown × List ℕ} o
          (λ s. done (s, (shown ++ u.1) ++ (new_line ∷ []), u.2)))
      h
outside-shown waits shown i value h =
    ap (λ o. and_then {B = Input × List Shown × List ℕ} o (λ s. done (s, [], []))) h
outside-shown (outside j v) shown i value h =
    ap (λ o. and_then {B = Input × List Shown × List ℕ} o (λ s. done (s, [], []))) h

-- Where characters that can be typed were typed on a new line and backspaces have taken all of them, one more
-- leaves the index of the buffer at -1: `readText` writes the next character, or the 0 for the end of the line, at that index.
pub read_text-outside :
    (typed : List ℕ) (c : ℕ) (cs : List ℕ) (r : Input)
    → r.buff_size ≡ pos 0
    → CanType typed []
    → edit typed [] ≡ []
    → c ≢ 255
    → read_text (typed ++ (8 ∷ c ∷ cs)) r ≡ outside minus_one (if c == b'\n' then 0 else c)
unfolding read_text
read_text-outside typed c cs r empty h taken some_char =
    let v : InBuffer r [] = record {
      size = empty;
      written = tt;
      whole = tt;
      small = omega arith;
    } in
    let (s, loop, v') = read_loop-behind typed [] (8 ∷ c ∷ cs) r v h in
    rw loop (
      outside-shown (read_loop (8 ∷ c ∷ cs) s) (map put_char typed) minus_one
        (if c == b'\n' then 0 else c) (back_then c cs s (subst (InBuffer s) taken v') some_char))
