-- ===== src/Console/Rows.antt =====
-- The rows of text memory: a row has 160 bytes, a character and its colour for each of 80 cells.
use dog_os.Prelude.{
  ℕ, zero, suc, ◌+◌, ◌*◌, ◌/◌, ◌%◌, ◌≤◌, ◌≡◌, ◌∙◌, ◌&&◌, ltb, leb, ◌==◌, if◌then◌else◌, arith,
  Bool-cases, inl, inr,
}
use dog_os.Console.{Console, newline_loop, nc_newline, nc_print_char}

-- The row behind the one that an offset is in.
abbrev pub next_row : ℕ → ℕ
next_row a = (a / 160 + 1) * 160

-- The cells from `a` on to the end of the row are blank.
abbrev pub blanked : (a : ℕ) → (ℕ → ℕ) → ℕ → ℕ
blanked a video b = if leb a b && (ltb b (next_row a) && (b % 2 == 0)) then b' ' else video b

newline_loop_row :
    (fuel : ℕ) (t : Console)
    → t.current_video % 2 ≡ 0
    → 160 ≤ 2 * fuel + t.current_video % 160
    → ((newline_loop fuel t).current_video ≡ next_row t.current_video)
      × ((a : ℕ) → (newline_loop fuel t).video a ≡ blanked t.current_video t.video a)
unfolding newline_loop nc_print_char
newline_loop_row zero t even enough = absurd (omega arith)
newline_loop_row (suc fuel) t even enough = elim (Bool-cases ((t.current_video + 2) % 160 == 0)) [
  | inl last ↦ rw last (ground arith, λ a. ground arith)
  | inr on ↦
      let t₁ : Console = nc_print_char b' ' t in
      let (there, cells) = newline_loop_row fuel t₁ (omega arith) (ground arith) in
      rw on (there ∙ ground arith, λ a. cells a ∙ ground arith)
]

-- Where the next character goes to a cell, an even offset, `ncNewline` blanks the cells that are left of
-- its row, colours excepted, or a whole row at its start, and stops at the start of the next row: the
-- rounds for the cells of a row are enough.
pub nc_newline-next_row :
    (t : Console)
    → t.current_video % 2 ≡ 0
    → ((nc_newline t).current_video ≡ next_row t.current_video)
      × ((a : ℕ) → (nc_newline t).video a ≡ blanked t.current_video t.video a)
unfolding nc_newline
nc_newline-next_row t even = newline_loop_row 80 t even (omega arith)
