-- ===== src/Commands/Filters.antt =====
-- The filters of programs/commands.c on a text that ends in the character EOF.
use dog_os.Prelude.{
  ℕ, ◌+◌, ◌≡◌, inl, inr, refl, false, some, List, [], ◌∷◌, ◌++◌, ◌==◌, if◌then◌else◌, map, arith,
  Bool-cases, ◌∉◌,
}
use dog_os.Commands.{put_char, print_line_count, Run, eof, is_vowel, after, filter_loop, filter}

-- The characters that are no vowels.
abbrev pub consonants : List ℕ → List ℕ
consonants [] = []
consonants (c ∷ cs) = if is_vowel c then consonants cs else c ∷ consonants cs

abbrev pub line_ends : List ℕ → ℕ
line_ends [] = 0
line_ends (c ∷ cs) = if c == b'\n' then line_ends cs + 1 else line_ends cs

filter_loop-text :
    (text input : List ℕ)
    → eof ∉ text
    → filter_loop (text ++ (eof ∷ input)) ≡ some (map put_char (consonants text), input)
unfolding filter_loop
filter_loop-text [] input out = refl
filter_loop-text (c ∷ text) input (ne, out) =
    let more : (c == eof) ≡ false = ground (arith, ne) in
    let rest = filter_loop-text text input out in
    elim (Bool-cases (is_vowel c)) [
      | inl e ↦ rw (more, filter_loop) (rw (e, filter_loop) rest)
      | inr e ↦ rw (more, filter_loop) (rw (e, filter_loop) (rw (rest, after) refl))
    ]

-- `filter` puts out the characters up to the first EOF that are no vowels, in order, and leaves the input
-- behind it.
pub filter-consonants :
    (text input : List ℕ)
    → eof ∉ text
    → filter 1 (text ++ (eof ∷ input)) ≡ some (map put_char (consonants text), input)
unfolding filter
filter-consonants text input out = filter_loop-text text input out

-- The outcome of `wc` with the count `n`.
abbrev counted : ℕ → (text input : List ℕ) → Run
counted n text input = some (map put_char text ++ (print_line_count n ∷ []), input)
