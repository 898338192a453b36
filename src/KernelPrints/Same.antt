-- ===== src/KernelPrints/Same.antt =====
-- `printf` of libraries/prints.c against that of libraries/libc.c.
use dog_os.Prelude.{
  ℕ, ◌+◌, ◌≡◌, ◌≢◌, inl, inr, ◌∙◌, refl, sym, ap, subst, Bool, true, false, Option, none, some,
  List, [], ◌∷◌, ◌++◌, ◌==◌, leb, ltb, ◌>>=◌, length, length-append, Bool-cases, ==_iff, ◌∉◌, arith,
  ◌<◌, ◌%◌, take_all,
}
use mathlib.Core.Option.{some_inj, none-ne-some}
use dog_os.Libc.Format.{Arg, int, str, to_char, string, conversion, render, buff_len}
use dog_os.Libc
use dog_os.Libc.Numbers.{int_to_str}
use dog_os.KernelPrints.Format.{print_string, scan_conversion, scan, printf}

-- What `scan` makes of the outcome of a conversion of the other `printf`.
abbrev put_out : List ℕ × ℕ × List Arg → List ℕ × ℕ × List Arg
put_out t = (t.0, length t.0, t.2)

-- The two agree at a character behind the `%`.
abbrev Agree : ℕ → Type 0
Agree c =
    (args : List Arg) (t : List ℕ × ℕ × List Arg)
    → length t.0 < 256
    → conversion c args ≡ some t
    → scan_conversion c args ≡ some (put_out t)

both : (t u : List ℕ × ℕ × List Arg) → some u ≡ some t → some (put_out u) ≡ some (put_out t)
both t u e = ap (λ v. some (put_out v)) (some_inj.0 e)

-- A string of fewer than 256 characters is put out whole.
whole :
    (s : List ℕ) (rest : List Arg) (t : List ℕ × ℕ × List Arg)
    → length t.0 < 256
    → some (string s rest) ≡ some t
    → some (print_string s, length s, rest) ≡ some (put_out t)
whole s rest t short e =
    let same : string s rest ≡ t = some_inj.0 e in
    let few : length s < 256 =
      subst (λ (u : List ℕ × ℕ × List Arg). length u.0 < 256) (sym same) short in
    let all : print_string s ≡ s = take_all (length s % 256) s (omega arith) in
    ap (λ u. some (u, length s, rest)) all ∙ both t (string s rest) e

Agree-letter : Agree b'c'
unfolding conversion scan_conversion
Agree-letter [] t short e = absurd (none-ne-some t e)
Agree-letter (int v ∷ rest) t short e = both t (to_char v ∷ [], 1, rest) e
Agree-letter (str s ∷ rest) t short e = absurd (none-ne-some t e)

Agree-number : Agree b'd'
unfolding conversion scan_conversion
Agree-number [] t short e = absurd (none-ne-some t e)
Agree-number (int v ∷ rest) t short e = whole (int_to_str v [] 10) rest t short e
Agree-number (str s ∷ rest) t short e = absurd (none-ne-some t e)

Agree-text : Agree b's'
unfolding conversion scan_conversion
Agree-text [] t short e = absurd (none-ne-some t e)
Agree-text (int v ∷ rest) t short e = absurd (none-ne-some t e)
Agree-text (str s ∷ rest) t short e = whole s rest t short e

Agree-percent : Agree b'%'
unfolding conversion scan_conversion
Agree-percent args t short e = both t (b'%' ∷ [], 2, args) e

-- At any other character both put out nothing.
Agree-other :
    (c : ℕ)
    → (c == b'c') ≡ false
    → (c == b'd') ≡ false
    → (c == b'x') ≡ false
    → (c == b's') ≡ false
    → (c == b'%') ≡ false
    → Agree c
unfolding conversion scan_conversion
Agree-other c nc nd nx ns np args t short e =
    let plain : conversion c args ≡ some ([], 0, args) =
      rw (nc, conversion)
        (rw (nd, conversion)
          (rw (nx, conversion) (rw (ns, conversion) (rw (np, conversion) refl)))) in
    rw (np, scan_conversion)
      (rw (nc, scan_conversion)
        (rw (ns, scan_conversion)
          (rw (nd, scan_conversion)
            (rw (nx, scan_conversion) (both t ([], 0, args) (sym plain ∙ e))))))

-- A conversion other than `%x` puts out the same.
scan_conversion-Agree : (c : ℕ) → c ≢ b'x' → Agree c
scan_conversion-Agree c ne = elim (Bool-cases (c == b'c')) [
  | inl e ↦ subst Agree (sym ((==_iff c b'c').0 e)) Agree-letter
  | inr nc ↦ elim (Bool-cases (c == b'd')) [
    | inl e ↦ subst Agree (sym ((==_iff c b'd').0 e)) Agree-number
    | inr nd ↦ elim (Bool-cases (c == b's')) [
      | inl e ↦ subst Agree (sym ((==_iff c b's').0 e)) Agree-text
      | inr ns ↦ elim (Bool-cases (c == b'%')) [
        | inl e ↦ subst Agree (sym ((==_iff c b'%').0 e)) Agree-percent
        | inr np ↦ Agree-other c nc nd (ground (arith, ne)) ns np
      ]
    ]
  ]
]

>>=-some :
    {A B : Type 0} (o : Option A) (f : A → Option B) (b : B)
    → (o >>= f) ≡ some b
    → (a : A) × (o ≡ some a) × (f a ≡ some b)
>>=-some none f b e = absurd (none-ne-some b e)
>>=-some (some a) f b e = (a, refl, e)

abbrev counts : List ℕ → ℕ → Option (List ℕ × ℕ)
counts r n = some (r, n)

counted : (r s : List ℕ) (n : ℕ) → n ≡ length r → r ≡ s → counts r n ≡ counts s (length s)
counted r s n e d = ap (counts r) e ∙ ap (λ t. counts t (length t)) d

scan-render :
    (b : Bool) (format : List ℕ) (args : List Arg) (n : ℕ) (s : List ℕ)
    → b'x' ∉ format
    → length s < 256
    → render b format args n ≡ some s
    → scan b format args ≡ some (s, length s)
unfolding render scan
scan-render false [] args n s no_x short e = ap (λ r. some (r, length r)) (some_inj.0 e)
scan-render true [] args n s no_x short e = absurd (none-ne-some s e)
scan-render false (c ∷ cs) args n s no_x short e = elim (Bool-cases (c == b'%')) [
  | inl t ↦ rw (t, scan) (scan-render true cs args n s no_x.1 short (rw (t, render) at e))
  | inr t ↦ elim (Bool-cases (ltb n buff_len)) [
    | inl room ↦
        let (rest, done, last) =
          >>=-some (render false cs args (n + 1)) (λ r. some (c ∷ r)) s
            (rw (room, render) at (rw (t, render) at e)) in
        let size : length s ≡ length rest + 1 = omega (arith, ap length (some_inj.0 last)) in
        rw (t, scan)
          (rw (scan-render false cs args (n + 1) rest no_x.1 (omega arith) done, scan)
            (counted (c ∷ rest) s (length rest + 1) (omega arith) (some_inj.0 last)))
    | inr full ↦ absurd (none-ne-some s (rw (full, render) at (rw (t, render) at e)))
  ]
]
scan-render true (c ∷ cs) args n s no_x short e =
    let (t, converted, more) =
      >>=-some (conversion c args)
        (λ (r : List ℕ × ℕ × List Arg). elim (leb (n + r.1) buff_len) [
          | true ↦ render false cs r.2 (n + length r.0) >>= λ rest. some (r.0 ++ rest)
          | false ↦ none
        ])
        s e in
    elim (Bool-cases (leb (n + t.1) buff_len)) [
      | inl room ↦
          let (rest, done, last) =
            >>=-some (render false cs t.2 (n + length t.0)) (λ r. some (t.0 ++ r)) s
              (rw (room, leb) at more) in
          let size : length s ≡ length t.0 + length rest =
            ap length (sym (some_inj.0 last)) ∙ length-append t.0 rest in
          rw (scan_conversion-Agree c (λ x. no_x.0 (sym x)) args t (omega arith) converted, scan)
            (rw (scan-render false cs t.2 (n + length t.0) rest no_x.1 (omega arith) done, scan)
              (counted (t.0 ++ rest) s (length rest + length t.0)
                (omega (arith, length-append t.0 rest)) (some_inj.0 last)))
      | inr full ↦ absurd (none-ne-some s (rw (full, leb) at more))
    ]

-- When the `printf` of the programs makes a string of fewer than 256 characters and the format has no x, the
-- `printf` of the kernel puts out the same string and returns its length.
pub printf-same :
    (format : List ℕ) (args : List Arg) (s : List ℕ)
    → b'x' ∉ format
    → length s < 256
    → Libc.Format.printf format args ≡ some s
    → printf format args ≡ some (s, length s)
unfolding printf Libc.Format.printf
printf-same format args s no_x short e = scan-render false format args 0 s no_x short e
