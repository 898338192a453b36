-- ===== src/Video/Pixels.antt =====
-- `putPixel` of drivers/videoDriver.c on the bytes of the frame buffer, which starts at an address.
use dog_os.Prelude.{
  ℕ, suc, ◌+◌, ◌-◌, ◌*◌, ◌/◌, ◌%◌, ◌^◌, ◌<◌, ◌≤◌, ◌≡◌, ◌≢◌, ◌⊎◌, inl, inr, sym, ap, ◌∙◌, ◌&&◌, ◌==◌,
  if◌then◌else◌, put, arith, Bool-cases, ltb, true,
}
use dog_os.Prelude.Int.{ℤ, pos, negsuc, of_u32, to_u64}
use native.Mathlib.Decide.{dec_lt}
use native.Mathlib.Nat.{mul-le-mul_right, suc-mul}

abbrev pub pixel_size : ℕ
pixel_size = 3

-- `getPixData`: the sum of 32 bits is returned as an `int`.
unfoldable pub get_pix_data : (width x y : ℕ) → ℤ
get_pix_data width x y = of_u32 ((x + y * width) * pixel_size % 2 ^ 32)

-- The three bytes of a pixel: blue, green and red.
abbrev pub write_colour : (offset colour : ℕ) → (ℕ → ℕ) → ℕ → ℕ
write_colour offset colour m =
    put (put (put m offset (colour % 256)) (offset + 1) (colour / 2 ^ 8 % 256)) (offset + 2)
      (colour / 2 ^ 16 % 256)

-- `putPixel`
unfoldable pub put_pixel : (frame width x y colour : ℕ) → (ℕ → ℕ) → ℕ → ℕ
unfolding get_pix_data
put_pixel frame width x y colour m =
    write_colour ((frame + to_u64 (get_pix_data width x y)) % 2 ^ 64) colour m

-- The colour that stands at a place of the screen.
abbrev pub colour_at : (frame width x y : ℕ) → (ℕ → ℕ) → ℕ
colour_at frame width x y m =
    let at = frame + (x + y * width) * pixel_size in m at + 2 ^ 8 * m (at + 1) + 2 ^ 16 * m (at + 2)

-- Places on the screen have their own numbers.
rows_apart :
    (width x y x' y' : ℕ) → x < width → x' < width → y < y' → x + y * width < x' + y' * width
rows_apart width x y x' y' hx hx' h =
    let next : suc y * width ≤ y' * width =
      mul-le-mul_right {m = suc y} {n = y'} width (omega arith) in
    omega (arith, suc-mul y width, next)

place_ne :
    (width x y x' y' : ℕ)
    → x < width
    → x' < width
    → (x ≢ x') ⊎ (y ≢ y')
    → x + y * width ≢ x' + y' * width
place_ne width x y x' y' hx hx' other = elim (dec_lt y y') [
  | yes up ↦ λ e. absurd (omega (arith, e, rows_apart width x y x' y' hx hx' up))
  | no same ↦ elim (dec_lt y' y) [
    | yes down ↦ λ e. absurd (omega (arith, e, rows_apart width x' y' x y hx' hx down))
    | no there ↦
        let row : y ≡ y' = omega arith in
        let equal : y * width ≡ y' * width = ap (λ r. r * width) row in
        elim other [
          | inl ne ↦ λ e. absurd (ne (omega (arith, e, equal)))
          | inr ne ↦ absurd (ne row)
        ]
  ]
]

place-lt : (width height x y : ℕ) → x < width → y < height → x + y * width < height * width
place-lt width height x y hx hy =
    let next : suc y * width ≤ height * width =
      mul-le-mul_right {m = suc y} {n = height} width (omega arith) in
    omega (arith, suc-mul y width, next)

-- The bytes of a place that was written, and of another one.
bytes_here :
    (at colour : ℕ) (m : ℕ → ℕ)
    → colour < 2 ^ 24
    → let m' : ℕ → ℕ = write_colour at colour m in
      m' at + 2 ^ 8 * m' (at + 1) + 2 ^ 16 * m' (at + 2) ≡ colour
bytes_here at colour m small = ground arith

bytes_there :
    (frame p q colour : ℕ) (m : ℕ → ℕ)
    → p ≢ q
    → let m' : ℕ → ℕ = write_colour (frame + p * 3) colour m in
      let at : ℕ = frame + q * 3 in
      m' at + 2 ^ 8 * m' (at + 1) + 2 ^ 16 * m' (at + 2)
      ≡ m at + 2 ^ 8 * m (at + 1) + 2 ^ 16 * m (at + 2)
bytes_there frame p q colour m other = ground arith

-- The place that `putPixel` reaches, where the sum does not reach the sign of an `int`.
get_pix_data-place :
    (frame width x y : ℕ)
    → frame < 2 ^ 32
    → (x + y * width) * pixel_size < 2 ^ 31
    → (frame + to_u64 (get_pix_data width x y)) % 2 ^ 64 ≡ frame + (x + y * width) * pixel_size
unfolding get_pix_data
get_pix_data-place frame width x y low small =
    let place : ℕ = (x + y * width) * pixel_size in
    let same : place % 2 ^ 32 ≡ place = omega (arith, small) in
    let sign : ltb place (2 ^ 31) ≡ true = ground arith in
    ap (λ n. (frame + to_u64 (of_u32 n)) % 2 ^ 64) same
    ∙ ap (λ b. (frame + to_u64 (if b then pos place else negsuc (2 ^ 32 - place - 1))) % 2 ^ 64)
        sign
    ∙ omega (arith, small)

-- On a screen of fewer than 2 ^ 31 bytes with an address of 32 bits, a colour of 24 bits that `putPixel` writes to a place of it stands
-- there, and the colour of every other place is as it was.
pub put_pixel-colour_at :
    (frame width height x y x' y' colour : ℕ) (m : ℕ → ℕ)
    → frame < 2 ^ 32
    → height * width * pixel_size < 2 ^ 31
    → (x < width) × (y < height)
    → (x' < width) × (y' < height)
    → colour < 2 ^ 24
    → colour_at frame width x' y' (put_pixel frame width x y colour m)
      ≡ (if (x' == x) && (y' == y) then colour else colour_at frame width x' y' m)
unfolding put_pixel
put_pixel-colour_at frame width height x y x' y' colour m low small (hx, hy) (hx', hy') deep =
    let place : ℕ = (x + y * width) * pixel_size in
    let reached =
      get_pix_data-place frame width x y low
        (omega (arith, small, place-lt width height x y hx hy)) in
    ap (λ a. colour_at frame width x' y' (write_colour a colour m)) reached
    ∙ elim (Bool-cases ((x' == x) && (y' == y))) [
      | inl e ↦
          let column : x ≡ x' = ground (arith, e) in
          let row : y ≡ y' = ground (arith, e) in
          let there : (x' + y' * width) * pixel_size ≡ place =
            ap (λ r. (x' + r * width) * pixel_size) (sym row)
            ∙ ap (λ c. (c + y * width) * pixel_size) (sym column) in
          rw e (
            ap
              (λ n.
                let m' : ℕ → ℕ = write_colour (frame + place) colour m in
                m' (frame + n) + 2 ^ 8 * m' (frame + n + 1) + 2 ^ 16 * m' (frame + n + 2))
              there
            ∙ bytes_here (frame + place) colour m deep)
      | inr e ↦
          let other : (x ≢ x') ⊎ (y ≢ y') = elim (Bool-cases (x' == x)) [
            | inl h ↦ inr (ground (arith, e, h))
            | inr h ↦ inl (ground (arith, h))
          ] in
          rw e (
            bytes_there frame (x + y * width) (x' + y' * width) colour m
              (place_ne width x y x' y' hx hx' other))
    ]
