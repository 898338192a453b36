-- ===== src/KernelPrints/Tests.antt =====
-- The numbers and `printf` of libraries/prints.c: the theorems on small inputs.
use dog_os.Prelude.{◌≡◌, refl, some, [], ◌∷◌, arith}
use dog_os.Prelude.Int.{pos, negsuc}
use dog_os.Libc.Numbers.{int_to_str, digits, reverse}
use dog_os.Libc.Format.{int, str, conversion, render}
use dog_os.KernelPrints.{uint_to_base, base_loop, turn_round, log2, log2_loop}
use dog_os.KernelPrints.Format.{printf}
use dog_os.KernelPrints.Same.{printf-same}
use dog_os.Libc

uint_to_base_run : uint_to_base 2026 10 ≡ b'2' ∷ b'0' ∷ b'2' ∷ b'6' ∷ []
unfolding uint_to_base base_loop turn_round
uint_to_base_run = refl

log2_run : log2 256 ≡ pos 8
unfolding log2 log2_loop
log2_run = refl

-- The format "a%d".
printed :
    Libc.Format.printf (b'a' ∷ b'%' ∷ b'd' ∷ []) (int (negsuc 6) ∷ [])
    ≡ some (b'a' ∷ b'-' ∷ b'7' ∷ [])
unfolding Libc.Format.printf conversion render int_to_str digits reverse
printed = refl

printf-same_example :
    printf (b'a' ∷ b'%' ∷ b'd' ∷ []) (int (negsuc 6) ∷ []) ≡ some (b'a' ∷ b'-' ∷ b'7' ∷ [], 3)
printf-same_example =
    printf-same (b'a' ∷ b'%' ∷ b'd' ∷ []) (int (negsuc 6) ∷ []) (b'a' ∷ b'-' ∷ b'7' ∷ [])
      (omega arith, (omega arith, (omega arith, tt))) (omega arith) printed
