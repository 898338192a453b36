-- ===== src/Memory.antt =====
-- memset and memcpy of Kernel/lib.c, on a memory of bytes.
pub mod Copies
mod Tests
use dog_os.Prelude.{ℕ, zero, suc, ◌+◌, ◌*◌, ◌/◌, ◌%◌, ◌^◌, ◌&&◌, ◌==◌, if◌then◌else◌, put}

-- The loop of `memset`, from the end of the array to its start.
unfoldable pub memset_loop : ℕ → (dst chr : ℕ) → (ℕ → ℕ) → ℕ → ℕ
memset_loop zero dst chr m = m
memset_loop (suc length) dst chr m = memset_loop length dst chr (put m (dst + length) chr)

-- `memset`, of the low bits of `c`
unfoldable pub memset : (destination c length : ℕ) → (ℕ → ℕ) → ℕ → ℕ
unfolding memset_loop
memset destination c length m = memset_loop length destination (c % 256) m

-- A `uint32_t`, the lowest byte first.
abbrev pub read32 : (ℕ → ℕ) → ℕ → ℕ
read32 m a = m a + 256 * m (a + 1) + 2 ^ 16 * m (a + 2) + 2 ^ 24 * m (a + 3)

abbrev pub write32 : (ℕ → ℕ) → (a v : ℕ) → ℕ → ℕ
write32 m a v =
    put (put (put (put m a (v % 256)) (a + 1) (v / 256 % 256)) (a + 2) (v / 2 ^ 16 % 256)) (a + 3)
      (v / 2 ^ 24 % 256)

-- The loop of `memcpy` on words.
unfoldable pub copy_words : ℕ → (d s : ℕ) → (ℕ → ℕ) → ℕ → ℕ
copy_words zero d s m = m
copy_words (suc n) d s m = copy_words n (d + 4) (s + 4) (write32 m d (read32 m s))

-- The loop of `memcpy` on bytes.
unfoldable pub copy_bytes : ℕ → (d s : ℕ) → (ℕ → ℕ) → ℕ → ℕ
copy_bytes zero d s m = m
copy_bytes (suc n) d s m = copy_bytes n (d + 1) (s + 1) (put m d (m s))

-- `memcpy`
unfoldable pub memcpy : (destination source length : ℕ) → (ℕ → ℕ) → ℕ → ℕ
unfolding copy_words copy_bytes
memcpy destination source length m =
    if (destination % 4 == 0) && ((source % 4 == 0) && (length % 4 == 0))
    then copy_words (length / 4) destination source m
    else copy_bytes length destination source m
