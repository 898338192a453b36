-- ===== src/Prelude/Store.antt =====
-- A field of the objects of a memory, as a function of their addresses.
use Prim.Native.Nat.{ℕ}
use mathlib.Core.Path.{◌≡◌}
use mathlib.Core.Logic.{◌≢◌}
use native.Mathlib.Omega.{arith}
use dog_os.Prelude.Tests.{◌==◌, if◌then◌else◌}

abbrev pub put : (ℕ → ℕ) → ℕ → ℕ → ℕ → ℕ
put f a v b = if b == a then v else f b

pub put_self : (f : ℕ → ℕ) (a v : ℕ) → put f a v a ≡ v
put_self f a v = ground arith

pub put_ne : (f : ℕ → ℕ) (a v b : ℕ) → b ≢ a → put f a v b ≡ f b
put_ne f a v b ne = ground arith
