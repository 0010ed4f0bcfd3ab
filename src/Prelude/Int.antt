-- ===== src/Prelude/Int.antt =====
-- The values of a C `int`: signed integers over the native numbers. The program's values stay far
-- inside the 32-bit range, so there is no wrap-around to write out.
use Prim.Native.Nat.{ℕ}
use mathlib.Core.Path.{◌≡◌}
use mathlib.Core.Bool.{Bool, true, false}
use native.Mathlib.Omega.{arith}
use gtksudoku.Prelude.Tests.{◌==◌, ==_refl}

-- `negsuc n` is -(n + 1).
pub data ℤ : Type 0 where
  pos : ℕ → ℤ
  negsuc : ℕ → ℤ

infix 50 ◌==ℤ◌
abbrev pub ◌==ℤ◌ : ℤ → ℤ → Bool
pos a ==ℤ pos b = a == b
negsuc a ==ℤ negsuc b = a == b
_ ==ℤ _ = false

pub ==ℤ_refl : (a : ℤ) → (a ==ℤ a) ≡ true
==ℤ_refl (pos a) = ==_refl a
==ℤ_refl (negsuc a) = ==_refl a

pub ==ℤ→≡ : (a b : ℤ) → (a ==ℤ b) ≡ true → a ≡ b
==ℤ→≡ a b e = ground arith
