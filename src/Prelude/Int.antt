-- ===== src/Prelude/Int.antt =====
-- Go's signed int, where its sign matters. `negsuc n` is -(n + 1).
use Prim.Native.Nat.{ℕ, suc, ◌+◌, ◌-◌}
use mathlib.Core.Path.{◌≡◌}
use native.Mathlib.Omega.{arith}
use titelheld.Prelude.Tests.{ltb, if◌then◌else◌}

pub data ℤ : Type 0 where
  pos : ℕ → ℤ
  negsuc : ℕ → ℤ

-- m - n of two numbers
abbrev sub_nat : ℕ → ℕ → ℤ
sub_nat m n = if ltb m n then negsuc (n - m - 1) else pos (m - n)

infixl 20 ◌+ℤ◌
abbrev pub ◌+ℤ◌ : ℤ → ℤ → ℤ
pos m +ℤ pos n = pos (m + n)
pos m +ℤ negsuc n = sub_nat m (suc n)
negsuc m +ℤ pos n = sub_nat n (suc m)
negsuc m +ℤ negsuc n = negsuc (suc (m + n))

abbrev pub negate : ℤ → ℤ
negate (pos n) = sub_nat 0 n
negate (negsuc n) = pos (suc n)

pub add-sub : (a b : ℤ) → a +ℤ (b +ℤ negate a) ≡ b
add-sub (pos m) (pos n) = ground arith
add-sub (pos m) (negsuc n) = ground arith
add-sub (negsuc m) (pos n) = ground arith
add-sub (negsuc m) (negsuc n) = ground arith
