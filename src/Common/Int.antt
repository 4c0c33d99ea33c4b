-- ===== src/Common/Int.antt =====
-- Integers over the native numbers, for the replies of Redis that may be negative.
use Prim.Native.Nat.{ℕ}
use mathlib.Core.Bool.{Bool, false}
use mathplat.Common.Tests.{ltb, num_eq}

-- `negsuc n` is -(n + 1).
pub data ℤ : Type 0 where
  pos : ℕ → ℤ
  negsuc : ℕ → ℤ

-- `a > n`
abbrev pub gtb : ℤ → ℕ → Bool
gtb (pos m) n = ltb n m
gtb (negsuc m) n = false

-- `a === n`
abbrev pub is : ℤ → ℕ → Bool
is (pos m) n = num_eq m n
is (negsuc m) n = false
