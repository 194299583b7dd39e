-- ===== src/Prelude/Integers.antt =====
-- Integers over the native numbers, for counters that a program may count below zero.
use mathlib.Core.Bool.{Bool, true, false}
use Prim.Native.Nat.{ℕ, zero, suc}
use cluster_api_provider_bar.Prelude.{ltb}

pub data ℤ : Type 0 where
  pos negsuc : ℕ → ℤ

-- The first is less than the second.
abbrev pub int_ltb : ℤ → ℤ → Bool
int_ltb (pos m) (pos n) = ltb m n
int_ltb (pos m) (negsuc n) = false
int_ltb (negsuc m) (pos n) = true
int_ltb (negsuc m) (negsuc n) = ltb n m

-- One more.
abbrev pub inc : ℤ → ℤ
inc (pos n) = pos (suc n)
inc (negsuc zero) = pos 0
inc (negsuc (suc n)) = negsuc n

-- One less.
abbrev pub dec : ℤ → ℤ
dec (pos (suc n)) = pos n
dec (pos zero) = negsuc 0
dec (negsuc n) = negsuc (suc n)
