-- ===== src/Prelude/Int.antt =====
-- Go's signed integers: a number, or one below zero.
use Prim.Native.Nat.{ℕ}
use mathlib.Core.Bool.{Bool, true, false}
use dsh_work.Prelude.Tests.{ltb}

pub data ℤ : Type 0 where
  pos negsuc : ℕ → ℤ

-- `a < b`
abbrev pub less : ℤ → ℤ → Bool
less (pos a) (pos b) = ltb a b
less (pos a) (negsuc b) = false
less (negsuc a) (pos b) = true
less (negsuc a) (negsuc b) = ltb b a

-- `max(a, 0)`
abbrev pub above_zero : ℤ → ℕ
above_zero (pos a) = a
above_zero (negsuc a) = 0
