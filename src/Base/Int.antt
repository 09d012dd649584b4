-- ===== src/Base/Int.antt =====
-- Go's `int`, as far as the program compares one. `negsuc n` is -(n + 1).
use Prim.Native.Nat.{ℕ, zero}
use mathlib.Core.Bool.{Bool, true, false}
use lowcode_wrapper.Base.Tests.{ltb, ◌==◌}

pub data ℤ : Type 0 where
  pos : ℕ → ℤ
  negsuc : ℕ → ℤ

abbrev pub int_lt : ℤ → ℤ → Bool
int_lt (pos a) (pos b) = ltb a b
int_lt (pos a) (negsuc b) = false
int_lt (negsuc a) (pos b) = true
int_lt (negsuc a) (negsuc b) = ltb b a

abbrev pub int_eq : ℤ → ℤ → Bool
int_eq (pos a) (pos b) = a == b
int_eq (negsuc a) (negsuc b) = a == b
int_eq _ _ = false

abbrev pub is_zero : ℤ → Bool
is_zero z = int_eq z (pos zero)
